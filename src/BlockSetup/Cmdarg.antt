-- ===== src/BlockSetup/Cmdarg.antt =====
-- tenders/hvt/hvt_module_blk.c: what the block module's options keep of the manifest.
use native.Mathlib.Decide.{ℕ_discrete}
use solo.Base.{
  ℕ, zero, suc, ◌-◌, ◌^◌, ◌<◌, ◌≡◌, refl, sym, ap, ◌∙◌, subst, inl, inr, true, false, ◌||◌, ◌!=◌,
  ltb, List, [], ◌∷◌, length-set, get_elem?, get_elem?-lt, get_elem?-set_self, get_elem?-set_ne,
  Option-cases, Bool-cases, Option, none, some, some_inj, Run, done, exits, ReturnsOrExits, stops,
  returns, arith, bit_and, is_zero, ℤ, sub_ℕ, Bool, ◌==◌, ◌&&◌,
}
use solo.CString.{strncmp, strncmp_loop}
use solo.CString.Compare.{IsTerminated}
use solo.Mft.{Mft, MftEntry, mft_name_max, mft_dev_block_basic}
use solo.Mft.Lookup.{IsUsable, Finds, mft_get_by_name-Finds}
use solo.BlockSetup.{
  Options, BlockModule, put, handle_block, handle_block_size, handle_cmdarg, block_prefix,
  block_sector_size_prefix,
}

-- The lookups work, and the capacity of an attached device fits an `off_t`.
pub record IsKept (m : Mft) : Type 0 where
  pub usable : IsUsable m
  pub capacities :
      (k : ℕ) (x : MftEntry)
      → get_elem? m.e k ≡ some x
      → x.attached ≡ true
      → x.block_basic.capacity < 2 ^ 63

-- What `sscanf` and `block_attach` promise: a name of at most MFT_NAME_MAX characters with its NUL,
-- and a capacity from `lseek`, or the end of the process.
pub record OptionsLaws (os : Options) : Type 0 where
  pub block_name :
      (s : List ℕ) (q : List ℕ × List ℕ) → os.scan_block s ≡ some q → IsTerminated mft_name_max q.0
  pub size_name :
      (s : List ℕ) (q : List ℕ × ℕ) → os.scan_block_size s ≡ some q → IsTerminated mft_name_max q.0
  pub attaches :
      (d : os.Disk) (path : List ℕ)
      → ReturnsOrExits (λ (q : os.Disk × ℕ × ℕ). q.2 < 2 ^ 63) (os.block_attach d path)

put-IsKept :
    (m : Mft) (i : ℕ) (x y : MftEntry)
    → get_elem? m.e i ≡ some x
    → y.name ≡ x.name
    → (y.attached ≡ true → y.block_basic.capacity < 2 ^ 63)
    → i < m.entries
    → IsKept m
    → IsKept (put m i y)
put-IsKept m i x y at name fits lt old = record {
  usable = record {
    fits = omega (arith, length-set m.e i y, old.usable.fits);
    few = old.usable.few;
    named = λ k z below h. elim (ℕ_discrete k i) [
      | yes same ↦
          subst (λ (w : MftEntry). IsTerminated mft_name_max w.name) (here k z same h)
            (subst (IsTerminated mft_name_max) (sym name) (old.usable.named i x lt at))
      | no ne ↦ old.usable.named k z below (there k z ne h)
    ];
  };
  capacities = λ k z h on. elim (ℕ_discrete k i) [
    | yes same ↦
        subst (λ (w : MftEntry). w.attached ≡ true → w.block_basic.capacity < 2 ^ 63)
          (here k z same h) fits on
    | no ne ↦ old.capacities k z (there k z ne h) on
  ];
}
  where
    here : (k : ℕ) (z : MftEntry) → k ≡ i → get_elem? (put m i y).e k ≡ some z → y ≡ z
    here k z same h = some_inj (
        sym (get_elem?-set_self m.e i y (get_elem?-lt m.e i x at))
        ∙ ap (get_elem? (put m i y).e) (sym same)
        ∙ h)

    there :
        (k : ℕ) (z : MftEntry)
        → (k ≡ i → ⊥)
        → get_elem? (put m i y).e k ≡ some z
        → get_elem? m.e k ≡ some z
    there k z ne h = sym (get_elem?-set_ne m.e i k y (λ e. ne (sym e))) ∙ h

-- `strncmp` ends on terminated strings, however long they are.
strncmp_loop-ends :
    (j k : ℕ) (l r : List ℕ) (n : ℕ)
    → IsTerminated j l
    → IsTerminated k r
    → (z : ℤ) × (strncmp_loop l r n ≡ done z)
unfolding strncmp_loop
strncmp_loop-ends j k [] r n tl tr = absurd tl
strncmp_loop-ends j k (a ∷ l) [] n tl tr = absurd tr
strncmp_loop-ends zero k (a ∷ l) (b ∷ r) n tl tr = (sub_ℕ a b, ground (arith, tl))
strncmp_loop-ends (suc j) zero (a ∷ l) (b ∷ r) n tl tr = (sub_ℕ a b, ground (arith, tr))
strncmp_loop-ends (suc j) (suc k) (a ∷ l) (b ∷ r) n tl tr =
    elim (Bool-cases ((a != 0) && ((b != 0) && ((n != 0) && (a == b))))) [
      | inr stop ↦ (sub_ℕ a b, rw stop refl)
      | inl go ↦
          let (z, e) =
            strncmp_loop-ends j k l r (n - 1) (ground (arith, go, tl)) (ground (arith, go, tr)) in
          (z, rw go e)
    ]

-- Whether the argument begins with the prefix of a number of characters, as `strncmp` tells.
abbrev pub Begins : List ℕ → List ℕ → ℕ → Bool → Type 0
Begins prefix cmdarg n b = (z : ℤ) × (strncmp prefix cmdarg n ≡ done z) × (is_zero z ≡ b)

-- The block device of a name, or that there is none.
abbrev pub Named : {D : Type 0} → BlockModule D → List ℕ → Option (ℕ × MftEntry) → Type 0
Named s name o = Finds s.mft name mft_dev_block_basic 0 s.mft.entries o

-- The entry with the file that was opened for it, and with a block size.
abbrev pub attached_entry : MftEntry → ℕ → ℕ → MftEntry
attached_entry x fd capacity = record x {
  block_basic = record (x.block_basic) { capacity = capacity };
  hostfd = fd;
  attached = true;
}

abbrev pub sized_entry : MftEntry → ℕ → MftEntry
sized_entry x bs = record x { block_basic = record (x.block_basic) { block_size = bs } }

module _ (os : Options) where
  -- Why an argument is not taken.
  pub data Ignored (s : BlockModule os.Disk) (cmdarg : List ℕ) : Type 0 where
    other :
        Begins block_prefix cmdarg 8 false
        → Begins block_sector_size_prefix cmdarg 20 false
        → Ignored s cmdarg
    no_path : Begins block_prefix cmdarg 8 true → os.scan_block cmdarg ≡ none → Ignored s cmdarg
    no_block :
        (name path : List ℕ)
        → Begins block_prefix cmdarg 8 true
        → os.scan_block cmdarg ≡ some (name, path)
        → Named s name none
        → Ignored s cmdarg
    no_size :
        Begins block_sector_size_prefix cmdarg 20 true
        → os.scan_block_size cmdarg ≡ none
        → Ignored s cmdarg
    bad_size :
        (name : List ℕ) (bs : ℕ)
        → Begins block_sector_size_prefix cmdarg 20 true
        → os.scan_block_size cmdarg ≡ some (name, bs)
        → (ltb bs 512 || (bit_and bs (bs - 1) != 0)) ≡ true
        → Ignored s cmdarg
    no_sized :
        (name : List ℕ) (bs : ℕ)
        → Begins block_sector_size_prefix cmdarg 20 true
        → os.scan_block_size cmdarg ≡ some (name, bs)
        → Named s name none
        → Ignored s cmdarg

  -- What the module makes of an argument.
  pub data Handled (s : BlockModule os.Disk) (cmdarg : List ℕ)
      (r : Run (BlockModule os.Disk × Bool)) : Type 0 where
    ignored : Ignored s cmdarg → r ≡ done (s, false) → Handled s cmdarg r
    cannot_open :
        (name path : List ℕ) (i : ℕ) (x : MftEntry)
        → Begins block_prefix cmdarg 8 true
        → os.scan_block cmdarg ≡ some (name, path)
        → Named s name (some (i, x))
        → os.block_attach s.disk path ≡ exits 1
        → r ≡ exits 1
        → Handled s cmdarg r
    opens :
        (name path : List ℕ) (i : ℕ) (x : MftEntry) (d : os.Disk) (fd capacity : ℕ)
        → Begins block_prefix cmdarg 8 true
        → os.scan_block cmdarg ≡ some (name, path)
        → Named s name (some (i, x))
        → os.block_attach s.disk path ≡ done (d, fd, capacity)
        → r
          ≡ done (
            record {
              disk = d;
              mft = put s.mft i (attached_entry x fd capacity);
              module_in_use = true;
            },
            true,
          )
        → IsKept (put s.mft i (attached_entry x fd capacity))
        → Handled s cmdarg r
    sizes :
        (name : List ℕ) (bs i : ℕ) (x : MftEntry)
        → Begins block_sector_size_prefix cmdarg 20 true
        → os.scan_block_size cmdarg ≡ some (name, bs)
        → (ltb bs 512 || (bit_and bs (bs - 1) != 0)) ≡ false
        → Named s name (some (i, x))
        → r ≡ done (record s { mft = put s.mft i (sized_entry x bs) }, true)
        → IsKept (put s.mft i (sized_entry x bs))
        → Handled s cmdarg r

module _ (os : Options) (laws : OptionsLaws os) where
  handle_block-Handled :
      (s : BlockModule os.Disk) (cmdarg : List ℕ)
      → IsKept s.mft
      → Begins block_prefix cmdarg 8 true
      → Handled os s cmdarg (handle_block os s cmdarg)
  unfolding handle_block
  handle_block-Handled s cmdarg old begins = elim (Option-cases (os.scan_block cmdarg)) [
    | inl bad ↦ ignored (no_path begins bad) (rw (bad, handle_block) refl)
    | inr ((name, path), scanned) ↦
        let (o, found, is) =
          mft_get_by_name-Finds s.mft name mft_dev_block_basic old.usable
            (laws.block_name cmdarg (name, path) scanned) in
        elim (Option-cases o) [
          | inl nothing ↦
              ignored (no_block name path begins scanned (subst (Named s name) nothing is))
                (rw (scanned, handle_block, found, nothing) refl)
          | inr ((i, x), e) ↦
              let named = subst (Named s name) e is in
              let (low, lt, at, match, first) = named in
              elim (laws.attaches s.disk path) [
                | stops bad ↦
                    cannot_open name path i x begins scanned named bad
                      (rw (scanned, handle_block, found, e, bad) refl)
                | returns (d, fd, capacity) opened small ↦
                    opens name path i x d fd capacity begins scanned named opened
                      (rw (scanned, handle_block, found, e, opened) refl)
                      (put-IsKept s.mft i x (attached_entry x fd capacity) at refl (λ on. small) lt
                        old)
              ]
        ]
  ]

  handle_block_size-Handled :
      (s : BlockModule os.Disk) (cmdarg : List ℕ)
      → IsKept s.mft
      → Begins block_sector_size_prefix cmdarg 20 true
      → Handled os s cmdarg (handle_block_size os s cmdarg)
  unfolding handle_block_size
  handle_block_size-Handled s cmdarg old begins = elim (Option-cases (os.scan_block_size cmdarg)) [
    | inl bad ↦ ignored (no_size begins bad) (rw (bad, handle_block_size) refl)
    | inr ((name, bs), scanned) ↦ elim (Bool-cases (ltb bs 512 || (bit_and bs (bs - 1) != 0))) [
      | inl odd ↦
          ignored (bad_size name bs begins scanned odd) (rw (scanned, handle_block_size, odd) refl)
      | inr even ↦
          let (o, found, is) =
            mft_get_by_name-Finds s.mft name mft_dev_block_basic old.usable
              (laws.size_name cmdarg (name, bs) scanned) in
          elim (Option-cases o) [
            | inl nothing ↦
                ignored (no_sized name bs begins scanned (subst (Named s name) nothing is))
                  (rw (scanned, handle_block_size, even, found, nothing) refl)
            | inr ((i, x), e) ↦
                let named = subst (Named s name) e is in
                let (low, lt, at, match, first) = named in
                sizes name bs i x begins scanned even named
                  (rw (scanned, handle_block_size, even, found, e) refl)
                  (put-IsKept s.mft i x (sized_entry x bs) at refl (old.capacities i x at) lt old)
          ]
    ]
  ]

  -- On a terminated argument, for a manifest in which the lookups work and the capacity of each attached device
  -- fits an `off_t`, `handle_cmdarg` ends in one of four ways. It answers -1 and changes nothing, for an
  -- argument that has neither prefix, that `sscanf` cannot take apart, that names no block device, or
  -- whose block size is less than 512 or no power of two. The process stops with status 1 since the named file
  -- cannot be opened. The named device's entry is attached with the file's descriptor and capacity. Or the
  -- named device's entry has the block size. What holds of the manifest holds of the new one.
  pub handle_cmdarg-IsKept :
      (s : BlockModule os.Disk) (cmdarg : List ℕ) (n : ℕ)
      → IsTerminated n cmdarg
      → IsKept s.mft
      → Handled os s cmdarg (handle_cmdarg os s cmdarg)
  unfolding handle_cmdarg strncmp
  handle_cmdarg-IsKept s cmdarg n ended old =
      let (z, e) = strncmp_loop-ends 8 n block_prefix cmdarg 7 refl ended in
      let (z', e') = strncmp_loop-ends 20 n block_sector_size_prefix cmdarg 19 refl ended in
      elim (Bool-cases (is_zero z)) [
        | inl first ↦ rw (e, first) (handle_block-Handled s cmdarg old (z, e, first))
        | inr not_block ↦ elim (Bool-cases (is_zero z')) [
          | inl second ↦
              rw (e, not_block, e', second)
                (handle_block_size-Handled s cmdarg old (z', e', second))
          | inr neither ↦
              ignored (other (z, e, not_block) (z', e', neither))
                (rw (handle_cmdarg, e, not_block, e', neither) refl)
        ]
      ]
