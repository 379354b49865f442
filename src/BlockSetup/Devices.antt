-- ===== src/BlockSetup/Devices.antt =====
-- tenders/hvt/hvt_module_blk.c: what `setup` makes of the attached devices.
use native.Mathlib.Decide.{ℕ_discrete}
use solo.Base.{
  ℕ, zero, suc, ◌+◌, ◌-◌, ◌^◌, ◌%◌, ◌≤◌, ◌<◌, ◌≡◌, ◌≢◌, ◌⊎◌, inl, inr, refl, sym, ap, ◌∙◌, subst,
  true, false, not, ◌||◌, ◌==◌, ◌!=◌, if◌then◌else◌, Run, done, exits, aborts, arith, bit_and,
  Bool-cases, ltbℤ, signed64, pos, some, some_inj, length, get_elem?, get_elem?-total,
  get_elem?-set_self, get_elem?-set_ne, length-set,
}
use solo.Base.Bits.{bit_and_mask, pow_of_mask, mask_of_pow}
use solo.Mft.{Mft, MftEntry, mft_dev_block_basic}
use solo.BlockSetup.{setup_entry, setup_entries, put}

-- An entry that `setup` treats, and the block size that it takes for it.
abbrev pub IsAttached : MftEntry → Type 0
IsAttached x = (x.type ≡ mft_dev_block_basic) × (x.attached ≡ true)

abbrev pub sector : MftEntry → ℕ
sector x = if x.block_basic.block_size == 0 then 512 else x.block_basic.block_size

abbrev pub with_sector : MftEntry → MftEntry
with_sector x = record x { block_basic = record (x.block_basic) { block_size = sector x } }

-- What the handlers and the guest may rely on.
pub record IsDevice (x : MftEntry) : Type 0 where
  pub power : (k : ℕ) × (x.block_basic.block_size ≡ 2 ^ k)
  pub whole : x.block_basic.capacity % x.block_basic.block_size ≡ 0
  pub room : x.block_basic.block_size ≤ x.block_basic.capacity
  pub max : x.block_basic.capacity < 2 ^ 63

-- The entry before and after.
pub data SetUp (x : MftEntry) : MftEntry → Type 0 where
  other : {y : MftEntry} → (IsAttached x → ⊥) → y ≡ x → SetUp x y
  device : {y : MftEntry} → IsAttached x → y ≡ with_sector x → IsDevice y → SetUp x y

-- The outcomes: all entries have been set up, or the process ends with status 1, or an assertion
-- fails.
pub data Sets {A : Type 0} (P : A → Type 0) (Bad : Type 0) : Run A → Type 0 where
  sets : {r : Run A} (a : A) → r ≡ done a → P a → Sets P Bad r
  stops : {r : Run A} → r ≡ exits 1 → Sets P Bad r
  fails : {r : Run A} → r ≡ aborts → Bad → Sets P Bad r

abbrev pub IsOdd : MftEntry → Type 0
IsOdd x = IsAttached x × ((k : ℕ) → sector x ≢ 2 ^ k)

setup_entry-Sets :
    (x : MftEntry) → x.block_basic.capacity < 2 ^ 64 → Sets (SetUp x) (IsOdd x) (setup_entry x)
unfolding setup_entry
setup_entry-Sets x fits = elim (Bool-cases ((x.type != mft_dev_block_basic) || not x.attached)) [
  | inl skip ↦ sets x (rw skip refl) (other (λ a. absurd (ground (arith, skip, a.0, a.1))) refl)
  | inr taken ↦ elim (Bool-cases (bit_and (sector x) (sector x - 1) == 0)) [
    | inr odd ↦ fails (rw (taken, odd) refl) (attached taken, λ k e. not_odd odd k e)
    | inl even ↦ elim (Bool-cases (bit_and x.block_basic.capacity (sector x - 1) != 0)) [
      | inl ragged ↦ stops (rw (taken, even, ragged) refl)
      | inr whole ↦ elim (Bool-cases (ltbℤ (signed64 x.block_basic.capacity) (pos (sector x)))) [
        | inl small ↦ stops (rw (taken, even, whole, small) refl)
        | inr large ↦
            let (k, e) = power even in
            sets (with_sector x) (rw (taken, even, whole, large) refl) (
              device (attached taken) refl (record {
                power = (k, e);
                whole = multiple k e whole;
                room = enough large;
                max = ground (arith, large, fits);
              }))
      ]
    ]
  ]
]
  where
    attached : ((x.type != mft_dev_block_basic) || not x.attached) ≡ false → IsAttached x
    attached taken = (ground (arith, taken), ground (arith, taken))

    power : (bit_and (sector x) (sector x - 1) == 0) ≡ true → (k : ℕ) × (sector x ≡ 2 ^ k)
    power even = pow_of_mask (sector x) (ground arith) (ground (arith, even))

    not_odd : (bit_and (sector x) (sector x - 1) == 0) ≡ false → (k : ℕ) → sector x ≢ 2 ^ k
    not_odd odd k e = ground (arith, odd, ap (λ (t : ℕ). bit_and t (t - 1)) e, mask_of_pow k)

    multiple :
        (k : ℕ)
        → sector x ≡ 2 ^ k
        → (bit_and x.block_basic.capacity (sector x - 1) != 0) ≡ false
        → x.block_basic.capacity % sector x ≡ 0
    multiple k e whole =
        ap (λ (t : ℕ). x.block_basic.capacity % t) e
        ∙ sym (bit_and_mask k x.block_basic.capacity)
        ∙ ap (λ (t : ℕ). bit_and x.block_basic.capacity (t - 1)) (sym e)
        ∙ ground (arith, whole)

    enough :
        ltbℤ (signed64 x.block_basic.capacity) (pos (sector x)) ≡ false
        → sector x ≤ x.block_basic.capacity
    enough large = ground (arith, large, fits)

-- What the rounds from `i` on have done: an entry among the `n` is set up, and all else is as it was.
pub record After (m : Mft) (i n : ℕ) (m' : Mft) : Type 0 where
  pub version : m'.version ≡ m.version
  pub entries : m'.entries ≡ m.entries
  pub kept : (k : ℕ) → (k < i) ⊎ (i + n ≤ k) → get_elem? m'.e k ≡ get_elem? m.e k
  pub each :
      (k : ℕ) (x : MftEntry)
      → i ≤ k
      → k < i + n
      → get_elem? m.e k ≡ some x
      → (y : MftEntry) × (get_elem? m'.e k ≡ some y) × SetUp x y

abbrev pub HasOdd : Mft → ℕ → Type 0
HasOdd m i = (k : ℕ) × (x : MftEntry) × (i ≤ k) × (get_elem? m.e k ≡ some x) × IsOdd x

abbrev pub Widths : Mft → ℕ → Type 0
Widths m i =
    (k : ℕ) (x : MftEntry) → i ≤ k → get_elem? m.e k ≡ some x → x.block_basic.capacity < 2 ^ 64

one_more :
    (m : Mft) (i n : ℕ) (x y : MftEntry) (m' : Mft)
    → i < length m.e
    → get_elem? m.e i ≡ some x
    → SetUp x y
    → After (put m i y) (i + 1) n m'
    → After m i (suc n) m'
one_more m i n x y m' lt at up rest = record {
  version = rest.version;
  entries = rest.entries;
  kept = λ k out. rest.kept k (ground (arith, out)) ∙ get_elem?-set_ne m.e i k y (apart k out);
  each = λ k z le below h. elim (ℕ_discrete k i) [
    | yes same ↦ (
      y,
      ap (get_elem? m'.e) same ∙ rest.kept i (inl (omega arith)) ∙ get_elem?-set_self m.e i y lt,
      subst (λ (w : MftEntry). SetUp w y) (some_inj (sym at ∙ ap (get_elem? m.e) (sym same) ∙ h))
          up,
    )
    | no ne ↦
        rest.each k z (omega arith) (omega arith) (get_elem?-set_ne m.e i k y (λ e. ne (sym e)) ∙ h)
  ];
}
  where
    apart : (k : ℕ) → (k < i) ⊎ (i + suc n ≤ k) → i ≢ k
    apart k (inl lt') e = omega arith
    apart k (inr ge) e = omega arith

setup_entries-Sets :
    (n i : ℕ) (m : Mft)
    → i + n ≤ length m.e
    → Widths m i
    → Sets (After m i n) (HasOdd m i) (setup_entries n i m)
unfolding setup_entries
setup_entries-Sets zero i m le fits = sets m refl (record {
  version = refl;
  entries = refl;
  kept = λ k out. refl;
  each = λ k x ge lt. absurd (omega arith);
})
setup_entries-Sets (suc n) i m le fits =
    let (x, at) = get_elem?-total m.e i (omega arith) in
    elim (setup_entry-Sets x (fits i x (omega arith) at)) [
      | stops bad ↦ stops (rw (at, bad) refl)
      | fails bad odd ↦ fails (rw (at, bad) refl) (i, x, omega arith, at, odd)
      | sets y good up ↦
          elim (setup_entries-Sets n (i + 1) (put m i y) (omega (arith, length-set m.e i y))
            (λ k z ge h. fits k z (omega arith) (old y k z ge h))) [
              | stops bad ↦ stops (rw (at, good, bad) refl)
              | fails bad (k, z, ge, h, odd) ↦
                  fails (rw (at, good, bad) refl) (k, z, omega arith, old y k z ge h, odd)
              | sets m' went rest ↦
                  sets m' (rw (at, good, went) refl)
                    (one_more m i n x y m' (omega arith) at up rest)
            ]
    ]
  where
    old :
        (y : MftEntry) (k : ℕ) (z : MftEntry)
        → i + 1 ≤ k
        → get_elem? (put m i y).e k ≡ some z
        → get_elem? m.e k ≡ some z
    old y k z ge h = sym (get_elem?-set_ne m.e i k y (apart k ge)) ∙ h
      where
        apart : (k : ℕ) → i + 1 ≤ k → i ≢ k
        apart k ge e = omega arith

-- On a manifest with room for its entries `setup` ends in one of three ways. It sets up each attached
-- block device: its block size is then a power of two, 512 where the manifest had zero, its capacity a
-- positive multiple of the block size that an `off_t` holds, and all other entries are as they were. Or it
-- stops with status 1. Or its assertion fails, and then the manifest has an attached block device with a
-- block size other than zero that is no power of two.
pub setup_entries-Sets_all :
    (m : Mft)
    → m.entries ≤ length m.e
    → Widths m 0
    → Sets (After m 0 m.entries) (HasOdd m 0) (setup_entries m.entries 0 m)
setup_entries-Sets_all m room fits = setup_entries-Sets m.entries 0 m (omega arith) fits
