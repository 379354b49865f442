-- ===== src/VirtioNet/Devices/Table.antt =====
-- bindings/virtio/virtio_net.c: the manifest's network entries and the table of devices belong together.
use native.Mathlib.Nat.{mod-eq_of_lt}
use native.Mathlib.Decide.{ℕ_discrete}
use solo.Base.{
  ℕ, zero, suc, ◌%◌, ◌^◌, ◌≤◌, ◌<◌, ◌≡◌, ◌⊎◌, inl, inr, refl, sym, ap, ◌∙◌, subst, Bool-cases,
  Option-cases, true, false, ltb, leb, List, [], ◌∷◌, ◌++◌, length, length-set, length-append,
  get_elem?, set, get_elem?-lt, get_elem?-set_self, get_elem?-set_ne, Option, none, some, some_inj,
  Run, done, aborts, arith,
}
use solo.Mft.{Mft, MftEntry, mft_max_entries, mft_dev_net_basic, mft_name_max}
use solo.Mft.Lookup.{IsUsable, Holds, mft_get_by_index-Holds}
use solo.CString.Compare.{IsTerminated}
use solo.VirtioNet.Devices.{VirtioNetDesc, NetTable, virtio_config_network, device_of}
use solo.VirtioNet.Devices.Sets.{AreHandles}

-- Each attached network entry stands for a device of the table, which has the entry's index as its handle.
pub record Linked (m : Mft) (t : NetTable) : Type 0 where
  pub usable : IsUsable m
  pub devices :
      (k : ℕ) (x : MftEntry)
      → Holds m k mft_dev_net_basic x
      → x.attached ≡ true
      → (nd : VirtioNetDesc) × (get_elem? t.nd_table x.hostfd ≡ some nd) × (nd.handle ≡ k)
  pub few : length t.nd_table ≤ mft_max_entries
  pub handles : AreHandles t.nd_table

-- What an attached entry is turned into.
attach : MftEntry → VirtioNetDesc → ℕ → MftEntry
attach x nd hostfd = record x {
  net_basic = record { mac = nd.net_mac; mtu = nd.mtu };
  hostfd = hostfd;
  attached = true;
}

get_elem-append :
    {A : Type 0} (xs ys : List A) (i : ℕ) (a : A)
    → get_elem? xs i ≡ some a
    → get_elem? (xs ++ ys) i ≡ some a
get_elem-append [] ys i a e = absurd (ground (arith, e))
get_elem-append (x ∷ xs) ys zero a e = e
get_elem-append (x ∷ xs) ys (suc i) a e = get_elem-append xs ys i a e

get_elem-last : {A : Type 0} (xs : List A) (a : A) → get_elem? (xs ++ (a ∷ [])) (length xs) ≡ some a
get_elem-last [] a = refl
get_elem-last (x ∷ xs) a = get_elem-last xs a

get_elem-append_cases :
    {A : Type 0} (xs : List A) (a : A) (i : ℕ) (b : A)
    → get_elem? (xs ++ (a ∷ [])) i ≡ some b
    → (get_elem? xs i ≡ some b) ⊎ (a ≡ b)
get_elem-append_cases [] a zero b e = inr (some_inj e)
get_elem-append_cases [] a (suc i) b e = absurd (ground (arith, e))
get_elem-append_cases (x ∷ xs) a zero b e = inl e
get_elem-append_cases (x ∷ xs) a (suc i) b e = get_elem-append_cases xs a i b e

module _ (m : Mft) (t : NetTable) (nd : VirtioNetDesc) (k : ℕ) (x : MftEntry) (l : Linked m t)
    (h : Holds m k mft_dev_net_basic x) (room : length t.nd_table < mft_max_entries) where
  m' : Mft
  m' = record m { e = set m.e k (attach x nd (length t.nd_table)) }

  t' : NetTable
  t' = record t { nd_table = t.nd_table ++ (record nd { handle = k } ∷ []); net_configured = true }

  -- The entries of the new manifest.
  entry_cases :
      (j : ℕ) (y : MftEntry)
      → get_elem? m'.e j ≡ some y
      → ((j ≡ k) × (y ≡ attach x nd (length t.nd_table))) ⊎ (get_elem? m.e j ≡ some y)
  unfolding m'
  entry_cases j y e = elim (ℕ_discrete k j) [
    | yes same ↦ inl (
      sym same,
      some_inj (
          sym e
          ∙ subst (λ (i : ℕ). get_elem? m'.e i ≡ some (attach x nd (length t.nd_table))) same
              (get_elem?-set_self m.e k (attach x nd (length t.nd_table))
                (get_elem?-lt m.e k x h.1))),
    )
    | no other ↦ inr (sym (get_elem?-set_ne m.e k j (attach x nd (length t.nd_table)) other) ∙ e)
  ]

  attached-Linked : Linked m' t'
  unfolding m' t' attach
  attached-Linked = record {
    usable = record {
      fits = omega (arith, length-set m.e k (attach x nd (length t.nd_table)), l.usable.fits);
      few = l.usable.few;
      named = λ j y lt e. elim (entry_cases j y e) [
        | inl (same, is) ↦
            subst (λ (z : MftEntry). IsTerminated mft_name_max z.name) (sym is)
              (l.usable.named k x h.0 h.1)
        | inr old ↦ l.usable.named j y lt old
      ];
    };
    devices = λ j y (lt, e, type) on. elim (entry_cases j y e) [
      | inl (same, is) ↦ (
        record nd { handle = k },
        ap (λ (z : MftEntry). get_elem? t'.nd_table z.hostfd) is
            ∙ get_elem-last t.nd_table (record nd { handle = k }),
        sym same,
      )
      | inr old ↦
          let (d, at, handle) = l.devices j y (lt, old, type) on in
          (d, get_elem-append t.nd_table (record nd { handle = k } ∷ []) y.hostfd d at, handle)
    ];
    few = omega (arith, length-append t.nd_table (record nd { handle = k } ∷ []), room);
    handles = λ j d e. elim (get_elem-append_cases t.nd_table (record nd { handle = k }) j d e) [
      | inl old ↦ l.handles j d old
      | inr is ↦ subst (λ (z : VirtioNetDesc). z.handle < 64) is (omega (arith, h.0, l.usable.few))
    ];
  }

-- What configuring a device does: nothing, or one more device and its entry.
pub data Configured (m : Mft) (t : NetTable) (nd : VirtioNetDesc) (k : ℕ)
    : Run (Option (Mft × NetTable)) → Type 0 where
  refused :
      {r : Run (Option (Mft × NetTable))}
      → r ≡ done none
      → (length t.nd_table ≡ mft_max_entries) ⊎ ((x : MftEntry) → ¬ Holds m k mft_dev_net_basic x)
      → Configured m t nd k r
  linked :
      {r : Run (Option (Mft × NetTable))} (m' : Mft) (t' : NetTable) (x : MftEntry)
      → r ≡ done (some (m', t'))
      → Linked m' t'
      → Holds m' k mft_dev_net_basic x
      → x.attached ≡ true
      → x.hostfd ≡ length t.nd_table
      → t'.net_configured ≡ true
      → t'.nd_table ≡ t.nd_table ++ (record nd { handle = k } ∷ [])
      → Configured m t nd k r

-- For a manifest and a table that belong together, and an index of at most 32 bits, `virtio_config_network` returns. It
-- refuses the device if the table is full, or if the manifest has no network entry at the index. Otherwise the entry is
-- attached to the device's place at the end of the table, the table counts as configured, and the manifest and the
-- table belong together again.
pub virtio_config_network-Configured :
    (m : Mft) (t : NetTable) (nd : VirtioNetDesc) (k : ℕ)
    → Linked m t
    → k < 2 ^ 32
    → Configured m t nd k (virtio_config_network m t nd k)
unfolding virtio_config_network m' t' attach
virtio_config_network-Configured m t nd k l small =
    let (o, found, iff) = mft_get_by_index-Holds m k mft_dev_net_basic l.usable in
    elim (Bool-cases (leb mft_max_entries (length t.nd_table))) [
      | inl full ↦ refused (rw full refl) (inl (ground (arith, full, l.few)))
      | inr room ↦ elim (Option-cases o) [
        | inl nothing ↦ refused (rw (room, found, nothing) refl) (
            inr (λ x h. absurd (
              none_some (
                sym nothing
                ∙ (iff x).1 (subst (λ (i : ℕ). Holds m i mft_dev_net_basic x) (sym same) h)))))
        | inr (x, is) ↦
            let h : Holds m k mft_dev_net_basic x =
              subst (λ (i : ℕ). Holds m i mft_dev_net_basic x) same ((iff x).0 is) in
            linked (m' m t nd k x l h (ground (arith, room)))
              (t' m t nd k x l h (ground (arith, room))) (attach x nd (length t.nd_table))
              (rw (room, found, is, same) refl)
              (attached-Linked m t nd k x l h (ground (arith, room)))
              (
                h.0,
                get_elem?-set_self m.e k (attach x nd (length t.nd_table))
                    (get_elem?-lt m.e k x h.1),
                h.2,
              )
              refl refl refl refl
      ]
    ]
  where
    same : k % 2 ^ 32 ≡ k
    same = mod-eq_of_lt small

    none_some : {x : MftEntry} → none ≡ some x → ⊥
    none_some e = ground (arith, e)

-- What the lookup of a handle's device answers.
pub data Looked (m : Mft) (t : NetTable) (h : ℕ) (r : Run (Option (ℕ × VirtioNetDesc)))
    : Type 0 where
  no_device :
      r ≡ done none → ((x : MftEntry) → ¬ Holds m (h % 2 ^ 32) mft_dev_net_basic x) → Looked m t h r
  detached :
      (x : MftEntry)
      → Holds m (h % 2 ^ 32) mft_dev_net_basic x
      → x.attached ≡ false
      → r ≡ aborts
      → Looked m t h r
  device :
      (i : ℕ) (nd : VirtioNetDesc)
      → r ≡ done (some (i, nd))
      → get_elem? t.nd_table i ≡ some nd
      → nd.handle ≡ h % 2 ^ 32
      → Looked m t h r

pub device_of-Looked :
    (m : Mft) (t : NetTable) (h : ℕ) → Linked m t → Looked m t h (device_of m t h)
unfolding device_of
device_of-Looked m t h l =
    let (o, found, iff) = mft_get_by_index-Holds m h mft_dev_net_basic l.usable in
    elim (Option-cases o) [
      | inl nothing ↦
          no_device (rw (found, nothing) refl)
            (λ x e. absurd (none_some (sym nothing ∙ (iff x).1 e)))
      | inr (x, is) ↦ elim (Bool-cases x.attached) [
        | inr off ↦ detached x ((iff x).0 is) off (rw (found, is, off) refl)
        | inl on ↦
            let (nd, at, handle) = l.devices (h % 2 ^ 32) x ((iff x).0 is) on in
            device x.hostfd nd (rw (found, is, on, room x nd at, at) refl) at handle
      ]
    ]
  where
    none_some : {x : MftEntry} → none ≡ some x → ⊥
    none_some e = ground (arith, e)

    room :
        (x : MftEntry) (nd : VirtioNetDesc)
        → get_elem? t.nd_table x.hostfd ≡ some nd
        → ltb x.hostfd mft_max_entries ≡ true
    room x nd at = ground (arith, get_elem?-lt t.nd_table x.hostfd nd at, l.few)
