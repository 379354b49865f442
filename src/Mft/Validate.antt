-- ===== src/Mft/Validate.antt =====
-- tenders/common/mft.c: `mft_validate` on untrusted data.
use solo.Base.{
  ℕ, zero, suc, ◌+◌, ◌-◌, ◌*◌, ◌/◌, ◌≤◌, ◌<◌, ◌≡◌, ◌↔◌, inl, inr, Bool, true, false, ◌==◌, refl,
  sym, ap, ◌∙◌, subst, not, ◌&&◌, &&_iff, ◌!=◌, if◌then◌else◌, some, some_inj, length, get_elem?,
  get_elem?-total, Run, done, leb, arith, Bool-cases,
}
use native.Mathlib.Decide.{ℕ_discrete}
use solo.Mft.{
  Mft, MftEntry, validate_entries, validate_contents, mft_validate, mft_reserved_first,
  mft_max_entries, mft_name_max, mft_name_size, sizeof_mft, sizeof_mft_entry, mft_version,
}

-- What the caller provides: a buffer of `mft_size` bytes, as a sequence of whole entries.
pub record IsBuffer (m : Mft) (mft_size : ℕ) : Type 0 where
  pub holds : length m.e ≡ (mft_size - sizeof_mft) / sizeof_mft_entry
  pub names : (i : ℕ) (x : MftEntry) → get_elem? m.e i ≡ some x → length x.name ≡ mft_name_size

abbrev pub IsSane : MftEntry → Type 0
IsSane x = (get_elem? x.name mft_name_max ≡ some 0) × (x.attached ≡ false)

abbrev pub IsFirst : MftEntry → Type 0
IsFirst x = (x.type ≡ mft_reserved_first) × (get_elem? x.name 0 ≡ some 0)

-- What the rest of the program may rely on.
pub record IsWellFormed (m : Mft) (mft_size : ℕ) : Type 0 where
  pub version : m.version ≡ mft_version
  pub some_entries : 1 ≤ m.entries
  pub few_entries : m.entries ≤ mft_max_entries
  pub size : mft_size ≡ sizeof_mft + m.entries * sizeof_mft_entry
  pub first : (x : MftEntry) → get_elem? m.e 0 ≡ some x → IsFirst x
  pub sane : (i : ℕ) (x : MftEntry) → i < m.entries → get_elem? m.e i ≡ some x → IsSane x

-- A run that ends with a decision of `P`.
abbrev pub Decides : Run Bool → Type 0 → Type 0
Decides r P = (b : Bool) × (r ≡ done b) × ((b ≡ true) ↔ P)

abbrev SaneFrom : Mft → ℕ → ℕ → Type 0
SaneFrom m i j = (k : ℕ) (x : MftEntry) → i ≤ k → k < j → get_elem? m.e k ≡ some x → IsSane x

SaneFrom-suc :
    (m : Mft) (i j : ℕ) (x : MftEntry)
    → get_elem? m.e i ≡ some x
    → i < j
    → (IsSane x × SaneFrom m (i + 1) j) ↔ SaneFrom m i j
SaneFrom-suc m i j x p h = (fore, back)
  where
    fore : IsSane x × SaneFrom m (i + 1) j → SaneFrom m i j
    fore (a, b) k y le lt q = elim (ℕ_discrete i k) [
      | yes e ↦ subst IsSane (some_inj (sym p ∙ ap (get_elem? m.e) e ∙ q)) a
      | no ne ↦ b k y (omega arith) lt q
    ]

    back : SaneFrom m i j → IsSane x × SaneFrom m (i + 1) j
    back f = (f i x (omega arith) h p, λ k y le lt q. f k y (omega arith) lt q)

-- The two tests on one entry, at its name's last byte.
entry_test : ℕ → Bool → Bool
entry_test c attached = if c != 0 then false else not attached

entry_test_iff :
    (x : MftEntry) (c : ℕ)
    → get_elem? x.name mft_name_max ≡ some c
    → (entry_test c x.attached ≡ true) ↔ IsSane x
unfolding entry_test
entry_test_iff x c q = (ground arith, ground arith)

&&-Decides :
    {P Q R : Type 0} (a b : Bool)
    → (a ≡ true) ↔ P
    → (b ≡ true) ↔ Q
    → (P × Q) ↔ R
    → ((a && b) ≡ true) ↔ R
&&-Decides a b p q r = (
  λ h. let (u, v) = (&&_iff a b).0 h in r.0 (p.0 u, q.0 v),
  λ h. let (u, v) = r.1 h in (&&_iff a b).1 (p.1 u, q.1 v),
)

abbrev Names : Mft → Type 0
Names m = (i : ℕ) (x : MftEntry) → get_elem? m.e i ≡ some x → length x.name ≡ mft_name_size

entry_tests :
    (c : ℕ) (attached b : Bool)
    → (if c != 0 then done false else if attached then done false else done b)
      ≡ done (entry_test c attached && b)
unfolding entry_test
entry_tests c true b = ground arith
entry_tests c false b = ground arith

validate_entries-Decides :
    (m : Mft)
    → Names m
    → (n i j : ℕ) → i + n ≡ j
    → j ≤ length m.e
    → Decides (validate_entries m i n) (SaneFrom m i j)
unfolding validate_entries
validate_entries-Decides m names zero i j e h =
    (true, refl, ((λ _ k x p q. absurd (omega arith)), λ _. refl))
validate_entries-Decides m names (suc n) i j e h =
    let (x, p) = get_elem?-total m.e i (omega arith) in
    let (c, q) = get_elem?-total x.name mft_name_max (omega (arith, names i x p)) in
    let (b, r, s) = validate_entries-Decides m names n (i + 1) j (omega arith) h in
    (
      entry_test c x.attached && b,
      rw (p, q, r) (entry_tests c x.attached b),
      &&-Decides _ b (entry_test_iff x c q) s (SaneFrom-suc m i j x p (omega arith)),
    )

-- The tests on the header, without their order.
header : Mft → ℕ → Bool
header m size =
    (m.version == mft_version)
    && ((size == sizeof_mft + m.entries * sizeof_mft_entry)
        && (leb m.entries mft_max_entries && leb 1 m.entries))

header-true :
    (m : Mft) (size : ℕ)
    → header m size ≡ true
    → (m.version ≡ mft_version)
      × (size ≡ sizeof_mft + m.entries * sizeof_mft_entry)
      × (m.entries ≤ mft_max_entries)
      × (1 ≤ m.entries)
unfolding header
header-true m size h = ground arith

-- The two tests on the first entry, at its name's first byte.
first_test : ℕ → ℕ → Bool
first_test t c = (t == mft_reserved_first) && (c == 0)

first_test_iff :
    (m : Mft) (x : MftEntry) (c : ℕ)
    → get_elem? m.e 0 ≡ some x
    → get_elem? x.name 0 ≡ some c
    → (first_test x.type c ≡ true) ↔ ((y : MftEntry) → get_elem? m.e 0 ≡ some y → IsFirst y)
unfolding first_test
first_test_iff m x c p q = (
  λ h y r. subst IsFirst (some_inj (sym p ∙ r)) (ground arith, ground arith),
  λ f. let (u, v) = f x p in ground arith,
)

first_tests :
    (t c : ℕ) (b : Bool)
    → (if t != mft_reserved_first then done false else if c != 0 then done false else done b)
      ≡ done (first_test t c && b)
unfolding first_test
first_tests t c b = ground arith

validate_contents-Decides :
    (m : Mft)
    → Names m
    → 1 ≤ m.entries
    → m.entries ≤ length m.e
    → Decides
        (validate_contents m)
        (((x : MftEntry) → get_elem? m.e 0 ≡ some x → IsFirst x) × SaneFrom m 0 m.entries)
unfolding validate_contents
validate_contents-Decides m names pos fits =
    let (x, p) = get_elem?-total m.e 0 (omega arith) in
    let (c, q) = get_elem?-total x.name 0 (omega (arith, names 0 x p)) in
    let (b, r, s) = validate_entries-Decides m names m.entries 0 m.entries (omega arith) fits in
    (
      first_test x.type c && b,
      shape x c b p q r,
      &&-Decides _ b (first_test_iff m x c p q) s (λ h. h, λ h. h),
    )
  where
    shape :
        (x : MftEntry) (c : ℕ) (b : Bool)
        → get_elem? m.e 0 ≡ some x
        → get_elem? x.name 0 ≡ some c
        → validate_entries m 0 m.entries ≡ done b
        → validate_contents m ≡ done (first_test x.type c && b)
    shape x c b p q r = rw (p, q, r) (first_tests x.type c b)

-- On any buffer `mft_validate` reads inside the buffer only, and its result is 0 exactly if the
-- manifest is well formed: the version, the entry count and the size fit together, the first entry
-- is the reserved one with an empty name, and each entry's name ends in NUL and is not attached.
pub mft_validate-Decides :
    (m : Mft) (mft_size : ℕ)
    → IsBuffer m mft_size
    → Decides (mft_validate m mft_size) (IsWellFormed m mft_size)
unfolding mft_validate header
mft_validate-Decides m size buf = elim (Bool-cases (header m size)) [
  | inl h ↦
      let (v, sz, few, pos) = header-true m size h in
      let (b, r, s) = validate_contents-Decides m buf.names pos (omega (arith, buf.holds)) in
      (
        b,
        ground (arith, r),
        (
          λ e. record {
            version = v;
            some_entries = pos;
            few_entries = few;
            size = sz;
            first = (s.0 e).0;
            sane = λ i x lt q. (s.0 e).1 i x (omega arith) lt q;
          },
          λ w. s.1 (w.first, λ k x _ lt q. w.sane k x lt q),
        ),
      )
  | inr h ↦ (
    false,
    ground arith,
    (λ e. cc, λ w. ground (arith, w.version, w.some_entries, w.few_entries, w.size)),
  )
]
