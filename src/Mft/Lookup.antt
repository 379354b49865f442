-- ===== src/Mft/Lookup.antt =====
-- tenders/common/mft.c: the lookups on a validated manifest: by name (`mft_get_by_name`) and by handle
-- (`mft_get_by_index`).
use native.Mathlib.Decide.{ℕ_discrete}
use solo.Base.{
  ℕ, zero, suc, ◌+◌, ◌%◌, ◌^◌, ◌≤◌, ◌<◌, ◌≡◌, ◌↔◌, inl, inr, ◌==◌, List, Option, some, none, length,
  get_elem?, get_elem?-total, Run, done, arith, Bool-cases, refl, sym, ap, ◌∙◌, subst, some_inj,
  is_zero, is_zero_iff, ==_iff, leb, if◌then◌else◌,
}
use solo.CString.Compare.{c_str, IsTerminated, IsTerminated-nul, strncmp_lem}
use solo.Mft.{
  Mft, MftEntry, mft_name_max, mft_max_entries, get_by_name_from, mft_get_by_name, mft_get_by_index,
}
use solo.Mft.Validate.{IsBuffer, IsWellFormed}

-- What the lookups need of a manifest; attaching devices does not disturb it.
pub record IsUsable (m : Mft) : Type 0 where
  pub fits : m.entries ≤ length m.e
  pub few : m.entries ≤ mft_max_entries
  pub named :
      (k : ℕ) (x : MftEntry)
      → k < m.entries
      → get_elem? m.e k ≡ some x
      → IsTerminated mft_name_max x.name

pub IsWellFormed→IsUsable :
    (m : Mft) (mft_size : ℕ) → IsBuffer m mft_size → IsWellFormed m mft_size → IsUsable m
IsWellFormed→IsUsable m size b w = record {
  fits = omega (arith, b.holds, w.size);
  few = w.few_entries;
  named = λ k x lt p. IsTerminated-nul mft_name_max x.name (w.sane k x lt p).0;
}

abbrev pub Matches : List ℕ → ℕ → MftEntry → Type 0
Matches name type x = (x.type ≡ type) × (c_str x.name ≡ c_str name)

-- No entry from the index `i` up to `j` matches.
abbrev pub NoMatch : Mft → List ℕ → ℕ → ℕ → ℕ → Type 0
NoMatch m name type i j =
    (k : ℕ) (x : MftEntry) → i ≤ k → k < j → get_elem? m.e k ≡ some x → ¬ Matches name type x

-- The answer is the first match from `i` up to `j`, or that there is none.
abbrev pub Finds : Mft → List ℕ → ℕ → ℕ → ℕ → Option (ℕ × MftEntry) → Type 0
Finds m name type i j none = NoMatch m name type i j
Finds m name type i j (some (k, x)) =
    (i ≤ k) × (k < j) × (get_elem? m.e k ≡ some x) × Matches name type x × NoMatch m name type i k

NoMatch-suc :
    (m : Mft) (name : List ℕ) (type i j : ℕ) (x : MftEntry)
    → get_elem? m.e i ≡ some x
    → ¬ Matches name type x
    → NoMatch m name type (i + 1) j
    → NoMatch m name type i j
NoMatch-suc m name type i j x p ne rest k y le lt q = elim (ℕ_discrete i k) [
  | yes e ↦
      λ w. ne (subst (Matches name type) (sym (some_inj (sym p ∙ ap (get_elem? m.e) e ∙ q))) w)
  | no other ↦ rest k y (omega arith) lt q
]

Finds-suc :
    (m : Mft) (name : List ℕ) (type i j : ℕ) (x : MftEntry) (o : Option (ℕ × MftEntry))
    → get_elem? m.e i ≡ some x
    → ¬ Matches name type x
    → Finds m name type (i + 1) j o
    → Finds m name type i j o
Finds-suc m name type i j x none p ne f = NoMatch-suc m name type i j x p ne f
Finds-suc m name type i j x (some (k, y)) p ne (a, b, c, d, f) =
    (omega arith, b, c, d, NoMatch-suc m name type i k x p ne f)

Answers : Mft → List ℕ → ℕ → ℕ → ℕ → Run (Option (ℕ × MftEntry)) → Type 0
Answers m name type i j r = (o : Option (ℕ × MftEntry)) × (r ≡ done o) × Finds m name type i j o

get_by_name_from-Answers :
    (m : Mft) (name : List ℕ) (type : ℕ)
    → IsUsable m
    → IsTerminated mft_name_max name
    → (n i : ℕ) → i + n ≡ m.entries
    → Answers m name type i m.entries (get_by_name_from m name type i n)
unfolding get_by_name_from Answers
get_by_name_from-Answers m name type u t zero i e = (none, refl, λ k x p q. absurd (omega arith))
get_by_name_from-Answers m name type u t (suc n) i e =
    let (x, p) = get_elem?-total m.e i (omega (arith, u.fits)) in
    let rest = get_by_name_from-Answers m name type u t n (i + 1) (omega arith) in
    let (o, r, f) = rest in
    elim (Bool-cases (x.type == type)) [
      | inr other ↦ (
        o,
        rw (p, other, r),
        Finds-suc m name type i m.entries x o p (λ w. cc ((==_iff x.type type).1 w.0)) f,
      )
      | inl same ↦
          let (z, c, q) = strncmp_lem mft_name_max x.name name (u.named i x (omega arith) p) t in
          elim (Bool-cases (is_zero z)) [
            | inl found ↦ (
              some (i, x),
              rw (p, same, c, found),
              (
                omega arith,
                omega arith,
                p,
                ((==_iff x.type type).0 same, q.0 ((is_zero_iff z).0 found)),
                λ k y le lt. absurd (omega arith),
              ),
            )
            | inr other ↦ (
              o,
              rw (p, same, c, other, r),
              Finds-suc m name type i m.entries x o p (λ w. cc ((is_zero_iff z).1 (q.1 w.1))) f,
            )
          ]
    ]

-- On a usable manifest, for a terminated name, `mft_get_by_name` reads nothing out of bounds and
-- returns the first entry with that type and that name, with its index, or NULL if there is none.
pub mft_get_by_name-Finds :
    (m : Mft) (name : List ℕ) (type : ℕ)
    → IsUsable m
    → IsTerminated mft_name_max name
    → (o : Option (ℕ × MftEntry)) × (mft_get_by_name m name type ≡ done o)
      × Finds m name type 0 m.entries o
unfolding mft_get_by_name Answers
mft_get_by_name-Finds m name type u t =
    get_by_name_from-Answers m name type u t m.entries 0 (omega arith)

-- What a lookup by index answers: the entry there, if the index and the type fit.
abbrev pub Holds : Mft → ℕ → ℕ → MftEntry → Type 0
Holds m index type x = (index < m.entries) × (get_elem? m.e index ≡ some x) × (x.type ≡ type)

-- `mft_get_by_index` reads nothing out of bounds. It takes the handle's low 32 bits for the index,
-- and returns exactly the entry there, if there is one and it has the type, and NULL otherwise.
pub mft_get_by_index-Holds :
    (m : Mft) (handle type : ℕ)
    → IsUsable m
    → (o : Option MftEntry) × (mft_get_by_index m handle type ≡ done o)
      × ((x : MftEntry) → (o ≡ some x) ↔ Holds m (handle % 2 ^ 32) type x)
unfolding mft_get_by_index
mft_get_by_index-Holds m handle type u = elim (Bool-cases (leb m.entries h)) [
  | inl out ↦ (none, rw out, λ x. (λ e. cc, λ w. absurd (ground (arith, w.0))))
  | inr inside ↦
      let (x, p) = get_elem?-total m.e h (ground (arith, u.fits)) in
      (
        (if x.type == type then some x else none),
        rw (inside, p),
        λ y. (
          λ e. ground (arith, p),
          λ w. let same : x ≡ y = some_inj (sym p ∙ w.1) in ground (arith, same, w.2),
        ),
      )
]
  where
    h : ℕ
    h = handle % 2 ^ 32
