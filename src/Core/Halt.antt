-- ===== src/Core/Halt.antt =====
-- tenders/hvt/hvt_core.c: what the halt hypercall runs, for the hooks that modules have registered.
use native.Mathlib.Nat.{add-zero, zero-add}
use solo.Base.{
  ℕ, zero, suc, ◌+◌, ◌≤◌, ◌<◌, ◌≡◌, ◌⊎◌, inl, inr, refl, sym, ap, ◌∙◌, subst, Bool-cases, true,
  false, ◌==◌, ◌!=◌, if◌then◌else◌, List, [], ◌∷◌, ◌++◌, length, get_elem?, set, get_elem?-set_self,
  get_elem?-set_ne, length-set, length-append, get_elem?-lt, >>=-cong, Option, none, some, some_inj,
  Run, done, ◌>>=◌, arith,
}
use solo.Hvt.{checked_gpa_p, load32, load64}
use solo.Core.{
  Core, HaltFn, World, no_core, register_halt_hook, run_hooks, hypercall_halt, hvt_halt_hooks_max,
  hvt_halt_cookie_max,
}

module _ {F V W : Type 0} where
  -- The registration of hooks one after another, until one is refused.
  unfoldable pub register_all : List (HaltFn W) → Core F V W → Option (Core F V W)
  register_all [] c = some c
  register_all (fn ∷ fns) c = elim (register_halt_hook fn c) [
    | none ↦ none
    | some c' ↦ register_all fns c'
  ]

-- The hooks in order, each with the exit status that is in guest memory when it is called.
unfoldable pub in_order : {W : Type 0} → List (HaltFn W) → ℕ → Option ℕ → World W → Run (World W)
in_order [] t cookie w = done w
in_order (fn ∷ fns) t cookie w =
    fn w (load32 w.hvt.mem (t + 8)) cookie >>= λ w'. in_order fns t cookie w'

-- The cookie of the argument at `t`, checked.
abbrev pub cookie_at : {W : Type 0} → World W → ℕ → Run (Option ℕ)
cookie_at w t =
    if load64 w.hvt.mem t != 0
    then (checked_gpa_p w.hvt (load64 w.hvt.mem t) hvt_halt_cookie_max >>= λ p. done (some p))
    else done none

-- What the halt hypercall is to do with the hooks that are registered.
abbrev pub halts : {W : Type 0} → List (HaltFn W) → World W → ℕ → Run (World W × ℕ)
halts fns w gpa = checked_gpa_p w.hvt gpa 16 >>= λ t. cookie_at w t >>= λ cookie.
    in_order fns t cookie w >>= λ w'. done (w', load32 w'.hvt.mem (t + 8))

module _ {W : Type 0} where
  run_hooks-in_order :
      (fns : List (HaltFn W)) (hooks : List (Option (HaltFn W))) (idx t : ℕ) (cookie : Option ℕ)
      (w : World W)
      → ((i : ℕ) (fn : HaltFn W)
          → get_elem? fns i ≡ some fn
          → get_elem? hooks (idx + i) ≡ some (some fn))
      → run_hooks hooks idx (length fns) t cookie w ≡ in_order fns t cookie w
  unfolding run_hooks in_order
  run_hooks-in_order [] hooks idx t cookie w agree = refl
  run_hooks-in_order (fn ∷ fns) hooks idx t cookie w agree = rw (here) (
      >>=-cong (fn w (load32 w.hvt.mem (t + 8)) cookie)
        (λ w' _. run_hooks-in_order fns hooks (idx + 1) t cookie w' later))
    where
      here : get_elem? hooks idx ≡ some (some fn)
      here = subst (λ (k : ℕ). get_elem? hooks k ≡ some (some fn)) (add-zero idx) (agree 0 fn refl)

      later :
          (i : ℕ) (g : HaltFn W)
          → get_elem? fns i ≡ some g
          → get_elem? hooks (idx + 1 + i) ≡ some (some g)
      later i g h =
          subst (λ (k : ℕ). get_elem? hooks k ≡ some (some g)) (omega arith) (agree (suc i) g h)

-- The table holds the hooks, and its count is theirs.
record Holds {F V W : Type 0} (fns : List (HaltFn W)) (c : Core F V W) : Type 0 where
  count : c.nr_halt_hooks ≡ length fns
  few : length fns ≤ 8
  room : length c.halt_hooks ≡ 8
  agree :
      (i : ℕ) (fn : HaltFn W)
      → get_elem? fns i ≡ some fn
      → get_elem? c.halt_hooks i ≡ some (some fn)

append-one :
    {A : Type 0} (xs : List A) (x : A) (ys : List A) → (xs ++ (x ∷ [])) ++ ys ≡ xs ++ (x ∷ ys)
append-one {A = A} [] x ys = refl
append-one {A = A} (z ∷ xs) x ys = ap (λ (t : List A). z ∷ t) (append-one xs x ys)

append-none : {A : Type 0} (xs : List A) → xs ++ [] ≡ xs
append-none [] = refl
append-none {A = A} (x ∷ xs) = ap (λ (t : List A). x ∷ t) (append-none xs)

last_or_before :
    {A : Type 0} (xs : List A) (x y : A) (i : ℕ)
    → get_elem? (xs ++ (x ∷ [])) i ≡ some y
    → (get_elem? xs i ≡ some y) ⊎ ((i ≡ length xs) × (x ≡ y))
last_or_before [] x y zero h = inr (refl, some_inj h)
last_or_before [] x y (suc i) h = absurd (ground (arith, h))
last_or_before (z ∷ xs) x y zero h = inl h
last_or_before (z ∷ xs) x y (suc i) h = elim (last_or_before xs x y i h) [
  | inl before ↦ inl before
  | inr (same, is) ↦ inr (ap suc same, is)
]

module _ {F V W : Type 0} where
  register-Holds :
      (fns : List (HaltFn W)) (fn : HaltFn W) (c : Core F V W)
      → Holds fns c
      → length fns < 8
      → (c' : Core F V W) × (register_halt_hook fn c ≡ some c') × Holds (fns ++ (fn ∷ [])) c'
  unfolding register_halt_hook
  register-Holds fns fn c holds lt = (
    record c {
      halt_hooks = set c.halt_hooks c.nr_halt_hooks (some fn);
      nr_halt_hooks = c.nr_halt_hooks + 1;
    },
    rw not_full refl,
    record {
      count = omega (arith, holds.count, length-append fns (fn ∷ []));
      few = omega (arith, lt, length-append fns (fn ∷ []));
      room = length-set c.halt_hooks c.nr_halt_hooks (some fn) ∙ holds.room;
      agree = agree;
    },
  )
    where
      not_full : (c.nr_halt_hooks == hvt_halt_hooks_max) ≡ false
      not_full = ground (arith, holds.count, lt)

      agree :
          (i : ℕ) (g : HaltFn W)
          → get_elem? (fns ++ (fn ∷ [])) i ≡ some g
          → get_elem? (set c.halt_hooks c.nr_halt_hooks (some fn)) i ≡ some (some g)
      agree i g h = elim (last_or_before fns fn g i h) [
        | inl before ↦
            get_elem?-set_ne c.halt_hooks c.nr_halt_hooks i (some fn)
              (λ e. absurd (omega (arith, e, holds.count, get_elem?-lt fns i g before)))
            ∙ holds.agree i g before
        | inr (same, is) ↦
            ap (λ (k : ℕ). get_elem? (set c.halt_hooks c.nr_halt_hooks (some fn)) k)
              (same ∙ sym holds.count)
            ∙ get_elem?-set_self c.halt_hooks c.nr_halt_hooks (some fn)
                (omega (arith, holds.count, holds.room, lt))
            ∙ ap (λ (f : HaltFn W). some (some f)) is
      ]

  register-refused :
      (fns : List (HaltFn W)) (fn : HaltFn W) (c : Core F V W)
      → Holds fns c
      → (length fns == 8) ≡ true
      → register_halt_hook fn c ≡ none
  unfolding register_halt_hook
  register-refused fns fn c holds full = rw at_end refl
    where
      at_end : (c.nr_halt_hooks == hvt_halt_hooks_max) ≡ true
      at_end = ground (arith, holds.count, full)

  register_all-Holds :
      (gs fns : List (HaltFn W)) (c : Core F V W)
      → Holds fns c
      → ((c' : Core F V W) × (register_all gs c ≡ some c') × Holds (fns ++ gs) c')
        ⊎ ((8 < length fns + length gs) × (register_all gs c ≡ none))
  unfolding register_all
  register_all-Holds [] fns c holds =
      inl (c, refl, subst (λ (t : List (HaltFn W)). Holds t c) (sym (append-none fns)) holds)
  register_all-Holds (fn ∷ gs) fns c holds = elim (Bool-cases (length fns == 8)) [
    | inl full ↦ inr (ground (arith, full), rw (register_all, refused full) refl)
    | inr free ↦
        let (c', went, holds') = register-Holds fns fn c holds (ground (arith, free, holds.few)) in
        elim (register_all-Holds gs (fns ++ (fn ∷ [])) c' holds') [
          | inl (c'', went', holds'') ↦ inl (
            c'',
            rw (register_all, went) went',
            subst (λ (t : List (HaltFn W)). Holds t c'') (append-one fns fn gs) holds'',
          )
          | inr (many, went') ↦
              inr (omega (arith, many, length-append fns (fn ∷ [])), rw (register_all, went) went')
        ]
  ]
    where
      refused : (length fns == 8) ≡ true → register_halt_hook fn c ≡ none
      refused full = register-refused fns fn c holds full

  -- Modules register halt hooks one after another. Up to eight are accepted, and then the halt hypercall runs
  -- them, in the order of their registration and each with the exit status that is in guest memory by
  -- then and the checked cookie, as long as they return, and returns the exit status; a bad address ends the tender as it
  -- would without hooks. Of more than eight, one is refused.
  pub register_all-halts :
      (fns : List (HaltFn W)) (w : World W) (gpa : ℕ)
      → ((length fns ≤ 8)
          × (c : Core F V W) × (register_all fns no_core ≡ some c)
          × (hypercall_halt c w gpa ≡ halts fns w gpa))
        ⊎ ((8 < length fns) × (register_all {F = F} {V = V} fns no_core ≡ none))
  unfolding hypercall_halt
  register_all-halts fns w gpa = elim (register_all-Holds fns [] no_core none_yet) [
    | inl (c, went, holds) ↦ inl (
      holds.few,
      c,
      went,
      >>=-cong (checked_gpa_p w.hvt gpa 16)
          (λ t _. >>=-cong (cookie_at w t) (λ cookie _. runs c holds t cookie)),
    )
    | inr (many, went) ↦ inr (omega (arith, many), went)
  ]
    where
      none_yet : Holds [] (no_core {F = F} {V = V} {W = W})
      none_yet = record {
        count = refl;
        few = omega arith;
        room = refl;
        agree = λ i fn h. absurd (ground (arith, h));
      }

      answer : ℕ → World W → Run (World W × ℕ)
      answer t v = done (v, load32 v.hvt.mem (t + 8))

      from_zero :
          (c : Core F V W) (i : ℕ) (fn : HaltFn W)
          → get_elem? c.halt_hooks i ≡ some (some fn)
          → get_elem? c.halt_hooks (0 + i) ≡ some (some fn)
      from_zero c i fn h =
          subst (λ (k : ℕ). get_elem? c.halt_hooks k ≡ some (some fn)) (sym (zero-add i)) h

      runs :
          (c : Core F V W)
          → Holds fns c
          → (t : ℕ) (cookie : Option ℕ)
          → (run_hooks c.halt_hooks 0 c.nr_halt_hooks t cookie w >>= answer t)
            ≡ (in_order fns t cookie w >>= answer t)
      runs c holds t cookie =
          rw
            (
              holds.count,
              run_hooks-in_order fns c.halt_hooks 0 t cookie w
                  (λ i fn h. from_zero c i fn (holds.agree i fn h)),
            )
            refl
