-- ===== src/Base/Outcomes.antt =====
-- How a run of C code ends: it returns, the process exits (`exit`, `err`, `errx`), an assertion
-- fails, the code leaves an object's bounds, or the model's fuel for a loop runs out.
use Prim.Native.Nat.{ℕ}
use mathlib.Core.Path.{◌≡◌, refl}
use mathlib.Core.Bool.{Bool, true, false}
use mathlib.Core.Option.{Option, none, some}

pub data Run {ℓ} (A : Type ℓ) : Type ℓ where
  done : A → Run A
  exits : ℕ → Run A
  aborts : Run A
  faults : Run A
  out_of_fuel : Run A

infixl 5 ◌>>=◌ ◌>>◌
abbrev pub ◌>>=◌ {ℓ κ} : {A : Type ℓ} {B : Type κ} → Run A → (A → Run B) → Run B
done a >>= f = f a
exits c >>= f = exits c
aborts >>= f = aborts
faults >>= f = faults
out_of_fuel >>= f = out_of_fuel

abbrev pub ◌>>◌ {ℓ} : {B : Type ℓ} → Run (Unit {0}) → Run B → Run B
m >> k = m >>= λ _. k

pub done_inj {ℓ} : {A : Type ℓ} {a b : A} → done a ≡ done b → a ≡ b
done_inj e = cc

-- `assert(b)`
abbrev pub c_assert : Bool → Run (Unit {0})
c_assert true = done tt
c_assert false = aborts

-- A read of an array element or of a byte: past the end it faults.
abbrev pub read_at {ℓ} : {A : Type ℓ} → Option A → Run A
read_at none = faults
read_at (some a) = done a

-- Runs that agree on what is returned agree.
pub >>=-cong {ℓ κ} :
    {A : Type ℓ} {B : Type κ} (m : Run A) {f g : A → Run B}
    → ((a : A) → m ≡ done a → f a ≡ g a)
    → (m >>= f) ≡ (m >>= g)
>>=-cong (done a) h = h a refl
>>=-cong (exits c) h = refl
>>=-cong aborts h = refl
>>=-cong faults h = refl
>>=-cong out_of_fuel h = refl

pub >>=-assoc {ℓ κ μ} :
    {A : Type ℓ} {B : Type κ} {C : Type μ} (m : Run A) (f : A → Run B) (g : B → Run C)
    → (m >>= f >>= g) ≡ (m >>= λ a. f a >>= g)
>>=-assoc (done a) f g = refl
>>=-assoc (exits c) f g = refl
>>=-assoc aborts f g = refl
>>=-assoc faults f g = refl
>>=-assoc out_of_fuel f g = refl

-- Inversion of a successful bind.
pub >>=-eq-done {ℓ κ} :
    {A : Type ℓ} {B : Type κ} (m : Run A) (f : A → Run B) {b : B}
    → (m >>= f) ≡ done b
    → (a : A) × (m ≡ done a) × (f a ≡ done b)
>>=-eq-done (done a) f h = (a, refl, h)
>>=-eq-done (exits c) f h = cc
>>=-eq-done aborts f h = cc
>>=-eq-done faults f h = cc
>>=-eq-done out_of_fuel f h = cc

-- A run that returns with `P`, or ends the process with status 1.
pub data ReturnsOrExits {ℓ κ} {A : Type ℓ} (P : A → Type κ) : Run A → Type (ℓ ⊔ κ) where
  stops : {r : Run A} → r ≡ exits 1 → ReturnsOrExits P r
  returns : {r : Run A} (a : A) → r ≡ done a → P a → ReturnsOrExits P r
