-- ===== src/Channel/Store.antt =====
-- bindings/muen/writer.c: the writer, one store at a time. The elements that it sends are a function from their
-- numbers to their bytes.
use native.Mathlib.Nat.{add-mul, mul-le-mul_right}
use native.Mathlib.Decide.{dec_lt}
use solo.Base.{
  ℕ, ◌+◌, ◌*◌, ◌%◌, ◌^◌, ◌≤◌, ◌<◌, ◌≡◌, ◌≢◌, inl, inr, refl, ap, ◌∙◌, subst, Bool-cases, true, ◌==◌,
  if◌then◌else◌, List, [], ◌∷◌, arith,
}
use solo.Base.Slots.{slots_apart}
use solo.Channel.{Muchannel}

-- Where the writer stands: between writes, or behind the store to `wsc` with some bytes copied.
pub data Phase : Type 0 where
  idle : Phase
  writing : ℕ → Phase

pub record Writer : Type 0 where
  pub channel : Muchannel
  pub phase : Phase

-- The place of a byte of an element.
abbrev pub place : Muchannel → ℕ → ℕ → ℕ
place c i k = i % c.elements * c.size + k

-- A step of the writer, for counters that do not wrap around.
pub data WriteStep (sent : ℕ → ℕ → ℕ) (s : Writer) : Writer → Type 0 where
  begin :
      s.phase ≡ idle
      → s.channel.wc + 1 < 2 ^ 64
      → WriteStep sent s
          (record { channel = record (s.channel) { wsc = s.channel.wc + 1 }; phase = writing 0 })
  put :
      (k : ℕ)
      → s.phase ≡ writing k
      → k < s.channel.size
      → WriteStep sent s (record {
        channel = record (s.channel) {
          bytes = λ o.
              if o == place s.channel s.channel.wc k
              then sent s.channel.wc k
              else s.channel.bytes o;
        };
        phase = writing (k + 1);
      })
  finish :
      s.phase ≡ writing s.channel.size
      → WriteStep sent s
          (record { channel = record (s.channel) { wc = s.channel.wc + 1 }; phase = idle })

pub data Steps (sent : ℕ → ℕ → ℕ) : Writer → Writer → Type 0 where
  here : {s : Writer} → Steps sent s s
  step : {s t u : Writer} → WriteStep sent s t → Steps sent t u → Steps sent s u

-- Steps with the channel after each of them.
pub data Trace (sent : ℕ → ℕ → ℕ) : Writer → List Muchannel → Writer → Type 0 where
  end : {s : Writer} → Trace sent s [] s
  next :
      {s t u : Writer} {cs : List Muchannel}
      → WriteStep sent s t
      → Trace sent t cs u
      → Trace sent s (t.channel ∷ cs) u

pub Trace-Steps :
    {sent : ℕ → ℕ → ℕ} {s t : Writer} {cs : List Muchannel} → Trace sent s cs t → Steps sent s t
Trace-Steps end = here
Trace-Steps (next one more) = step one (Trace-Steps more)

-- The bytes of an element are in its place, up to `n`.
abbrev pub IsAt : (ℕ → ℕ → ℕ) → Muchannel → ℕ → ℕ → Type 0
IsAt sent c i n = (k : ℕ) → k < n → c.bytes (place c i k) ≡ sent i k

unfoldable pub InPhase : (ℕ → ℕ → ℕ) → Muchannel → Phase → Type 0
InPhase sent c idle = c.wsc ≡ c.wc
InPhase sent c (writing n) = (c.wsc ≡ c.wc + 1) × (n ≤ c.size) × IsAt sent c c.wc n

-- The last elements are intact: those that a write that may have begun does not reach.
pub record Inv (sent : ℕ → ℕ → ℕ) (s : Writer) : Type 0 where
  pub some : 0 < s.channel.elements
  pub small : s.channel.wsc < 2 ^ 64
  pub phase : InPhase sent s.channel s.phase
  pub intact :
      (i : ℕ)
      → i < s.channel.wc
      → s.channel.wsc ≤ i + s.channel.elements
      → IsAt sent s.channel i s.channel.size

pub InPhase-le : (sent : ℕ → ℕ → ℕ) (c : Muchannel) (p : Phase) → InPhase sent c p → c.wc ≤ c.wsc
unfolding InPhase
InPhase-le sent c idle h = omega (arith, h)
InPhase-le sent c (writing n) (h, le, at) = omega (arith, h)

-- Bytes of different slots have different places.
before_apart : (size a b j k : ℕ) → a < b → j < size → a * size + j < b * size + k
before_apart size a b j k lt small =
    omega (
      arith,
      small,
      add-mul a 1 size,
      mul-le-mul_right {m = a + 1} {n = b} size (omega (arith, lt)),
    )

places_apart : (size a b j k : ℕ) → a ≢ b → j < size → k < size → a * size + j ≢ b * size + k
places_apart size a b j k ne lj lk = elim (dec_lt a b) [
  | yes less ↦ omega (arith, before_apart size a b j k less lj)
  | no more ↦ omega (arith, before_apart size b a k j (omega (arith, ne, more)) lk)
]

phase_at :
    (sent : ℕ → ℕ → ℕ) (c : Muchannel) (p q : Phase) → p ≡ q → InPhase sent c p → InPhase sent c q
phase_at sent c p q e h = subst (λ (r : Phase). InPhase sent c r) e h

-- A store to a place of its own leaves the other places alone.
stored_apart : (m : ℕ → ℕ) (p q v : ℕ) → q ≢ p → (if q == p then v else m q) ≡ m q
stored_apart m p q v ne = ground (arith, ne)

WriteStep-Inv : {sent : ℕ → ℕ → ℕ} {s t : Writer} → WriteStep sent s t → Inv sent s → Inv sent t
unfolding InPhase
WriteStep-Inv {sent = sent} {s = s} (begin e room) inv = record {
  some = inv.some;
  small = omega (arith, room);
  phase = (refl, omega arith, λ k lt. absurd (omega (arith, lt)));
  intact = λ i lt near.
      inv.intact i lt (omega (arith, near, phase_at sent s.channel s.phase idle e inv.phase));
}
WriteStep-Inv {sent = sent} {s = s} (put n e lt) inv = record {
  some = inv.some;
  small = inv.small;
  phase = (started.0, omega (arith, lt), stored);
  intact = λ i before near k small.
      stored_apart s.channel.bytes (place s.channel s.channel.wc n) (place s.channel i k)
        (sent s.channel.wc n)
        (places_apart s.channel.size (i % s.channel.elements) (s.channel.wc % s.channel.elements) k
          n (slots_apart s.channel.elements i s.channel.wc before (omega (arith, near, started.0)))
          small lt)
      ∙ inv.intact i before near k small;
}
  where
    started : InPhase sent s.channel (writing n)
    started = phase_at sent s.channel s.phase (writing n) e inv.phase

    stored :
        (k : ℕ)
        → k < n + 1
        → (if place s.channel s.channel.wc k == place s.channel s.channel.wc n
            then sent s.channel.wc n
            else s.channel.bytes (place s.channel s.channel.wc k))
          ≡ sent s.channel.wc k
    stored k le = elim (Bool-cases (k == n)) [
      | inl same ↦ ground (arith, same, ap (λ (j : ℕ). sent s.channel.wc j) (equal k same))
      | inr other ↦
          stored_apart s.channel.bytes (place s.channel s.channel.wc n)
            (place s.channel s.channel.wc k) (sent s.channel.wc n) (ground (arith, other))
          ∙ started.2 k (ground (arith, le, other))
    ]
      where
        equal : (k : ℕ) → (k == n) ≡ true → k ≡ n
        equal k same = ground (arith, same)
WriteStep-Inv {sent = sent} {s = s} (finish e) inv = record {
  some = inv.some;
  small = inv.small;
  phase = started.0;
  intact = λ i lt near. kept i (dec_lt i s.channel.wc) lt near;
}
  where
    started : InPhase sent s.channel (writing s.channel.size)
    started = phase_at sent s.channel s.phase (writing s.channel.size) e inv.phase

    kept :
        (i : ℕ)
        → Dec (i < s.channel.wc)
        → i < s.channel.wc + 1
        → s.channel.wsc ≤ i + s.channel.elements
        → IsAt sent s.channel i s.channel.size
    kept i (yes before) lt near = inv.intact i before near
    kept i (no not_before) lt near =
        subst (λ (j : ℕ). IsAt sent s.channel j s.channel.size) (omega (arith, lt, not_before))
          started.2

pub Steps-Inv : {sent : ℕ → ℕ → ℕ} {s t : Writer} → Steps sent s t → Inv sent s → Inv sent t
Steps-Inv here inv = inv
Steps-Inv (step one more) inv = Steps-Inv more (WriteStep-Inv one inv)

-- What the steps leave as it is, and the counters that they only raise.
pub record Later (c d : Muchannel) : Type 0 where
  pub epoch : d.epoch ≡ c.epoch
  pub size : d.size ≡ c.size
  pub elements : d.elements ≡ c.elements
  pub wc : c.wc ≤ d.wc
  pub wsc : c.wsc ≤ d.wsc

idle_above : (sent : ℕ → ℕ → ℕ) (c : Muchannel) → InPhase sent c idle → c.wsc ≤ c.wc + 1
unfolding InPhase
idle_above sent c h = omega (arith, h)

WriteStep-Later :
    {sent : ℕ → ℕ → ℕ} {s t : Writer} → WriteStep sent s t → Inv sent s → Later s.channel t.channel
WriteStep-Later {sent = sent} {s = s} (begin e room) inv = record {
  epoch = refl;
  size = refl;
  elements = refl;
  wc = omega arith;
  wsc = not_above (phase_at sent s.channel s.phase idle e inv.phase);
}
  where
    not_above : InPhase sent s.channel idle → s.channel.wsc ≤ s.channel.wc + 1
    not_above h = idle_above sent s.channel h
WriteStep-Later (put n e lt) inv = record {
  epoch = refl;
  size = refl;
  elements = refl;
  wc = omega arith;
  wsc = omega arith;
}
WriteStep-Later (finish e) inv = record {
  epoch = refl;
  size = refl;
  elements = refl;
  wc = omega arith;
  wsc = omega arith;
}

pub Steps-Later :
    {sent : ℕ → ℕ → ℕ} {s t : Writer} → Steps sent s t → Inv sent s → Later s.channel t.channel
Steps-Later here inv = record {
  epoch = refl;
  size = refl;
  elements = refl;
  wc = omega arith;
  wsc = omega arith;
}
Steps-Later (step one more) inv =
    let a = WriteStep-Later one inv in
    let b = Steps-Later more (WriteStep-Inv one inv) in
    record {
      epoch = b.epoch ∙ a.epoch;
      size = b.size ∙ a.size;
      elements = b.elements ∙ a.elements;
      wc = omega (arith, a.wc, b.wc);
      wsc = omega (arith, a.wsc, b.wsc);
    }
