-- ===== src/Channel/Writer.antt =====
-- bindings/muen/writer.c: `muen_channel_write` as a sequence of the stores of its writer.
use solo.Base.{
  ℕ, zero, suc, ◌+◌, ◌*◌, ◌%◌, ◌^◌, ◌<◌, ◌≡◌, refl, sym, ap, subst, false, ltb, length, take, ◌++◌,
  ◌==◌, if◌then◌else◌, List, [], ◌∷◌, done, arith,
}
use solo.Channel.{Muchannel, copy_bytes, last_of, muen_channel_write}
use solo.Channel.Store.{
  idle, writing, begin, put, finish, end, next, Trace, Trace-Steps, Writer, place, WriteStep, Inv,
  Steps-Inv,
}

-- The bytes of an element from the byte `k` on.
abbrev pub sent_bytes : (ℕ → ℕ → ℕ) → ℕ → ℕ → ℕ → List ℕ
sent_bytes sent i k zero = []
sent_bytes sent i k (suc n) = sent i k ∷ sent_bytes sent i (k + 1) n

length-sent_bytes : (sent : ℕ → ℕ → ℕ) (i k n : ℕ) → length (sent_bytes sent i k n) ≡ n
length-sent_bytes sent i k zero = refl
length-sent_bytes sent i k (suc n) = ap suc (length-sent_bytes sent i (k + 1) n)

take-sent_bytes :
    (sent : ℕ → ℕ → ℕ) (i k n : ℕ) → take n (sent_bytes sent i k n) ≡ sent_bytes sent i k n
take-sent_bytes sent i k zero = refl
take-sent_bytes sent i k (suc n) =
    ap (λ (t : List ℕ). sent i k ∷ t) (take-sent_bytes sent i (k + 1) n)

snoc :
    {sent : ℕ → ℕ → ℕ} {s t u : Writer} {cs : List Muchannel}
    → Trace sent s cs t
    → WriteStep sent t u
    → Trace sent s (cs ++ (u.channel ∷ [])) u
snoc end one = next one end
snoc (next first more) one = next first (snoc more one)

last_of-append : (c d : Muchannel) (cs : List Muchannel) → last_of c (cs ++ (d ∷ [])) ≡ d
unfolding last_of
last_of-append c d [] = refl
last_of-append c d (e ∷ cs) = last_of-append e d cs

-- The copy leaves the header alone.
copy_bytes-keeps :
    (c : Muchannel) (pos : ℕ) (bs : List ℕ)
    → ((last_of c (copy_bytes c pos bs)).wc ≡ c.wc)
      × ((last_of c (copy_bytes c pos bs)).size ≡ c.size)
unfolding copy_bytes last_of
copy_bytes-keeps c pos [] = (refl, refl)
copy_bytes-keeps c pos (b ∷ bs) =
    copy_bytes-keeps (record c { bytes = λ o. if o == pos then b else c.bytes o }) (pos + 1) bs

copies :
    (sent : ℕ → ℕ → ℕ) (c : Muchannel) (k n : ℕ)
    → k + n ≡ c.size
    → let cs = copy_bytes c (place c c.wc k) (sent_bytes sent c.wc k n) in
      Trace sent
        (record { channel = c; phase = writing k })
        cs
        (record { channel = last_of c cs; phase = writing c.size })
unfolding copy_bytes last_of
copies sent c k zero all =
    subst
      (λ (n : ℕ).
        Trace sent (record { channel = c; phase = writing k }) []
          (record { channel = c; phase = writing n }))
      (omega (arith, all)) end
copies sent c k (suc n) all = next (put k refl (omega (arith, all))) (
    subst
      (λ (a : ℕ).
        Trace sent (record { channel = c'; phase = writing (k + 1) })
          (copy_bytes c' a (sent_bytes sent c.wc (k + 1) n))
          (record {
            channel = last_of c' (copy_bytes c' a (sent_bytes sent c.wc (k + 1) n));
            phase = writing c.size;
          }))
      (omega arith) (copies sent c' (k + 1) n (omega (arith, all))))
  where
    c' : Muchannel
    c' = record c { bytes = λ o. if o == place c c.wc k then sent c.wc k else c.bytes o }

-- For an idle writer whose last elements are intact, counters that do not wrap around, and the next element,
-- `muen_channel_write` returns. Each of its stores, in the order in which it makes them, is a step of the writer: the
-- first raises `wsc`, each byte follows, and the last raises `wc`. Afterwards `wc` is one higher, and the last
-- elements, with the new one, are intact.
pub muen_channel_write-Steps :
    (sent : ℕ → ℕ → ℕ) (c : Muchannel)
    → Inv sent (record { channel = c; phase = idle })
    → c.wc + 1 < 2 ^ 64
    → (cs : List Muchannel) × (muen_channel_write c (sent_bytes sent c.wc 0 c.size) ≡ done cs)
      × Trace sent
          (record { channel = c; phase = idle })
          cs
          (record { channel = last_of c cs; phase = idle })
      × Inv sent (record { channel = last_of c cs; phase = idle })
      × ((last_of c cs).wc ≡ c.wc + 1)
unfolding muen_channel_write last_of
muen_channel_write-Steps sent c inv room = (
  cs,
  rw (some_elements, no_wrap, to_start, long, whole) refl,
  trace,
  kept,
  ap (λ (e : Muchannel). e.wc) is_last,
)
  where
    begun : Muchannel
    begun = record c { wsc = c.wc + 1 }

    copied : List Muchannel
    copied = copy_bytes begun (place c c.wc 0) (sent_bytes sent c.wc 0 c.size)

    l : Muchannel
    l = last_of begun copied

    d : Muchannel
    d = record l { wc = c.wc + 1 }

    cs : List Muchannel
    cs = begun ∷ (copied ++ (d ∷ []))

    some_elements : (c.elements == 0) ≡ false
    some_elements = ground (arith, inv.some)

    no_wrap : (c.wc + 1) % 2 ^ 64 ≡ c.wc + 1
    no_wrap = omega (arith, room)

    to_start : place c c.wc 0 ≡ c.wc % c.elements * c.size
    to_start = omega arith

    long : ltb (length (sent_bytes sent c.wc 0 c.size)) c.size ≡ false
    long = ground (arith, length-sent_bytes sent c.wc 0 c.size)

    whole : take c.size (sent_bytes sent c.wc 0 c.size) ≡ sent_bytes sent c.wc 0 c.size
    whole = take-sent_bytes sent c.wc 0 c.size

    is_last : last_of c cs ≡ d
    is_last = last_of-append begun d copied

    keeps : (l.wc ≡ c.wc) × (l.size ≡ c.size)
    keeps = copy_bytes-keeps begun (place c c.wc 0) (sent_bytes sent c.wc 0 c.size)

    published :
        Trace sent
          (record { channel = begun; phase = writing 0 })
          (copied ++ (record l { wc = l.wc + 1 } ∷ []))
          (record { channel = record l { wc = l.wc + 1 }; phase = idle })
    published = snoc (copies sent begun 0 c.size (omega arith)) (finish (ap writing (sym keeps.1)))

    steps :
        Trace sent (record { channel = c; phase = idle }) cs (record { channel = d; phase = idle })
    steps = next (begin refl room) (
        subst
          (λ (n : ℕ).
            Trace sent (record { channel = begun; phase = writing 0 })
              (copied ++ (record l { wc = n } ∷ []))
              (record { channel = record l { wc = n }; phase = idle }))
          (ap (λ (n : ℕ). n + 1) keeps.0) published)

    trace :
        Trace sent
          (record { channel = c; phase = idle })
          cs
          (record { channel = last_of c cs; phase = idle })
    trace =
        subst
          (λ (e : Muchannel).
            Trace sent (record { channel = c; phase = idle }) cs
              (record { channel = e; phase = idle }))
          (sym is_last) steps

    kept : Inv sent (record { channel = last_of c cs; phase = idle })
    kept = Steps-Inv (Trace-Steps trace) inv
