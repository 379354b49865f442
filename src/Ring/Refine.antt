-- ===== src/Ring/Refine.antt =====
-- tenders/hvt/hvt_module_net.c: `process_ring_commits`, with its batches of writes and the head index
-- that stays behind during a batch, against the service of one entry at a time.
use solo.Base.{
  ℕ, zero, suc, ◌+◌, ◌-◌, ◌^◌, ◌%◌, ◌<◌, ◌≡◌, inl, inr, refl, sym, ap, ◌∙◌, ◌==◌, ltb, true, false,
  Bool-cases, ==_iff, done, ◌>>=◌, >>=-cong, >>=-assoc, arith,
}
use solo.Ring.{
  Entry, Taps, NetTender, advance, add32, entry_at, process_read_entry, write_entry, flush, batch,
  drain, process_ring_commits, hvt_ring_net_write, hvt_ring_net_read,
}
use solo.Ring.Serve.{pending, serve_one, serve}

module _ (taps : Taps) where
  open taps use {Net}

  -- The entries from `ent_head + p` up to the snapshot.
  abbrev left : ℕ → NetTender Net → ℕ → ℕ
  left snap t p = (snap + 2 ^ 32 - add32 t.ring.ent_head p) % 2 ^ 32

  advance-zero : (t : NetTender Net) → t.ring.ent_head < 2 ^ 32 → advance t 0 ≡ t
  advance-zero t h =
      ap (λ (k : ℕ). record t { ring = record (t.ring) { ent_head = k } }) (omega arith)

  flush-advance :
      (t : NetTender Net) (p : ℕ) → t.ring.ent_head < 2 ^ 32 → flush taps t p ≡ advance t p
  unfolding flush
  flush-advance t zero h = sym (advance-zero t h)
  flush-advance t (suc p) h = ground arith

  advance-suc :
      (t : NetTender Net) (p : ℕ) (n : Net)
      → advance (record (advance t p) { net = n }) 1 ≡ advance (record t { net = n }) (add32 p 1)
  advance-suc t p n =
      ap (λ (k : ℕ). record t { net = n; ring = record (t.ring) { ent_head = k } }) (omega arith)

  -- The devices that a write leaves do not depend on the head index.
  write_entry-advance :
      (t : NetTender Net) (p : ℕ) (ent : Entry)
      → write_entry taps (advance t p) ent ≡ write_entry taps t ent
  unfolding write_entry
  write_entry-advance t p ent = refl

  pub process_read_entry-head :
      (t t' : NetTender Net) (ent : Entry)
      → process_read_entry taps t ent ≡ done t'
      → (t'.ring.ent_head ≡ add32 t.ring.ent_head 1)
        × (t'.ring.com_tail ≡ add32 t.ring.com_tail 1)
        × (t'.ring.entries ≡ t.ring.entries)
        × (t'.ring.ent_tail ≡ t.ring.ent_tail)
        × (t'.ring.com_head ≡ t.ring.com_head)
        × (t'.hvt.guest_mem_size ≡ t.hvt.guest_mem_size)
        × (t'.host_mft ≡ t.host_mft)
  unfolding process_read_entry
  process_read_entry-head t t' ent h = ground arith

  -- What `serve` does next, by the kind of the entry.
  serve_write :
      (t : NetTender Net) (r p : ℕ)
      → let ent = entry_at t.ring (add32 t.ring.ent_head p) in
        (ent.operation == hvt_ring_net_write) ≡ true
        → serve taps (suc r) (advance t p) ≡ (
            write_entry taps t ent >>= λ n.
            serve taps r (advance (record t { net = n }) (add32 p 1)))
  unfolding serve serve_one write_entry
  serve_write t r p w = rw w (
      >>=-assoc (write_entry taps t (entry_at t.ring (add32 t.ring.ent_head p))) _ _
      ∙ >>=-cong (write_entry taps t (entry_at t.ring (add32 t.ring.ent_head p)))
          (λ n _. ap (serve taps r) (advance-suc t p n)))

  serve_read :
      (t : NetTender Net) (r p : ℕ)
      → let ent = entry_at t.ring (add32 t.ring.ent_head p) in
        (ent.operation == hvt_ring_net_write) ≡ false
        → (ent.operation == hvt_ring_net_read) ≡ true
        → serve taps (suc r) (advance t p)
          ≡ (process_read_entry taps (advance t p) ent >>= λ t'. serve taps r t')
  unfolding serve serve_one
  serve_read t r p w rd = rw (w, rd)

  serve_skip :
      (t : NetTender Net) (r p : ℕ)
      → let ent = entry_at t.ring (add32 t.ring.ent_head p) in
        (ent.operation == hvt_ring_net_write) ≡ false
        → (ent.operation == hvt_ring_net_read) ≡ false
        → serve taps (suc r) (advance t p) ≡ serve taps r (advance t (add32 p 1))
  unfolding serve serve_one
  serve_skip t r p w rd = rw (w, rd) (ap (serve taps r) (advance-suc t p t.net))

  Batched : ℕ → ℕ → ℕ → ℕ → ℕ → NetTender Net → Type 0
  Batched r snap f fb p t =
      left snap t p ≡ r
      → p + r < 2 ^ 32
      → r < f
      → r < fb
      → snap < 2 ^ 32
      → t.ring.ent_head < 2 ^ 32
      → (batch taps fb snap t.ring.ent_head p t >>= λ s. drain taps f snap (flush taps s.0 s.1))
        ≡ serve taps r (advance t p)

  drain_rest :
      (r snap f : ℕ) (t : NetTender Net)
      → Batched r snap f (suc f) 0 t
      → left snap t 0 ≡ r
      → r < f
      → r < 2 ^ 32
      → snap < 2 ^ 32
      → t.ring.ent_head < 2 ^ 32
      → drain taps (suc f) snap t ≡ serve taps r t
  unfolding drain Batched serve
  drain_rest r snap f t ih e lt small sn hd = elim (Bool-cases (t.ring.ent_head == snap)) [
    | inl end ↦
        let none_left : r ≡ 0 = omega (arith, (==_iff t.ring.ent_head snap).0 end) in
        rw (end, none_left)
    | inr more ↦
        rw more (ih e (omega arith) lt (omega arith) sn hd ∙ ap (serve taps r) (advance-zero t hd))
  ]

  drained :
      (f snap g : ℕ) (t : NetTender Net)
      → f ≡ suc g
      → (t.ring.ent_head == snap) ≡ true
      → drain taps f snap t ≡ done t
  unfolding drain
  drained f snap g t e end = rw (e, end)

  batch-serve : (r snap f fb p : ℕ) (t : NetTender Net) → Batched r snap f fb p t
  unfolding batch serve Batched
  batch-serve zero snap zero fb p t e w lt ltb sn hd = absurd (omega arith)
  batch-serve zero snap (suc f) zero p t e w lt ltb sn hd = absurd (omega arith)
  batch-serve zero snap (suc f) (suc fb) p t e w lt ltb sn hd =
      rw (at_end, flush-advance t p hd) (drained (suc f) snap f (advance t p) refl at_end)
    where
      at_end : (add32 t.ring.ent_head p == snap) ≡ true
      at_end = (==_iff _ snap).1 (omega arith)
  batch-serve (suc r) snap f zero p t e w lt ltb sn hd = absurd (omega arith)
  batch-serve (suc r) snap zero (suc fb) p t e w lt ltb sn hd = absurd (omega arith)
  batch-serve (suc r) snap (suc f) (suc fb) p t e w lt ltb sn hd =
      elim (Bool-cases (ent.operation == hvt_ring_net_write)) [
        | inl wr ↦
            rw (more, wr)
              (>>=-assoc (write_entry taps t ent) _ _
                ∙ >>=-cong (write_entry taps t ent) (λ n _.
                  batch-serve r snap (suc f) fb (add32 p 1) (record t { net = n }) next
                    (omega arith) (omega arith) (omega arith) sn hd)
                ∙ sym (serve_write t r p wr))
        | inr wr ↦ elim (Bool-cases (ent.operation == hvt_ring_net_read)) [
          | inl rd ↦
              rw (more, wr, rd, flush-advance t p hd)
                (>>=-assoc (process_read_entry taps (advance t p) ent) _ _
                  ∙ >>=-cong (process_read_entry taps (advance t p) ent)
                      (after_read (batch-serve r snap f (suc f) 0))
                  ∙ sym (serve_read t r p wr rd))
          | inr rd ↦
              rw (more, wr, rd)
                (batch-serve r snap (suc f) fb (add32 p 1) t next (omega arith) (omega arith)
                    (omega arith) sn hd
                  ∙ sym (serve_skip t r p wr rd))
        ]
      ]
    where
      ent : Entry
      ent = entry_at t.ring (add32 t.ring.ent_head p)

      more : (add32 t.ring.ent_head p == snap) ≡ false
      more = ground (arith, e, sn)

      next : left snap t (add32 p 1) ≡ r
      next = omega arith

      after_read :
          ((t' : NetTender Net) → Batched r snap f (suc f) 0 t')
          → (t' : NetTender Net) → process_read_entry taps (advance t p) ent ≡ done t'
          → drain taps (suc f) snap (flush taps t' 0) ≡ serve taps r t'
      after_read ih t' h =
          let head = (process_read_entry-head (advance t p) t' ent h).0 in
          let small : t'.ring.ent_head < 2 ^ 32 = omega (arith, head) in
          rw (flush-advance t' 0 small, advance-zero t' small)
            (drain_rest r snap f t' (ih t') (omega (arith, head)) (omega arith) (omega arith) sn
              small)

  -- With more fuel than pending entries, `process_ring_commits` is the service of exactly the entries
  -- that were published when it took its snapshot, one at a time and in order: the same frames to the
  -- same devices, the same commits, the same indices, the same failures.
  pub process_ring_commits-serve :
      (fuel : ℕ) (t : NetTender Net)
      → t.ring.ent_tail < 2 ^ 32
      → t.ring.ent_head < 2 ^ 32
      → pending t.ring + 1 < fuel
      → process_ring_commits taps fuel t ≡ serve taps (pending t.ring) t
  unfolding process_ring_commits
  process_ring_commits-serve zero t sn hd lt = absurd (omega arith)
  process_ring_commits-serve (suc f) t sn hd lt =
      drain_rest (pending t.ring) t.ring.ent_tail f t
        (batch-serve (pending t.ring) t.ring.ent_tail f (suc f) 0 t) (omega arith) (omega arith)
        (omega arith) sn hd
