-- ===== src/VirtioNet/Receive/Given.antt =====
-- bindings/virtio/virtio_net.c: the buffers that the driver gives to the device when it sets up the receive queue.
use native.Mathlib.Nat.{mod-eq_of_lt, mod_self}
use native.Mathlib.Decide.{dec_lt}
use solo.Base.{
  ℕ, zero, suc, ◌+◌, ◌%◌, ◌≤◌, ◌<◌, ◌≡◌, refl, sym, ap, ◌∙◌, true, false, ◌!=◌, done, bit_and,
  arith,
}
use solo.Virtq.{Virtq, mask_of}
use solo.Virtq.Written.{IsQueue, num_bounds, masked}
use solo.VirtioNet.Receive.{clear_buf, recv_setup}
use solo.VirtioNet.Receive.Posted.{Posted, post_buf}

-- The queue as `virtq_init_rings` leaves it.
pub record IsEmpty (q : Virtq) : Type 0 where
  pub ok : IsQueue q
  pub all : q.num_avail ≡ q.num
  pub next_avail : q.next_avail ≡ 0
  pub avail_idx : q.avail_idx ≡ 0
  pub last_used : q.last_used ≡ 0

-- The device has every buffer.
pub record AllPosted (q q' : Virtq) : Type 0 where
  pub posted : Posted q'
  pub none_free : q'.num_avail ≡ 0
  pub num : q'.num ≡ q.num
  pub last_used : q'.last_used ≡ q.last_used

recv_setup_from :
    (f : ℕ) (q : Virtq)
    → Posted q
    → q.last_used ≡ 0
    → q.next_avail < q.num
    → q.num ≤ q.next_avail + f
    → (q' : Virtq) × (recv_setup f q ≡ done q') × AllPosted q q'
unfolding recv_setup
recv_setup_from zero q p start lt enough = absurd (omega (arith, lt, enough))
recv_setup_from (suc f) q p start lt enough =
    let (q', went, one) = post_buf q (clear_buf q) p free refl refl in
    let at : q'.next_avail ≡ q.next_avail + 1 =
      omega (arith, one.posted.next_avail, one.avail_idx, p.next_avail, lt, num_bounds q p.ok) in
    elim (dec_lt (q.next_avail + 1) q.num) [
      | yes more ↦
          let (last, went', all) =
            recv_setup_from f q' one.posted (one.last_used ∙ start)
              (omega (arith, at, more, one.num)) (omega (arith, at, enough, one.num)) in
          (
            last,
            rw (went, again q'.next_avail at more) went',
            record {
              posted = all.posted;
              none_free = all.none_free;
              num = all.num ∙ one.num;
              last_used = all.last_used ∙ one.last_used;
            },
          )
      | no full ↦ (
        q',
        rw (went, ended q'.next_avail at full) refl,
        record {
          posted = one.posted;
          none_free =
              omega
                (arith, one.num_avail, p.balance, p.next_avail, start, lt, full, num_bounds q p.ok);
          num = one.num;
          last_used = one.last_used;
        },
      )
    ]
  where
    free : 0 < q.num_avail
    free = omega (arith, p.balance, p.next_avail, start, lt)

    again :
        (a : ℕ)
        → a ≡ q.next_avail + 1
        → q.next_avail + 1 < q.num
        → (bit_and a (mask_of q) != 0) ≡ true
    again a at more = rw (masked q a p.ok, at, mod-eq_of_lt more) (ground arith)

    ended :
        (a : ℕ)
        → a ≡ q.next_avail + 1
        → ¬ (q.next_avail + 1 < q.num)
        → (bit_and a (mask_of q) != 0) ≡ false
    ended a at full = rw (masked q a p.ok, ap (λ (t : ℕ). t % q.num) last, mod_self q.num) refl
      where
        last : a ≡ q.num
        last = omega (arith, at, full, lt)

IsEmpty-Posted : (q : Virtq) → IsEmpty q → Posted q
IsEmpty-Posted q e = record {
  ok = e.ok;
  last_used = omega (arith, e.last_used);
  next_avail = e.next_avail ∙ sym e.avail_idx;
  balance = omega (arith, e.all, e.last_used, e.avail_idx);
  desc = λ j lt. absurd (omega (arith, lt, e.last_used, e.avail_idx));
  ring = λ j lt. absurd (omega (arith, lt, e.last_used, e.avail_idx));
}

-- For an empty queue, and with as much fuel as the queue has descriptors, `recv_setup` returns. No assertion fails, and the
-- device has every buffer, each as a chain of one writable descriptor of the full length; the available
-- ring lists them in order.
pub recv_setup-AllPosted :
    (f : ℕ) (q : Virtq)
    → IsEmpty q
    → q.num ≤ f
    → (q' : Virtq) × (recv_setup f q ≡ done q') × AllPosted q q'
recv_setup-AllPosted f q e enough =
    recv_setup_from f q (IsEmpty-Posted q e) e.last_used
      (omega (arith, e.next_avail, num_bounds q e.ok)) (omega (arith, e.next_avail, enough))
