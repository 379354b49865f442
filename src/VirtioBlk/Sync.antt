-- ===== src/VirtioBlk/Sync.antt =====
-- bindings/virtio/virtio_blk.c: a synchronous request, on a device that is a disk.
use solo.Base.{
  ℕ, zero, suc, ◌+◌, ◌%◌, ◌^◌, ◌≤◌, ◌<◌, ◌≡◌, ◌≢◌, ◌⊎◌, inl, inr, refl, sym, ap, ◌∙◌, subst, Bool,
  true, false, ◌==◌, ◌!=◌, if◌then◌else◌, List, [], length, Option, none, some, Run, done, ◌>>=◌,
  bit_and, arith,
}
use solo.Hvt.{load_bytes}
use solo.Virtq.{Virtq, add16, sub16, mask_of}
use solo.Virtq.Written.{IsQueue, num_bounds, masked, slot, next_slot}
use solo.VirtioNet.Receive.Posted.{wraps}
use solo.VirtioBlk.{
  BlkDevice, virtio_blk_t_in, virtio_blk_t_out, virtio_blk_s_ok, virtio_blk_sector_size,
  with_contents, wait_used, consume_used, virtio_blk_op_sync,
}
use solo.VirtioBlk.Fill.{Idle, Transfer, Asked, Busy}
use solo.VirtioBlk.Request.{virtio_blk_op-Asked}

-- The three buffers of a request hold the device's answer. `disk` and `sectors` are what the disk was, and `disk'` is what
-- it is now.
pub record Answer (disk : ℕ → List ℕ) (sectors : ℕ) (disk' : ℕ → List ℕ) (q : Virtq) (head : ℕ)
    (r : Transfer) (contents : ℕ → ℕ → ℕ) : Type 0 where
  pub wrote :
      r.type ≡ virtio_blk_t_out
      → r.sector < sectors
      → (contents (slot q head 2) 0 ≡ virtio_blk_s_ok)
        × (disk' r.sector ≡ load_bytes (q.bufs (slot q head 1)).contents 0 r.len)
        × ((s : ℕ) → s ≢ r.sector → disk' s ≡ disk s)
  pub read :
      r.type ≡ virtio_blk_t_in
      → r.sector < sectors
      → (contents (slot q head 2) 0 ≡ virtio_blk_s_ok)
        × (load_bytes (contents (slot q head 1)) 0 r.len ≡ disk r.sector)
        × ((s : ℕ) → disk' s ≡ disk s)
  pub failed :
      sectors ≤ r.sector
      → (contents (slot q head 2) 0 ≢ virtio_blk_s_ok) × ((s : ℕ) → disk' s ≡ disk s)

-- A request for one sector.
pub record OneSector (r : Transfer) : Type 0 where
  pub len : r.len ≡ virtio_blk_sector_size
  pub word : r.sector < 2 ^ 64
  pub kind : ((r.type ≡ virtio_blk_t_out) × (length r.buf ≡ r.len)) ⊎ (r.type ≡ virtio_blk_t_in)

module _ {D : Type 0} (dev : BlkDevice D) where
  open dev use {work, used_idx, used_ring, avail_event, used_flags}

  -- A disk, as the virtio specification has it: a request that is before it is served after a while. Up to then nothing changes;
  -- then the chain is listed as used, and its buffers hold the answer.
  pub record IsDisk : Type 0 where
    pub disk : D → ℕ → List ℕ
    pub sectors : D → ℕ
    pub patience : D → ℕ
    pub works :
        (d : D) (q : Virtq) (head : ℕ) (r : Transfer)
        → Asked q head r
        → OneSector r
        → used_idx d ≡ sub16 q.avail_idx 1
        → (sectors (work d q).0 ≡ sectors d)
          × (((used_idx (work d q).0 ≡ used_idx d)
                × ((work d q).1 ≡ (λ i. (q.bufs i).contents))
                × (patience (work d q).0 < patience d)
                × (disk (work d q).0 ≡ disk d))
              ⊎ ((used_idx (work d q).0 ≡ q.avail_idx)
                  × ((used_ring (work d q).0 (sub16 q.avail_idx 1 % q.num)).id ≡ head)
                  × Answer (disk d) (sectors d) (disk (work d q).0) q head r (work d q).1))

  module _ (is_disk : IsDisk) where
    open is_disk use {disk, sectors, patience, works}

    -- The end of the wait.
    record Served (d d' : D) (q : Virtq) (head : ℕ) (r : Transfer) (contents : ℕ → ℕ → ℕ)
        : Type 0 where
      used : used_idx d' ≡ q.avail_idx
      id : (used_ring d' (sub16 q.avail_idx 1 % q.num)).id ≡ head
      sectors_same : sectors d' ≡ sectors d
      answer : Answer (disk d) (sectors d) (disk d') q head r contents

    wait_used-Served :
        (f : ℕ) (d : D) (q : Virtq) (head : ℕ) (r : Transfer)
        → Asked q head r
        → OneSector r
        → q.avail_idx < 2 ^ 16
        → used_idx d ≡ sub16 q.avail_idx 1
        → patience d < f
        → (d' : D) × (contents : ℕ → ℕ → ℕ) × (wait_used dev f d q
            ≡ done (d', with_contents q contents))
          × Served d d' q head r contents
    unfolding wait_used
    wait_used-Served zero d q head r asked one small start enough = absurd (omega (arith, enough))
    wait_used-Served (suc f) d q head r asked one small start enough =
        let (same, outcome) = works d q head r asked one start in
        elim outcome [
          | inr (used, id, answer) ↦ (
            (work d q).0,
            (work d q).1,
            rw (ends used) refl,
            record { used = used; id = id; sectors_same = same; answer = answer },
          )
          | inl (waits, unchanged, less, disk_same) ↦
              let (d', contents, went, served) =
                wait_used-Served f (work d q).0 q head r asked one small (waits ∙ start)
                  (omega (arith, less, enough)) in
              (
                d',
                contents,
                rw (continues waits, unchanged) went,
                record {
                  used = served.used;
                  id = served.id;
                  sectors_same = served.sectors_same ∙ same;
                  answer =
                      subst (λ (k : ℕ → List ℕ). Answer k (sectors d) (disk d') q head r contents)
                        disk_same
                        (subst (λ (n : ℕ). Answer (disk (work d q).0) n (disk d') q head r contents)
                          same served.answer);
                },
              )
        ]
      where
        ends : used_idx (work d q).0 ≡ q.avail_idx → (used_idx (work d q).0 != q.avail_idx) ≡ false
        ends e = ground (arith, e)

        continues :
            used_idx (work d q).0 ≡ used_idx d → (used_idx (work d q).0 != q.avail_idx) ≡ true
        continues e = ground (arith, e, start, small)

    -- The queue when the one chain has been consumed.
    consumed : Virtq → Virtq
    consumed q = record q { last_used = add16 q.last_used 1; num_avail = add16 q.num_avail 3 }

    consume_used-one :
        (f : ℕ) (d : D) (head : ℕ) (q : Virtq)
        → 2 ≤ f
        → IsQueue q
        → q.last_used ≡ sub16 q.avail_idx 1
        → used_idx d ≡ q.avail_idx
        → (used_ring d (sub16 q.avail_idx 1 % q.num)).id ≡ head
        → consume_used dev f d head q ≡ done (consumed q)
    unfolding consume_used consumed
    consume_used-one zero d head q enough ok last used id = absurd (omega (arith, enough))
    consume_used-one (suc zero) d head q enough ok last used id = absurd (omega (arith, enough))
    consume_used-one (suc (suc f)) d head q enough ok last used id =
        rw (more, place, id, same head, no_more) refl
      where
        more : (used_idx d != q.last_used) ≡ true
        more = ground (arith, used, last, ok.avail_idx)

        no_more : (used_idx d != add16 q.last_used 1) ≡ false
        no_more = ground (arith, used, last, ok.avail_idx)

        place : bit_and q.last_used (mask_of q) ≡ sub16 q.avail_idx 1 % q.num
        place = masked q q.last_used ok ∙ ap (λ (a : ℕ). a % q.num) last

        same : (n : ℕ) → (n == n) ≡ true
        same n = ground arith

    -- What a request has done, once the call has returned.
    pub record Transferred (d : D) (q : Virtq) (r : Transfer) (d' : D) (q' : Virtq)
        (o : Option (List ℕ)) : Type 0 where
      pub idle : Idle q'
      pub used : used_idx d' ≡ q'.avail_idx
      pub num : q'.num ≡ q.num
      pub sectors_same : sectors d' ≡ sectors d
      pub wrote :
          r.type ≡ virtio_blk_t_out
          → r.sector < sectors d
          → (o ≡ some [])
            × (disk d' r.sector ≡ r.buf)
            × ((s : ℕ) → s ≢ r.sector → disk d' s ≡ disk d s)
      pub read :
          r.type ≡ virtio_blk_t_in
          → r.sector < sectors d
          → (o ≡ some (disk d r.sector)) × ((s : ℕ) → disk d' s ≡ disk d s)
      pub failed : sectors d ≤ r.sector → (o ≡ none) × ((s : ℕ) → disk d' s ≡ disk d s)

    -- What the call returns for the status and the bytes that the buffers hold.
    outcome : ℕ → ℕ → List ℕ → Option (List ℕ)
    outcome type status bytes =
        if status != virtio_blk_s_ok
        then none
        else some (if type == virtio_blk_t_in then bytes else [])

    consumed-Idle :
        (q q1 : Virtq) (head : ℕ) (contents : ℕ → ℕ → ℕ)
        → Idle q
        → Busy q q1 head
        → Idle (consumed (with_contents q1 contents))
    unfolding consumed
    consumed-Idle q q1 head contents idle busy = record {
      ok = record {
        exponent = busy.ok.exponent;
        power = busy.ok.power;
        max = busy.ok.max;
        free = omega (arith, all_free);
        avail_idx = busy.ok.avail_idx;
        len = busy.ok.len;
        extra_flags = busy.ok.extra_flags;
      };
      three = omega (arith, busy.num, idle.three);
      free = all_free;
      seen = omega (arith, busy.last_used, busy.avail_idx);
    }
      where
        all_free : add16 q1.num_avail 3 ≡ q1.num
        all_free = omega (arith, busy.num_avail, num_bounds q1 busy.ok)

    Served-Transferred :
        (d : D) (q q1 : Virtq) (head : ℕ) (r : Transfer) (d' : D) (contents : ℕ → ℕ → ℕ)
        → Idle q
        → Asked q1 head r
        → Busy q q1 head
        → OneSector r
        → Served d d' q1 head r contents
        → Transferred d q r d' (consumed (with_contents q1 contents)) (
            outcome r.type
              (contents (slot q1 head 2) 0)
              (load_bytes (contents (slot q1 head 1)) 0 r.len))
    unfolding consumed outcome
    Served-Transferred d q q1 head r d' contents idle asked busy one served = record {
      idle = consumed-Idle q q1 head contents idle busy;
      used = served.used;
      num = busy.num;
      sectors_same = served.sectors_same;
      wrote = λ write inside.
          let (ok, stored, others) = served.answer.wrote write inside in
          (ground (arith, ok, write), stored ∙ given write, others);
      read = λ read inside.
          let (ok, got, others) = served.answer.read read inside in
          (rw ok (ground (arith, read) ∙ ap some got), others);
      failed = λ outside.
          let (bad, others) = served.answer.failed outside in (ground (arith, bad), others);
    }
      where
        same_len : r.type ≡ virtio_blk_t_out → length r.buf ≡ r.len
        same_len write = elim one.kind [
          | inl (_, same) ↦ same
          | inr read ↦ absurd (omega (arith, write, read))
        ]

        given :
            r.type ≡ virtio_blk_t_out
            → load_bytes (q1.bufs (slot q1 head 1)).contents 0 r.len ≡ r.buf
        given write =
            ap (load_bytes (q1.bufs (slot q1 head 1)).contents 0) (sym (same_len write))
            ∙ asked.bytes write

    with_contents-IsQueue :
        (q : Virtq) (contents : ℕ → ℕ → ℕ) → IsQueue q → IsQueue (with_contents q contents)
    with_contents-IsQueue q contents ok = record {
      exponent = ok.exponent;
      power = ok.power;
      max = ok.max;
      free = ok.free;
      avail_idx = ok.avail_idx;
      len = ok.len;
      extra_flags = ok.extra_flags;
    }

    -- What follows the wait.
    finish : ℕ → D → ℕ → Virtq → Transfer → Run (D × Virtq × Option (List ℕ))
    finish fuel d' head q2 r = consume_used dev fuel d' head q2 >>= λ q3.
        let second = bit_and (add16 head 1) (mask_of q3) in
        let third = bit_and (add16 head 2) (mask_of q3) in
        let bytes =
          if r.type == virtio_blk_t_in then load_bytes (q3.bufs second).contents 0 r.len else [] in
        if (q3.bufs third).contents 0 != virtio_blk_s_ok
        then done (d', q3, none)
        else done (d', q3, some bytes)

    abbrev answer_with : D → Virtq → Option (List ℕ) → Run (D × Virtq × Option (List ℕ))
    answer_with d q o = done (d, q, o)

    answers :
        (d' : D) (q3 : Virtq) (t : Bool) (bytes : List ℕ)
        → (if t then answer_with d' q3 none else answer_with d' q3 (some bytes))
          ≡ answer_with d' q3 (if t then none else some bytes)
    answers d' q3 true bytes = refl
    answers d' q3 false bytes = refl

    finish_lem :
        (fuel : ℕ) (d d' : D) (q1 : Virtq) (head : ℕ) (r : Transfer) (contents : ℕ → ℕ → ℕ)
        (q : Virtq)
        → 2 ≤ fuel
        → q.avail_idx < 2 ^ 16
        → Busy q q1 head
        → Served d d' q1 head r contents
        → finish fuel d' head (with_contents q1 contents) r
          ≡ done (
            d',
            consumed (with_contents q1 contents),
            outcome r.type
                (contents (slot q1 head 2) 0)
                (load_bytes (contents (slot q1 head 1)) 0 r.len),
          )
    unfolding finish outcome consumed
    finish_lem fuel d d' q1 head r contents q two small busy served =
        rw
          (
            consume_used-one fuel d' head (with_contents q1 contents) two
                (with_contents-IsQueue q1 contents busy.ok)
                (omega (arith, busy.last_used, busy.avail_idx, small)) served.used served.id,
            second,
            third,
          )
          (answers d' (consumed (with_contents q1 contents))
            (contents (slot q1 head 2) 0 != virtio_blk_s_ok)
            (if r.type == virtio_blk_t_in
              then load_bytes (contents (slot q1 head 1)) 0 r.len
              else []))
      where
        second :
            bit_and (add16 head 1) (mask_of (consumed (with_contents q1 contents))) ≡ slot q1 head 1
        second = next_slot q1 head busy.ok busy.in_queue

        third :
            bit_and (add16 head 2) (mask_of (consumed (with_contents q1 contents))) ≡ slot q1 head 2
        third = masked q1 (add16 head 2) busy.ok ∙ wraps q1 (head + 2) busy.ok

    -- On a disk, for a queue without a request and a request for one sector, and with more fuel than the disk takes looks,
    -- the synchronous call returns, and the queue has no request again. In range, a write has stored its
    -- bytes in the sector and in no other, and a read has got the sector's bytes and changed nothing. A
    -- sector out of range gives -1 and changes nothing.
    pub virtio_blk_op_sync-Transferred :
        (fuel : ℕ) (d : D) (q : Virtq) (r : Transfer)
        → Idle q
        → used_idx d ≡ q.avail_idx
        → OneSector r
        → patience d < fuel
        → 2 ≤ fuel
        → (d' : D) × (q' : Virtq) × (o : Option (List ℕ)) × (virtio_blk_op_sync dev fuel d q r.type
              r.sector r.buf r.len
            ≡ done (d', q', o))
          × Transferred d q r d' q' o
    unfolding virtio_blk_op_sync finish
    virtio_blk_op_sync-Transferred fuel d q r idle start one enough two =
        let (q1, head, notified, went, asked, busy) =
          virtio_blk_op-Asked (avail_event d) (used_flags d) q r idle (omega (arith, one.len)) in
        let (d', contents, waited, served) =
          wait_used-Served fuel d q1 head r asked one busy.ok.avail_idx (before q1 head busy)
            enough in
        (
          d',
          consumed (with_contents q1 contents),
          outcome r.type (contents (slot q1 head 2) 0)
              (load_bytes (contents (slot q1 head 1)) 0 r.len),
          rw (went, waited)
              (finish_lem fuel d d' q1 head r contents q two idle.ok.avail_idx busy served),
          Served-Transferred d q q1 head r d' contents idle asked busy one served,
        )
      where
        before : (q1 : Virtq) (head : ℕ) → Busy q q1 head → used_idx d ≡ sub16 q1.avail_idx 1
        before q1 head busy = omega (arith, start, busy.avail_idx, idle.ok.avail_idx)
