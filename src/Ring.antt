-- ===== src/Ring.antt =====
-- include/hvt_ring.h and the network side of tenders/hvt/hvt_module_net.c: the submission ring, as
-- the tender's I/O thread serves it. The ring lies above the guest memory that
-- `HVT_CHECKED_GPA_P` reaches, so it is a record of its own; `entries` and `commits` are read at masked
-- indices. The entries between `ent_head` and the snapshot of `ent_tail` are taken as they were
-- published. The tap device is a parameter.
pub mod Serve
pub mod Refine
pub mod Counts
use solo.Base.{
  ℕ, zero, suc, ◌+◌, ◌-◌, ◌*◌, ◌^◌, ◌%◌, Bool, ◌==◌, ◌!=◌, ltb, if◌then◌else◌, List, [], ◌∷◌,
  length, Option, none, some, Run, done, exits, out_of_fuel, ◌>>=◌, bit_and, ℤ, pos, negsuc, false,
}
use solo.Mft.{Mft, mft_get_by_index, mft_dev_net_basic}
use solo.Hvt.{Hvt, Memory, checked_gpa_p, load_bytes, store_bytes}

abbrev pub hvt_ring_size : ℕ
hvt_ring_size = 1024

abbrev pub hvt_ring_mask : ℕ
hvt_ring_mask = 1023

abbrev pub hvt_ring_net_write : ℕ
hvt_ring_net_write = 1

abbrev pub hvt_ring_net_read : ℕ
hvt_ring_net_read = 2

abbrev pub r_ok : ℕ
r_ok = 0

abbrev pub r_again : ℕ
r_again = 1

abbrev pub r_einval : ℕ
r_einval = 2

-- `struct hvt_ring_entry`
pub record Entry : Type 0 where
  pub operation : ℕ
  pub handle : ℕ
  pub address : ℕ
  pub len : ℕ
  pub id : ℕ

-- `struct hvt_ring_commit`
pub record Commit : Type 0 where
  pub id : ℕ
  pub ret : ℕ
  pub len : ℕ

-- `struct hvt_ring`: the guest writes the first two indices and `entries`, the tender the rest.
pub record Ring : Type 0 where
  pub ent_tail : ℕ
  pub com_head : ℕ
  pub ent_head : ℕ
  pub com_tail : ℕ
  pub needs_kick : ℕ
  pub entries : ℕ → Entry
  pub commits : ℕ → Commit

-- What `read` on a tap descriptor gives: a frame, EAGAIN, or another error.
pub data TapRead : Type 0 where
  frame : List ℕ → TapRead
  eagain : TapRead
  failed : TapRead

-- The host's tap devices.
pub record Taps : Type 1 where
  pub Net : Type 0
  pub write : Net → ℕ → List ℕ → Net × ℤ
  pub read : Net → ℕ → ℕ → Net × TapRead

pub record NetTender (N : Type 0) : Type 0 where
  pub hvt : Hvt
  pub host_mft : Mft
  pub net : N
  pub ring : Ring

-- `uint32_t` addition
abbrev pub add32 : ℕ → ℕ → ℕ
add32 a b = (a + b) % 2 ^ 32

-- `ring->ent_head += n`
abbrev pub advance : {N : Type 0} → NetTender N → ℕ → NetTender N
advance t n = record t { ring = record (t.ring) { ent_head = add32 t.ring.ent_head n } }

-- `ring->entries[idx]` for an index that is masked first
abbrev pub entry_at : Ring → ℕ → Entry
entry_at r i = r.entries (bit_and i hvt_ring_mask)

abbrev pub put_commit : Ring → Commit → (ℕ → Commit)
put_commit r c k = if k == bit_and r.com_tail hvt_ring_mask then c else r.commits k

-- The end of `process_read_entry`: the commit is posted and the entry is consumed.
abbrev pub post : {N : Type 0} → NetTender N → Memory → N → Commit → NetTender N
post t m n c = record t {
  hvt = record (t.hvt) { mem = m };
  net = n;
  ring = record (t.ring) {
    commits = put_commit t.ring c;
    com_tail = add32 t.ring.com_tail 1;
    ent_head = add32 t.ring.ent_head 1;
  };
}

-- What a read answers, by the result of `read`.
unfoldable pub reply : ℕ → TapRead → Commit
reply id (frame []) = record { id = id; ret = r_again; len = 0 }
reply id (frame (b ∷ bs)) = record { id = id; ret = r_ok; len = length (b ∷ bs) }
reply id eagain = record { id = id; ret = r_again; len = 0 }
reply id failed = record { id = id; ret = r_einval; len = 0 }

abbrev pub frame_bytes : TapRead → List ℕ
frame_bytes (frame bs) = bs
frame_bytes eagain = []
frame_bytes failed = []

-- The result of `write`: all of the frame, or not.
abbrev pub wrote_all : ℤ → ℕ → Bool
wrote_all (pos n) len = n == len
wrote_all (negsuc n) len = 2 ^ 64 - (n + 1) == len

abbrev pub write_failed : ℤ → Bool
write_failed (pos n) = false
write_failed (negsuc n) = n == 0

module _ (taps : Taps) where
  open taps use {Net, write, read}

  -- `process_read_entry`
  unfoldable pub process_read_entry : NetTender Net → Entry → Run (NetTender Net)
  process_read_entry t ent = mft_get_by_index t.host_mft ent.handle mft_dev_net_basic >>= λ e.
      elim e [
        | none ↦ done (post t t.hvt.mem t.net (record { id = ent.id; ret = r_einval; len = 0 }))
        | some x ↦ checked_gpa_p t.hvt ent.address ent.len >>= λ q.
            let (n, got) = read t.net x.hostfd ent.len in
            done (post t (store_bytes t.hvt.mem q (frame_bytes got)) n (reply ent.id got))
      ]

  -- The `NET_WRITE` branch of `process_ring_commits`: the state of the tap devices after it.
  unfoldable pub write_entry : NetTender Net → Entry → Run Net
  write_entry t ent = mft_get_by_index t.host_mft ent.handle mft_dev_net_basic >>= λ e. elim e [
    | none ↦ done t.net
    | some x ↦ checked_gpa_p t.hvt ent.address ent.len >>= λ q.
        let (n, ret) = write t.net x.hostfd (load_bytes t.hvt.mem q ent.len) in
        if write_failed ret then exits 1 else if wrote_all ret ent.len then done n else exits 1
  ]

  -- `if (processed > 0) ring->ent_head += processed;`
  pub flush : NetTender Net → ℕ → NetTender Net
  flush t processed = if ltb 0 processed then advance t processed else t

  -- The inner loop of `process_ring_commits`, with `tail_snap`, `batch_start` and `processed`.
  pub batch : ℕ → ℕ → ℕ → ℕ → NetTender Net → Run (NetTender Net × ℕ)
  batch zero tail_snap batch_start processed t = out_of_fuel
  batch (suc f) tail_snap batch_start processed t =
      let ent = entry_at t.ring (add32 batch_start processed) in
      let written = write_entry t ent >>= λ n.
      batch f tail_snap batch_start (add32 processed 1) (record t { net = n }) in
      let skipped = batch f tail_snap batch_start (add32 processed 1) t in
      if add32 t.ring.ent_head processed == tail_snap
      then done (t, processed)
      else if ent.operation == hvt_ring_net_write
      then written
      else if ent.operation == hvt_ring_net_read
      then (process_read_entry (flush t processed) ent >>= λ t'. done (t', 0))
      else skipped

  -- The outer loop.
  pub drain : ℕ → ℕ → NetTender Net → Run (NetTender Net)
  drain zero tail_snap t = out_of_fuel
  drain (suc f) tail_snap t =
      let round = batch (suc f) tail_snap t.ring.ent_head 0 t >>= λ r.
      let (t', processed) = r in drain f tail_snap (flush t' processed) in
      if t.ring.ent_head == tail_snap then done t else round

  -- The fuel bounds the rounds of each loop.
  pub process_ring_commits : ℕ → NetTender Net → Run (NetTender Net)
  process_ring_commits fuel t = drain fuel t.ring.ent_tail t
