-- ===== src/Ring/Serve.antt =====
-- The ring's contract, with no batches: the pending entries are served one at a time, in order.
use solo.Base.{ℕ, zero, suc, ◌+◌, ◌-◌, ◌^◌, ◌%◌, ◌==◌, if◌then◌else◌, Run, done, ◌>>=◌}
use solo.Ring.{
  Ring, Taps, NetTender, advance, entry_at, process_read_entry, write_entry, hvt_ring_net_write,
  hvt_ring_net_read,
}

-- The number of entries that are published and not consumed.
abbrev pub pending : Ring → ℕ
pending r = (r.ent_tail + 2 ^ 32 - r.ent_head) % 2 ^ 32

module _ (taps : Taps) where
  open taps use {Net}

  -- One entry, at `ent_head`.
  unfoldable pub serve_one : NetTender Net → Run (NetTender Net)
  serve_one t =
      let ent = entry_at t.ring t.ring.ent_head in
      if ent.operation == hvt_ring_net_write
      then (write_entry taps t ent >>= λ n. done (advance (record t { net = n }) 1))
      else if ent.operation == hvt_ring_net_read
      then process_read_entry taps t ent
      else done (advance t 1)

  -- The next `n` entries.
  unfoldable pub serve : ℕ → NetTender Net → Run (NetTender Net)
  serve zero t = done t
  serve (suc n) t = serve_one t >>= λ t'. serve n t'
