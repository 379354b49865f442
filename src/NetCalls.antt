-- ===== src/NetCalls.antt =====
-- tenders/hvt/hvt_module_net.c: the hypercalls of the network device, for guests that do not use the
-- ring and for frames that do not fit a slot of it.
pub mod Effects
use solo.Base.{
  ℕ, ◌+◌, if◌then◌else◌, [], ◌∷◌, length, none, some, Run, done, exits, ◌>>=◌, true, false, List,
  not,
}
use solo.Mft.{mft_get_by_index, mft_dev_net_basic}
use solo.Hvt.{Memory, checked_gpa_p, load_bytes, store_bytes, load64, store64, store32}
use solo.Ring.{
  Taps, TapRead, frame, eagain, failed, NetTender, write_failed, wrote_all, r_ok, r_again, r_einval,
}

-- `struct hvt_hc_net_write` and `struct hvt_hc_net_read`: the offsets of their fields.
abbrev pub data_at : ℕ → ℕ
data_at p = p + 8

abbrev pub len_at : ℕ → ℕ
len_at p = p + 16

abbrev pub ret_at : ℕ → ℕ
ret_at p = p + 24

abbrev pub sizeof_hc_net : ℕ
sizeof_hc_net = 32

-- Guest memory and the tap devices after a hypercall that returns `r`.
abbrev pub finish : {N : Type 0} → NetTender N → Memory → N → ℕ → ℕ → NetTender N
finish t m n p r = record t { hvt = record (t.hvt) { mem = store32 m (ret_at p) r }; net = n }

module _ (taps : Taps) where
  open taps use {Net, write, read}

  unfoldable pub hypercall_net_write : NetTender Net → ℕ → Run (NetTender Net)
  hypercall_net_write t gpa = checked_gpa_p t.hvt gpa sizeof_hc_net >>= λ p.
      let m = t.hvt.mem in
      mft_get_by_index t.host_mft (load64 m p) mft_dev_net_basic >>= λ e. elim e [
        | none ↦ done (finish t m t.net p r_einval)
        | some x ↦ checked_gpa_p t.hvt (load64 m (data_at p)) (load64 m (len_at p)) >>= λ q.
            let (n, ret) = write t.net x.hostfd (load_bytes m q (load64 m (len_at p))) in
            if write_failed ret
            then exits 1
            else if not (wrote_all ret (load64 m (len_at p)))
            then exits 1
            else done (finish t m n p r_ok)
      ]

  -- The branches on the result of `read`, with the argument at `p` and the buffer at `q`.
  unfoldable pub answer : NetTender Net → ℕ → ℕ → Net → TapRead → Run (NetTender Net)
  answer t p q n (frame []) = done (finish t t.hvt.mem n p r_again)
  answer t p q n (frame (b ∷ bs)) =
      let m = store_bytes t.hvt.mem q (b ∷ bs) in
      done (finish t (store64 m (len_at p) (length (b ∷ bs))) n p r_ok)
  answer t p q n eagain = done (finish t t.hvt.mem n p r_again)
  answer t p q n failed = exits 1

  unfoldable pub hypercall_net_read : NetTender Net → ℕ → Run (NetTender Net)
  hypercall_net_read t gpa = checked_gpa_p t.hvt gpa sizeof_hc_net >>= λ p.
      let m = t.hvt.mem in
      mft_get_by_index t.host_mft (load64 m p) mft_dev_net_basic >>= λ e. elim e [
        | none ↦ done (finish t m t.net p r_einval)
        | some x ↦ checked_gpa_p t.hvt (load64 m (data_at p)) (load64 m (len_at p)) >>= λ q.
            let (n, got) = read t.net x.hostfd (load64 m (len_at p)) in answer t p q n got
      ]
