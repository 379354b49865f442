-- ===== src/NetCalls/Effects.antt =====
-- tenders/hvt/hvt_module_net.c: what the network hypercalls may change.
use solo.Mft.{MftEntry, mft_dev_net_basic}
use solo.Hvt.{load_bytes, Memory, load64, store_bytes, store64, store32, le_bytes}
use solo.Mft.Lookup.{Holds, IsUsable, mft_get_by_index-Holds}
use solo.Ring.{
  write_failed, wrote_all, Taps, TapRead, frame, eagain, failed, NetTender, frame_bytes, r_ok,
  r_again, r_einval,
}
use solo.NetCalls.{
  hypercall_net_write, data_at, len_at, ret_at, sizeof_hc_net, finish, hypercall_net_read, answer,
}
use solo.Base.{
  List, none, some, true, sym, ◌∙◌, Bool-cases, ◌%◌, inl, inr, ℕ, ◌+◌, ◌^◌, ◌≤◌, ◌<◌, ◌≡◌, ◌⊎◌, inl,
  inr, refl, ◌∙◌, Option-cases, ReturnsOrExits, stops, returns, arith, [], ◌∷◌, length,
}
use solo.Hvt.Memory.{checked_gpa_p-cases, store_bytes-outside}

-- The bytes that a call may change: its results, and for a read those of the buffer, which is inside
-- guest memory.
abbrev pub Results : ℕ → ℕ → Type 0
Results p k = (len_at p ≤ k) × (k < ret_at p + 4)

abbrev pub Buffer : {N : Type 0} → NetTender N → ℕ → ℕ → Type 0
Buffer t p k =
    (load64 t.hvt.mem (data_at p) ≤ k)
    × (k < load64 t.hvt.mem (data_at p) + load64 t.hvt.mem (len_at p))
    × (k < t.hvt.guest_mem_size)

pub record Reads {N : Type 0} (t : NetTender N) (p : ℕ) (t' : NetTender N) : Type 0 where
  pub mem : (k : ℕ) → (Results p k → ⊥) → (Buffer t p k → ⊥) → t'.hvt.mem k ≡ t.hvt.mem k
  pub ring : t'.ring ≡ t.ring
  pub mft : t'.host_mft ≡ t.host_mft
  pub size : t'.hvt.guest_mem_size ≡ t.hvt.guest_mem_size

kept_store32 : (m : Memory) (a v k : ℕ) → (k < a) ⊎ (a + 4 ≤ k) → store32 m a v k ≡ m k
unfolding store32
kept_store32 m a v k h = store_bytes-outside (le_bytes 4 v) m a k h

kept_store64 : (m : Memory) (a v k : ℕ) → (k < a) ⊎ (a + 8 ≤ k) → store64 m a v k ≡ m k
unfolding store64
kept_store64 m a v k h = store_bytes-outside (le_bytes 8 v) m a k h

only_results :
    {N : Type 0} (t : NetTender N) (n : N) (p r : ℕ) → Reads t p (finish t t.hvt.mem n p r)
only_results t n p r = record {
  mem = λ k out buf. kept_store32 t.hvt.mem (ret_at p) r k (ground (arith, out));
  ring = refl;
  mft = refl;
  size = refl;
}

module _ (taps : Taps) where
  open taps use {Net, read}

  answer-Reads :
      (t : NetTender Net) (p : ℕ) (n : Net) (got : TapRead)
      → length (frame_bytes got) ≤ load64 t.hvt.mem (len_at p)
      → load64 t.hvt.mem (data_at p) + load64 t.hvt.mem (len_at p) < t.hvt.guest_mem_size
      → ReturnsOrExits (Reads t p) (answer taps t p (load64 t.hvt.mem (data_at p)) n got)
  unfolding answer
  answer-Reads t p n (frame []) fit inside =
      returns (finish t t.hvt.mem n p r_again) refl (only_results t n p r_again)
  answer-Reads t p n eagain fit inside =
      returns (finish t t.hvt.mem n p r_again) refl (only_results t n p r_again)
  answer-Reads t p n failed fit inside = stops refl
  answer-Reads t p n (frame (b ∷ bs)) fit inside =
      returns (finish t (store64 m (len_at p) (length (b ∷ bs))) n p r_ok) refl (record {
        mem = λ k out buf.
            kept_store32 (store64 m (len_at p) (length (b ∷ bs))) (ret_at p) r_ok k
              (ground (arith, out))
            ∙ kept_store64 m (len_at p) (length (b ∷ bs)) k (ground (arith, out))
            ∙ store_bytes-outside (b ∷ bs) t.hvt.mem (load64 t.hvt.mem (data_at p)) k
                (ground (arith, buf, fit, inside));
        ring = refl;
        mft = refl;
        size = refl;
      })
    where
      m : Memory
      m = store_bytes t.hvt.mem (load64 t.hvt.mem (data_at p)) (b ∷ bs)

  -- A network read that returns to the guest changes in guest memory only its results, and bytes of the
  -- requested buffer that are inside guest memory; the ring and the manifest stay as they are. The only
  -- other outcome is that the tender stops with status 1. The tap devices give no more bytes than
  -- they are asked for.
  pub hypercall_net_read-Reads :
      (t : NetTender Net) (gpa : ℕ)
      → IsUsable t.host_mft
      → t.hvt.guest_mem_size < 2 ^ 64
      → ((n : Net) (fd len : ℕ) → length (frame_bytes (read n fd len).1) ≤ len)
      → ReturnsOrExits (Reads t gpa) (hypercall_net_read taps t gpa)
  unfolding hypercall_net_read
  hypercall_net_read-Reads t gpa usable small fits =
      let (o, found, holds) =
        mft_get_by_index-Holds t.host_mft (load64 m gpa) mft_dev_net_basic usable in
      elim (checked_gpa_p-cases t.hvt gpa sizeof_hc_net small) [
        | inr (_, bad) ↦ stops (rw bad refl)
        | inl (_, good) ↦ elim (Option-cases o) [
          | inl nothing ↦
              returns (finish t m t.net gpa r_einval) (rw (good, found, nothing) refl)
                (only_results t t.net gpa r_einval)
          | inr (x, e) ↦
              elim (checked_gpa_p-cases t.hvt (load64 m (data_at gpa)) (load64 m (len_at gpa))
                small) [
                  | inr (_, bad) ↦ stops (rw (good, found, e, bad) refl)
                  | inl (inside, fine) ↦
                      rw (good, found, e, fine)
                        (answer-Reads t gpa (read t.net x.hostfd (load64 m (len_at gpa))).0
                          (read t.net x.hostfd (load64 m (len_at gpa))).1
                          (fits t.net x.hostfd (load64 m (len_at gpa))) inside)
                ]
        ]
      ]
    where
      m : Memory
      m = t.hvt.mem

-- What a write has done: without a device of that handle nothing but `ret` has changed; with one, the
-- device has been given the bytes of the buffer, and has taken all of them.
pub data Sends (taps : Taps) (t : NetTender taps.Net) (p : ℕ) : NetTender taps.Net → Type 0 where
  refused :
      {t' : NetTender taps.Net}
      → ((x : MftEntry) → Holds t.host_mft (load64 t.hvt.mem p % 2 ^ 32) mft_dev_net_basic x → ⊥)
      → t' ≡ finish t t.hvt.mem t.net p r_einval
      → Sends taps t p t'
  sent :
      {t' : NetTender taps.Net} (x : MftEntry) (bytes : List ℕ)
      → Holds t.host_mft (load64 t.hvt.mem p % 2 ^ 32) mft_dev_net_basic x
      → bytes ≡ load_bytes t.hvt.mem (load64 t.hvt.mem (data_at p)) (load64 t.hvt.mem (len_at p))
      → wrote_all (taps.write t.net x.hostfd bytes).1 (load64 t.hvt.mem (len_at p)) ≡ true
      → t' ≡ finish t t.hvt.mem (taps.write t.net x.hostfd bytes).0 p r_ok
      → Sends taps t p t'

module _ (taps : Taps) where
  open taps use {Net, write}

  -- A network write that returns to the guest has answered SOLO5_R_EINVAL and left the devices alone, if
  -- no network device has the handle, and otherwise has handed the device exactly the bytes of the
  -- buffer, once, and the device has taken all of them. The only other outcome is that the tender
  -- stops with status 1.
  hypercall_net_write-Sends :
      (t : NetTender Net) (gpa : ℕ)
      → IsUsable t.host_mft
      → t.hvt.guest_mem_size < 2 ^ 64
      → ReturnsOrExits (Sends taps t gpa) (hypercall_net_write taps t gpa)
  unfolding hypercall_net_write
  hypercall_net_write-Sends t gpa usable small =
      let (o, found, holds) =
        mft_get_by_index-Holds t.host_mft (load64 m gpa) mft_dev_net_basic usable in
      elim (checked_gpa_p-cases t.hvt gpa sizeof_hc_net small) [
        | inr (_, bad) ↦ stops (rw bad refl)
        | inl (_, good) ↦ elim (Option-cases o) [
          | inl nothing ↦
              returns (finish t m t.net gpa r_einval) (rw (good, found, nothing) refl)
                (refused (λ x h. absurd (none_some (sym nothing ∙ (holds x).1 h))) refl)
          | inr (x, e) ↦ elim (checked_gpa_p-cases t.hvt (load64 m (data_at gpa)) len small) [
            | inr (_, bad) ↦ stops (rw (good, found, e, bad) refl)
            | inl (inside, fine) ↦ elim (Bool-cases (write_failed (write t.net x.hostfd bytes).1)) [
              | inl lost ↦ stops (rw (good, found, e, fine, lost) refl)
              | inr went ↦ elim (Bool-cases (wrote_all (write t.net x.hostfd bytes).1 len)) [
                | inr short ↦ stops (rw (good, found, e, fine, went, short) refl)
                | inl whole ↦
                    returns (finish t m (write t.net x.hostfd bytes).0 gpa r_ok)
                      (rw (good, found, e, fine, went, whole) refl)
                      (sent x bytes ((holds x).0 e) refl whole refl)
              ]
            ]
          ]
        ]
      ]
    where
      m : Memory
      m = t.hvt.mem

      len : ℕ
      len = load64 m (len_at gpa)

      bytes : List ℕ
      bytes = load_bytes m (load64 m (data_at gpa)) len

      none_some : {x : MftEntry} → none ≡ some x → ⊥
      none_some e = ground (arith, e)
