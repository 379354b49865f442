-- ===== src/VirtioNet/Balanced.antt =====
-- bindings/virtio/virtio_net.c: the descriptors that a transmission takes back.
use solo.Base.{
  ℕ, zero, suc, ◌+◌, ◌*◌, ◌^◌, ◌≤◌, ◌<◌, ◌≡◌, inl, inr, refl, ◌∙◌, Bool-cases, false, ◌==◌, List,
  length, Run, done, arith,
}
use solo.Virtq.{Virtq, add16, sub16}
use solo.Virtq.Written.{IsQueue, num_bounds}
use solo.VirtioNet.{pkt_buffer_len, reclaim, fill_packet}

-- The queue after the loop.
abbrev pub reclaimed : Virtq → ℕ → Virtq
reclaimed q used = record q {
  last_used = used;
  num_avail = q.num_avail + 2 * sub16 used q.last_used;
}

reclaim_lem :
    (f used : ℕ) (q : Virtq)
    → used < 2 ^ 16
    → q.last_used < 2 ^ 16
    → sub16 used q.last_used < f
    → q.num_avail + 2 * sub16 used q.last_used < 2 ^ 16
    → reclaim f used q ≡ done (reclaimed q used)
unfolding reclaim
reclaim_lem zero used q small last enough room = absurd (omega (arith, enough))
reclaim_lem (suc f) used q small last enough room = elim (Bool-cases (q.last_used == used)) [
  | inl all ↦ rw all (both (ground (arith, all)) (ground (arith, all, last)))
  | inr more ↦ rw more (
      reclaim_lem f used q' small (omega arith) (fewer more)
        (ground (arith, more, room, small, last))
      ∙ both refl (ground (arith, more, room, small, last)))
]
  where
    q' : Virtq
    q' = record q { last_used = add16 q.last_used 1; num_avail = add16 q.num_avail 2 }

    fewer : (q.last_used == used) ≡ false → sub16 used (add16 q.last_used 1) < f
    fewer more = ground (arith, more, enough, small, last)

    stop : ℕ → ℕ → Run Virtq
    stop l n = done (record q { last_used = l; num_avail = n })

    both : {l l' n n' : ℕ} → l ≡ l' → n ≡ n' → stop l n ≡ stop l' n'
    both e g = cc

-- A queue that holds packets: the chains that the device has not given back are of two descriptors each, and
-- all other descriptors are free.
pub record Balanced (q : Virtq) : Type 0 where
  pub ok : IsQueue q
  pub two : 2 ≤ q.num
  pub last_used : q.last_used < 2 ^ 16
  pub balance : q.num_avail + 2 * sub16 q.avail_idx q.last_used ≡ q.num

-- The device gives back chains that it has been given.
abbrev pub IsUsed : Virtq → ℕ → Type 0
IsUsed q used = (used < 2 ^ 16) × (sub16 used q.last_used ≤ sub16 q.avail_idx q.last_used)

pub reclaim-Balanced :
    (f used : ℕ) (q : Virtq)
    → Balanced q
    → IsUsed q used
    → 2 ^ 16 ≤ f
    → (reclaim f used q ≡ done (reclaimed q used)) × Balanced (reclaimed q used)
reclaim-Balanced f used q b (small, given) enough = (
  reclaim_lem f used q small b.last_used (omega (arith, enough))
      (omega (arith, given, b.balance, num_bounds q b.ok)),
  record {
    ok = record {
      exponent = b.ok.exponent;
      power = b.ok.power;
      max = b.ok.max;
      free = omega (arith, given, b.balance);
      avail_idx = b.ok.avail_idx;
      len = b.ok.len;
      extra_flags = b.ok.extra_flags;
    };
    two = b.two;
    last_used = small;
    balance = omega (arith, given, b.balance, small, b.last_used, b.ok.avail_idx);
  },
)

pub fill_packet-IsQueue :
    (q : Virtq) (head : ℕ) (packet : List ℕ)
    → IsQueue q
    → length packet ≤ pkt_buffer_len
    → IsQueue (fill_packet q head packet)
unfolding fill_packet
fill_packet-IsQueue q head packet ok fits = record {
  exponent = ok.exponent;
  power = ok.power;
  max = ok.max;
  free = ok.free;
  avail_idx = ok.avail_idx;
  len = λ i. ground (arith, fits, ok.len i);
  extra_flags = λ i. ground (arith, ok.extra_flags i);
}
