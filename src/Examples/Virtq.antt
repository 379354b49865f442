-- ===== src/Examples/Virtq.antt =====
-- A queue of four descriptors, with a chain of two around its end, and with all of them in use.
use solo.Base.{
  ◌^◌, if◌then◌else◌, ◌==◌, ◌%◌, ℕ, ◌+◌, ◌<◌, ◌≡◌, ◌⊎◌, refl, List, [], ◌∷◌, Run, done, ◌>>=◌, true,
  false, arith,
}
use solo.Virtq.{Virtq, virtq_add_descriptor_chain, add_descs, publish_chain}
use solo.Virtq.Written.{IsQueue}
use solo.Virtq.Chain.{Chained, virtq_add_descriptor_chain-Chained}
use solo.VirtioNet.{virtio_net_xmit_packet}
use solo.VirtioNet.Balanced.{Balanced}
use solo.VirtioNet.Transmit.{Sent, virtio_net_xmit_packet-Sent}

abbrev queue : Virtq
queue = record {
  num = 4;
  desc = λ q. record { addr = 0; len = 0; flags = 0; next = 0 };
  avail_idx = 65535;
  avail_ring = λ q. 0;
  bufs = λ q. record { contents = λ k. 0; len = 10 + q % 4; extra_flags = if q == 0 then 2 else 0 };
  bufs_at = 0x10000;
  num_avail = 3;
  last_used = 65535;
  next_avail = 3;
  uses_event_idx = false;
  last_notified_idx = 0;
}

queue-IsQueue : IsQueue queue
queue-IsQueue = record {
  exponent = 2;
  power = refl;
  max = omega arith;
  free = omega arith;
  avail_idx = omega arith;
  len = λ q. omega arith;
  extra_flags = λ q. ground arith;
}

virtq_add_descriptor_chain-Chained_example :
    ((3 < 2) × (virtq_add_descriptor_chain queue 3 2 ≡ done (queue, false)))
    ⊎ ((vq' : Virtq) × (virtq_add_descriptor_chain queue 3 2 ≡ done (vq', true))
        × Chained queue 3 2 vq')
virtq_add_descriptor_chain-Chained_example =
    virtq_add_descriptor_chain-Chained queue 3 2 queue-IsQueue (omega arith) (omega arith)

-- The links and the flags of the chain's descriptors, and the index of the available ring.
abbrev links : Run (List ℕ)
links = virtq_add_descriptor_chain queue 3 2 >>= λ q. done (
    (q.0.desc 3).next
    ∷ (q.0.desc 3).flags
    ∷ (q.0.desc 0).next
    ∷ (q.0.desc 0).flags
    ∷ q.0.avail_idx
    ∷ [])

links_test : links ≡ done (0 ∷ 1 ∷ 0 ∷ 2 ∷ 0 ∷ [])
unfolding virtq_add_descriptor_chain add_descs publish_chain
links_test = refl

-- Two packets are with the device, which gives the first back while the driver waits.
abbrev full : Virtq
full = record queue { avail_idx = 1; num_avail = 0; last_used = 65535; next_avail = 2 }

full-Balanced : Balanced full
full-Balanced = record {
  ok = record {
    exponent = 2;
    power = refl;
    max = omega arith;
    free = omega arith;
    avail_idx = omega arith;
    len = λ q. omega arith;
    extra_flags = λ q. ground arith;
  };
  two = omega arith;
  last_used = omega arith;
  balance = refl;
}

virtio_net_xmit_packet-Sent_example :
    Sent full 65535 0 0 0
      (5 ∷ 6 ∷ 7 ∷ [])
      (virtio_net_xmit_packet (2 ^ 16) 65535 0 0 0 full (5 ∷ 6 ∷ 7 ∷ []))
virtio_net_xmit_packet-Sent_example =
    virtio_net_xmit_packet-Sent (2 ^ 16) 65535 0 0 0 full (5 ∷ 6 ∷ 7 ∷ []) (omega arith)
      full-Balanced (omega arith, omega arith) (λ lt. ((omega arith, omega arith), omega arith))
      (omega arith)
