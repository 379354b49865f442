-- ===== src/Examples/Muen.antt =====
-- A network device of Muen with channels of two messages. The other subject puts its third packet while the second is read.
use solo.Base.{ℕ, ◌+◌, ◌*◌, ◌/◌, ◌%◌, ◌<◌, ◌≡◌, refl, ap, ◌∙◌, true, List, [], ◌∷◌, some, arith}
use solo.Channel.{Muchannel, MuchannelReader, shmstream20}
use solo.Channel.Store.{Writer, Inv, InPhase, idle, writing, here, step, begin}
use solo.Channel.Intact.{Watching}
use solo.MuenNet.{MuenNetDevice, sizeof_net_msg, muennet_proto, net_msg, byte_at}
use solo.MuenNet.Message.{messages}

abbrev packets : ℕ → List ℕ
packets i = i % 256 ∷ 8 ∷ []

-- Both slots have been written.
abbrev channel : Muchannel
channel = record {
  transport = shmstream20;
  epoch = 5;
  protocol = muennet_proto;
  size = sizeof_net_msg;
  elements = 2;
  wsc = 2;
  wc = 2;
  bytes = λ o. byte_at (net_msg (packets (o / sizeof_net_msg))) (o % sizeof_net_msg);
}

channel-InPhase : InPhase (messages packets) channel idle
unfolding InPhase
channel-InPhase = refl

slot : (i k : ℕ) → i < 2 → k < sizeof_net_msg → (i % 2 * sizeof_net_msg + k) / sizeof_net_msg ≡ i
slot i k lt small = omega (arith, lt, small)

offset : (i k : ℕ) → k < sizeof_net_msg → (i % 2 * sizeof_net_msg + k) % sizeof_net_msg ≡ k
offset i k small = omega (arith, small)

channel-Inv : Inv (messages packets) (record { channel = channel; phase = idle })
channel-Inv = record {
  some = omega arith;
  small = omega arith;
  phase = channel-InPhase;
  intact = λ i lt near k small.
      ap (λ (n : ℕ). byte_at (net_msg (packets n)) ((i % 2 * sizeof_net_msg + k) % sizeof_net_msg))
        (slot i k lt small)
      ∙ ap (byte_at (net_msg (packets i))) (offset i k small);
}

abbrev begun : Writer
begun = record { channel = record channel { wsc = 3 }; phase = writing 0 }

abbrev watching : Watching (messages packets)
watching = record {
  at_first = record { channel = channel; phase = idle };
  at_byte = λ k. begun;
  at_second = begun;
  last = begun.channel;
  inv = channel-Inv;
  to_byte = λ _ k. step (begin refl (omega arith)) here;
  to_second = λ _ k. here;
}

abbrev reader : MuchannelReader
reader = record { epoch = 5; protocol = muennet_proto; size = sizeof_net_msg; elements = 2; rc = 1 }

abbrev device : MuenNetDevice
device = record {
  acquired = true;
  mac_addr = 2 ∷ 0 ∷ 0 ∷ 0 ∷ 0 ∷ 1 ∷ [];
  net_in = some channel;
  net_out = some channel;
  net_rdr = reader;
}

abbrev devices : List MuenNetDevice
devices = device ∷ []
