-- ===== src/Examples/Calls.antt =====
-- A network read of two bytes, from tap devices that cut a frame to the size of the buffer.
use solo.Base.{ℕ, ◌+◌, ◌^◌, [], ◌∷◌, take, length, pos, ReturnsOrExits, arith}
use solo.Hvt.{Memory, store64}
use solo.Ring.{Taps, frame, NetTender}
use solo.NetCalls.{hypercall_net_read}
use solo.NetCalls.Effects.{Reads, hypercall_net_read-Reads}
use solo.Examples.{sample, sample-IsUsable}
use solo.Examples.Program.{length-take_le}

abbrev cutting : Taps
cutting = record {
  Net = ℕ;
  write = λ n fd bytes. (n, pos (length bytes));
  read = λ n fd len. (n + 1, frame (take len (1 ∷ 2 ∷ 3 ∷ [])));
}

abbrev request : Memory
request = store64 (store64 (store64 (λ k. 0) 4096 2) 4104 8192) 4112 2

abbrev caller : NetTender ℕ
caller = record {
  hvt = record { mem = request; guest_mem_size = 2 ^ 20 };
  host_mft = sample;
  net = 0;
  ring = record {
    ent_tail = 0;
    com_head = 0;
    ent_head = 0;
    com_tail = 0;
    needs_kick = 0;
    entries = λ k. record { operation = 0; handle = 0; address = 0; len = 0; id = 0 };
    commits = λ k. record { id = 0; ret = 0; len = 0 };
  };
}

hypercall_net_read-Reads_example :
    ReturnsOrExits (Reads caller 4096) (hypercall_net_read cutting caller 4096)
hypercall_net_read-Reads_example =
    hypercall_net_read-Reads cutting caller 4096 sample-IsUsable (omega arith)
      (λ n fd len. length-take_le len (1 ∷ 2 ∷ 3 ∷ []))
