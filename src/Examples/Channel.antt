-- ===== src/Examples/Channel.antt =====
-- A channel of three elements of two bytes; the writer begins a fourth while the second is read.
use solo.Base.{ℕ, ◌+◌, ◌*◌, ◌%◌, ◌≡◌, refl, List, [], ◌∷◌, done, arith}
use solo.Channel.{
  Muchannel, MuchannelReader, ReaderResult, success, shmstream20, muen_channel_read, last_of,
  muen_channel_write, read_element, copy_element, muen_channel_is_active, has_epoch_changed,
}
use solo.Channel.Store.{Trace, Writer, Inv, InPhase, idle, writing, here, step, begin}
use solo.Channel.Writer.{muen_channel_write-Steps}
use solo.Channel.Intact.{Watching, view}

-- The byte `k` of the element `i`.
abbrev numbers : ℕ → ℕ → ℕ
numbers i k = i % 3 * 2 + k

abbrev full : Muchannel
full = record {
  transport = shmstream20;
  epoch = 5;
  protocol = 9;
  size = 2;
  elements = 3;
  wsc = 3;
  wc = 3;
  bytes = λ o. o;
}

full-InPhase : InPhase numbers full idle
unfolding InPhase
full-InPhase = refl

full-Inv : Inv numbers (record { channel = full; phase = idle })
full-Inv = record {
  some = omega arith;
  small = omega arith;
  phase = full-InPhase;
  intact = λ i lt near k small. refl;
}

muen_channel_write-Steps_example :
    (cs : List Muchannel) × (muen_channel_write full (0 ∷ 1 ∷ []) ≡ done cs)
    × Trace numbers
        (record { channel = full; phase = idle })
        cs
        (record { channel = last_of full cs; phase = idle })
    × Inv numbers (record { channel = last_of full cs; phase = idle })
    × ((last_of full cs).wc ≡ 4)
muen_channel_write-Steps_example = muen_channel_write-Steps numbers full full-Inv (omega arith)

abbrev begun : Writer
begun = record { channel = record full { wsc = 4 }; phase = writing 0 }

abbrev watching : Watching numbers
watching = record {
  at_first = record { channel = full; phase = idle };
  at_byte = λ k. begun;
  at_second = begun;
  last = begun.channel;
  inv = full-Inv;
  to_byte = λ _ k. step (begin refl (omega arith)) here;
  to_second = λ _ k. here;
}

abbrev reader : MuchannelReader
reader = record { epoch = 5; protocol = 9; size = 2; elements = 3; rc = 1 }

abbrev second_read : MuchannelReader × ReaderResult × List ℕ
second_read = muen_channel_read (view watching) reader

second_read_test : second_read ≡ (record reader { rc = 2 }, success, 2 ∷ 3 ∷ [])
unfolding muen_channel_read muen_channel_is_active has_epoch_changed read_element copy_element
second_read_test = refl
