-- ===== src/MuenNet/Deliver.antt =====
-- bindings/muen/muen-net.c: packets over a channel, from the one driver to the other.
use solo.Base.{
  ℕ, zero, suc, ◌+◌, ◌*◌, ◌%◌, ◌≤◌, ◌<◌, ◌≡◌, ◌≢◌, ◌⊎◌, refl, ap, ◌∙◌, Bool-cases, inl, inr, true,
  false, ◌==◌, ltb, ◌||◌, List, [], length, set, some, Run, done, arith,
}
use solo.Block.{solo5_r_ok}
use solo.VirtioNet.Devices.{solo5_r_again}
use solo.Channel.{
  View, copy_element, read_element, has_epoch_changed, muen_channel_is_active, ahead, Muchannel,
  MuchannelReader, ReaderResult, no_data, overrun_detected, epoch_changed, success,
  muen_channel_read,
}
use solo.Channel.Writer.{sent_bytes}
use solo.Channel.Intact.{
  Watching, view, InSync, Reads, nothing, behind, changed, reads, muen_channel_read-Reads,
}
use solo.MuenNet.Message.{messages, length-net_msg, message_of, length_of-net_msg, take-append}
use solo.MuenNet.{
  MuenNetDevice, packet_size, sizeof_net_msg, net_msg, acquired_device, solo5_net_read,
  take_message,
}

length-copy_element : (v : View) (pos k n : ℕ) → length (copy_element v pos k n) ≡ n
unfolding copy_element
length-copy_element v pos k zero = refl
length-copy_element v pos k (suc n) = ap suc (length-copy_element v pos (k + 1) n)

length-read_element :
    (v : View) (reader : MuchannelReader) → length (read_element v reader).2 ≤ reader.size
unfolding read_element
length-read_element v reader = elim (Bool-cases (has_epoch_changed v.last reader)) [
  | inl other ↦ rw other (omega (arith, copied))
  | inr same ↦ rw same (omega (arith, copied))
]
  where
    copied :
        length (copy_element v (reader.rc % reader.elements * reader.size) 0 reader.size)
        ≡ reader.size
    copied = length-copy_element v (reader.rc % reader.elements * reader.size) 0 reader.size

-- A read copies no more than the reader's size of an element.
length-read :
    (v : View) (reader : MuchannelReader)
    → muen_channel_is_active v.first ≡ true
    → ((reader.epoch == 0) || has_epoch_changed v.first reader) ≡ false
    → length (muen_channel_read v reader).2 ≤ reader.size
unfolding muen_channel_read
length-read v reader active current = elim (Bool-cases (reader.rc == v.first.wc)) [
  | inl end ↦ rw (active, current, end) (omega arith)
  | inr more ↦ elim (Bool-cases (ltb reader.elements (ahead v.first.wc reader.rc))) [
    | inl late ↦ rw (active, current, more, late) (omega arith)
    | inr timely ↦ rw (active, current, more, timely) (length-read_element v reader)
  ]
]

is_active :
    (c : Muchannel) {reader : MuchannelReader} → InSync c reader → muen_channel_is_active c ≡ true
unfolding muen_channel_is_active
is_active c sync = ground (arith, sync.active, sync.epoch)

is_current :
    (c : Muchannel) {reader : MuchannelReader}
    → InSync c reader
    → ((reader.epoch == 0) || has_epoch_changed c reader) ≡ false
unfolding has_epoch_changed
is_current c sync = ground (arith, sync.active, sync.epoch)

-- How a read of a device that has been acquired ends: the reader's position is the writer's, the writer has
-- overtaken it, the channel is a new one after the copy, or the next packet is there.
pub data Delivers (packets : ℕ → List ℕ) (w : Watching (messages packets))
    (devices : List MuenNetDevice) (handle : ℕ) (d : MuenNetDevice)
    (r : Run (List MuenNetDevice × ℕ × List ℕ)) : Type 0 where
  empty :
      d.net_rdr.rc ≡ w.at_first.channel.wc
      → r ≡ done (set devices handle d, solo5_r_again, [])
      → Delivers packets w devices handle d r
  overrun :
      (d.net_rdr.rc + d.net_rdr.elements < w.at_first.channel.wc)
        ⊎ (d.net_rdr.rc + d.net_rdr.elements < w.at_second.channel.wsc)
      → r ≡ done (set devices handle d, solo5_r_again, [])
      → Delivers packets w devices handle d r
  restarted :
      (rc : ℕ)
      → d.net_rdr.epoch ≢ w.last.epoch
      → r
        ≡ done (
          set devices handle (record d { net_rdr = record (d.net_rdr) { epoch = 0; rc = rc } }),
          solo5_r_again,
          [],
        )
      → Delivers packets w devices handle d r
  delivers :
      d.net_rdr.rc < w.at_first.channel.wc
      → r
        ≡ done (
          set devices handle (record d { net_rdr = record (d.net_rdr) { rc = d.net_rdr.rc + 1 } }),
          solo5_r_ok,
          packets d.net_rdr.rc,
        )
      → Delivers packets w devices handle d r

module _ (packets : ℕ → List ℕ) (w : Watching (messages packets)) (devices : List MuenNetDevice)
    (handle size : ℕ) (d : MuenNetDevice) (found : acquired_device devices handle ≡ some d)
    (small : (i : ℕ) → length (packets i) ≤ packet_size)
    (sync : InSync w.at_first.channel d.net_rdr) (msg : d.net_rdr.size ≡ sizeof_net_msg)
    (room : packet_size ≤ size) where
  enough : ltb size packet_size ≡ false
  enough = ground (arith, room)

  bounded : length (muen_channel_read (view w) d.net_rdr).2 ≤ sizeof_net_msg
  bounded = omega (
    arith,
    msg,
    length-read (view w) d.net_rdr (is_active w.at_first.channel sync)
        (is_current w.at_first.channel sync),
  )

  abbrev packet : List ℕ
  packet = packets d.net_rdr.rc

  abbrev after : MuchannelReader
  after = record (d.net_rdr) { rc = d.net_rdr.rc + 1 }

  abbrev full : List ℕ → MuchannelReader × ReaderResult × List ℕ
  full pkt = (after, success, pkt)

  whole :
      (element : List ℕ)
      → element ≡ sent_bytes (messages packets) d.net_rdr.rc 0 d.net_rdr.size
      → element ≡ net_msg packet
  whole element e =
      e
      ∙ ap (sent_bytes (messages packets) d.net_rdr.rc 0) msg
      ∙ message_of packets d.net_rdr.rc (small d.net_rdr.rc)

  short : ltb packet_size (length packet) ≡ false
  short = ground (arith, small d.net_rdr.rc)

  abbrev result : List ℕ → Run (List MuenNetDevice × ℕ × List ℕ)
  result bytes = done (set devices handle (record d { net_rdr = after }), solo5_r_ok, bytes)

  taken :
      {q : MuchannelReader × ReaderResult × List ℕ}
      → muen_channel_read (view w) d.net_rdr ≡ q
      → solo5_net_read devices (view w) handle size ≡ take_message devices handle d q
  unfolding solo5_net_read
  taken is = rw (solo5_net_read, found, enough) (ap (take_message devices handle d) is)

  fits :
      {q : MuchannelReader × ReaderResult × List ℕ}
      → muen_channel_read (view w) d.net_rdr ≡ q
      → ltb sizeof_net_msg (length q.2) ≡ false
  fits {q} e =
      ground (arith, bounded, ap (λ (q : MuchannelReader × ReaderResult × List ℕ). length q.2) e)

  unread :
      (reader : MuchannelReader) (result : ReaderResult) (pkt : List ℕ)
      → ltb sizeof_net_msg (length pkt) ≡ false
      → result ≢ success
      → take_message devices handle d (reader, result, pkt)
        ≡ done (set devices handle (record d { net_rdr = reader }), solo5_r_again, [])
  unfolding take_message
  unread reader success pkt le ne = absurd (ne refl)
  unread reader result pkt le ne = rw le refl

  filled : ltb (length (net_msg packet)) sizeof_net_msg ≡ false
  filled = ground (arith, length-net_msg packet (small d.net_rdr.rc))

  read_one :
      ltb sizeof_net_msg (length (net_msg packet)) ≡ false
      → take_message devices handle d (after, success, net_msg packet)
        ≡ done (set devices handle (record d { net_rdr = after }), solo5_r_ok, packet)
  unfolding take_message
  read_one le =
      rw (le, filled, length_of-net_msg packet (small d.net_rdr.rc), short)
        (ap result (take-append packet _))

  answered :
      (q : MuchannelReader × ReaderResult × List ℕ)
      → muen_channel_read (view w) d.net_rdr ≡ q
      → Reads w d.net_rdr q
      → Delivers packets w devices handle d (solo5_net_read devices (view w) handle size)
  answered q e (nothing end is) =
      empty end (taken (e ∙ is) ∙ unread _ no_data _ (fits (e ∙ is)) (grind arith))
  answered q e (behind element late is) =
      overrun late
        (taken (e ∙ is) ∙ unread _ overrun_detected element (fits (e ∙ is)) (grind arith))
  answered q e (changed rc element new is) =
      restarted rc new
        (taken (e ∙ is) ∙ unread _ epoch_changed element (fits (e ∙ is)) (grind arith))
  answered q e (reads _ fresh _ is) =
      let whole_packet = e ∙ is ∙ ap full (whole _ refl) in
      delivers fresh (taken whole_packet ∙ read_one (fits whole_packet))

  answer : Delivers packets w devices handle d (solo5_net_read devices (view w) handle size)
  answer =
      answered (muen_channel_read (view w) d.net_rdr) refl
        (muen_channel_read-Reads (messages packets) w d.net_rdr sync)
