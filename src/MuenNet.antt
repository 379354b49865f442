-- ===== src/MuenNet.antt =====
-- bindings/muen/muen-net.c: network devices over pairs of channels. A read takes its channel as a View of the shared
-- memory. What the subject's information says of the channels' memory, and the bytes of the MAC
-- address, are arguments.
pub mod Message
pub mod Send
pub mod Deliver
use solo.Base.{
  ℕ, zero, suc, ◌+◌, ◌-◌, ◌*◌, ◌/◌, ◌%◌, ◌^◌, Bool, true, false, not, ◌&&◌, ◌||◌, ◌==◌, ◌!=◌, ltb,
  leb, if◌then◌else◌, List, [], ◌∷◌, ◌++◌, length, take, replicate, get_elem?, set, Option, none,
  some, Run, done, faults, ◌>>=◌, ◌>>◌, read_at, c_assert,
}
use solo.Mft.{Mft, mft_get_by_name, mft_dev_net_basic, mft_max_entries}
use solo.Block.{solo5_r_ok, solo5_r_einval}
use solo.VirtioNet.Devices.{solo5_r_again}
use solo.Channel.{
  Muchannel, MuchannelReader, ReaderResult, success, View, muen_channel_init_writer,
  muen_channel_init_reader, last_of, muen_channel_write, muen_channel_read,
  muen_channel_has_pending_data,
}

abbrev pub packet_size : ℕ
packet_size = 1514

abbrev pub sizeof_net_msg : ℕ
sizeof_net_msg = 1516

abbrev pub muennet_proto : ℕ
muennet_proto = 0x7ade5c549b08e814

-- `struct net_msg`, as it is written: the bytes, zeros up to the packet size, and the length.
abbrev pub net_msg : List ℕ → List ℕ
net_msg buf =
    buf
    ++ (replicate (packet_size - length buf) 0
        ++ (length buf % 2 ^ 8 ∷ length buf / 2 ^ 8 % 2 ^ 8 ∷ []))

pub record MuenNetDevice : Type 0 where
  pub acquired : Bool
  pub mac_addr : List ℕ
  pub net_in : Option Muchannel
  pub net_out : Option Muchannel
  pub net_rdr : MuchannelReader

-- The device of a handle that has been acquired.
unfoldable pub acquired_device : List MuenNetDevice → ℕ → Option MuenNetDevice
acquired_device devices handle =
    if leb mft_max_entries handle then none else (elim (get_elem? devices handle) [
      | none ↦ none
      | some d ↦ if d.acquired then some d else none
    ])

-- The result has the output channel's memory after each store, too.
unfoldable pub solo5_net_write :
    List MuenNetDevice → ℕ → List ℕ → Run (List MuenNetDevice × List Muchannel × ℕ)
solo5_net_write devices handle buf = elim (acquired_device devices handle) [
  | none ↦ done (devices, [], solo5_r_einval)
  | some d ↦
      if ltb packet_size (length buf)
      then done (devices, [], solo5_r_einval)
      else (read_at d.net_out >>= λ c. muen_channel_write c (net_msg buf) >>= λ cs.
          done (set devices handle (record d { net_out = some (last_of c cs) }), cs, solo5_r_ok))
]

-- A byte of the message on the stack.
abbrev pub byte_at : List ℕ → ℕ → ℕ
byte_at [] k = 0
byte_at (x ∷ xs) zero = x
byte_at (x ∷ xs) (suc k) = byte_at xs k

abbrev pub length_of : List ℕ → ℕ
length_of pkt = byte_at pkt packet_size + 2 ^ 8 * byte_at pkt (packet_size + 1)

-- What `solo5_net_read` makes of what the channel answered. A copy of an element beyond the message, one that
-- leaves the length unset, and a copy from beyond the data are undefined. The result has the bytes that `buf` and `*read_size` show.
unfoldable pub take_message :
    List MuenNetDevice
    → ℕ
    → MuenNetDevice
    → MuchannelReader × ReaderResult × List ℕ
    → Run (List MuenNetDevice × ℕ × List ℕ)
take_message devices handle d (reader, result, pkt) =
    let devices' = set devices handle (record d { net_rdr = reader }) in
    if ltb sizeof_net_msg (length pkt) then faults else (elim result [
      | success ↦
          if ltb (length pkt) sizeof_net_msg || ltb packet_size (length_of pkt)
          then faults
          else done (devices', solo5_r_ok, take (length_of pkt) pkt)
      | _ ↦ done (devices', solo5_r_again, [])
    ])

-- With the view that the read has of `net_in`.
unfoldable pub solo5_net_read :
    List MuenNetDevice → View → ℕ → ℕ → Run (List MuenNetDevice × ℕ × List ℕ)
solo5_net_read devices v handle size = elim (acquired_device devices handle) [
  | none ↦ done (devices, solo5_r_einval, [])
  | some d ↦
      if ltb size packet_size
      then done (devices, solo5_r_einval, [])
      else take_message devices handle d (muen_channel_read v d.net_rdr)
]

unfoldable pub muen_net_pending_data :
    List MuenNetDevice → Muchannel → ℕ → List MuenNetDevice × Bool
muen_net_pending_data devices c handle = elim (acquired_device devices handle) [
  | none ↦ (devices, false)
  | some d ↦
      let (reader, pending) = muen_channel_has_pending_data c d.net_rdr in
      (set devices handle (record d { net_rdr = reader }), pending)
]

-- `struct muen_resource_type`, as far as the driver looks at it, with the memory as a channel.
pub record MuenResource : Type 0 where
  pub is_channel : Bool
  pub is_writable : Bool
  pub size : ℕ
  pub channel : Muchannel

-- The characters before the NUL, as `snprintf` counts them for `%s`.
unfoldable pub string_length : List ℕ → Run ℕ
string_length [] = faults
string_length (a ∷ s) = if a == 0 then done 0 else (string_length s >>= λ n. done (n + 1))

-- `none` for `false`, and otherwise the device. The four characters are those of `|out`.
unfoldable pub muen_net_dev_init :
    ℕ
    → List ℕ
    → Option MuenResource
    → Option MuenResource
    → List ℕ
    → MuenNetDevice
    → Run (Option MuenNetDevice)
muen_net_dev_init epoch mac chan_out chan_in name device =
    c_assert (not device.acquired)
    >> (string_length name >>= λ n. c_assert (ltb (n + 4) 64))
    >> (elim chan_out [
      | none ↦ done none
      | some o ↦ if not o.is_channel || not o.is_writable then done none else (elim chan_in [
        | none ↦ done none
        | some i ↦
            if not i.is_channel
            then done none
            else (muen_channel_init_writer o.channel muennet_proto sizeof_net_msg o.size epoch
                >>= λ c. done (
                    some (record device {
                      mac_addr = mac;
                      net_in = some i.channel;
                      net_out = some c;
                      net_rdr = muen_channel_init_reader muennet_proto;
                    })))
      ])
    ])

-- `none` is SOLO5_R_EINVAL; otherwise the devices and the handle.
unfoldable pub solo5_net_acquire :
    ℕ
    → List ℕ
    → Option MuenResource
    → Option MuenResource
    → Mft
    → List MuenNetDevice
    → List ℕ
    → Run (Option (List MuenNetDevice × ℕ))
solo5_net_acquire epoch mac chan_out chan_in m devices name =
    mft_get_by_name m name mft_dev_net_basic >>= λ r. elim r [
      | none ↦ done none
      | some (handle, _) ↦ read_at (get_elem? devices handle) >>= λ d.
          if d.acquired
          then done none
          else (muen_net_dev_init epoch mac chan_out chan_in name d >>= λ o. elim o [
            | none ↦ done none
            | some d' ↦ done (some (set devices handle (record d' { acquired = true }), handle))
          ])
    ]

unfoldable pub net_init : List MuenNetDevice → List MuenNetDevice
net_init [] = []
net_init (d ∷ ds) = record d { acquired = false; net_in = none; net_out = none } ∷ net_init ds
