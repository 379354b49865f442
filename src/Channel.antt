-- ===== src/Channel.antt =====
-- bindings/muen/channel.c, writer.c and reader.c: the shared memory channels of Muen. The reader runs
-- beside a writer, so each of its accesses sees the channel at a moment of its own. The bytes behind the
-- header are a function from offsets. Counters are 64-bit numbers.
pub mod Store
pub mod Writer
pub mod Intact
use solo.Base.{
  ℕ, zero, suc, ◌+◌, ◌-◌, ◌*◌, ◌/◌, ◌%◌, ◌^◌, Bool, true, false, not, ◌&&◌, ◌||◌, ◌==◌, ◌!=◌, ltb,
  if◌then◌else◌, List, [], ◌∷◌, ◌++◌, length, take, Run, done, faults,
}
use solo.Hvt.{Memory}

abbrev pub shmstream20 : ℕ
shmstream20 = 0x487312b6b79a9b6d

abbrev pub muchannel_null_epoch : ℕ
muchannel_null_epoch = 0

abbrev pub sizeof_muchannel_header : ℕ
sizeof_muchannel_header = 64

-- `struct muchannel_header`, with `data`.
pub record Muchannel : Type 0 where
  pub transport : ℕ
  pub epoch : ℕ
  pub protocol : ℕ
  pub size : ℕ
  pub elements : ℕ
  pub wsc : ℕ
  pub wc : ℕ
  pub bytes : Memory

pub record MuchannelReader : Type 0 where
  pub epoch : ℕ
  pub protocol : ℕ
  pub size : ℕ
  pub elements : ℕ
  pub rc : ℕ

pub data ReaderResult : Type 0 where
  inactive : ReaderResult
  incompatible_interface : ReaderResult
  epoch_changed : ReaderResult
  no_data : ReaderResult
  overrun_detected : ReaderResult
  success : ReaderResult

unfoldable pub muen_channel_is_active : Muchannel → Bool
muen_channel_is_active c = c.epoch != muchannel_null_epoch

unfoldable pub muen_channel_deactivate : Muchannel → Muchannel
muen_channel_deactivate c = record c { epoch = muchannel_null_epoch }

unfoldable pub muen_channel_init_writer : Muchannel → ℕ → ℕ → ℕ → ℕ → Run Muchannel
muen_channel_init_writer c protocol element_size channel_size epoch =
    let data_size = (channel_size + 2 ^ 64 - sizeof_muchannel_header) % 2 ^ 64 in
    if element_size == 0
    then faults
    else done (record {
      transport = shmstream20;
      epoch = epoch;
      protocol = protocol;
      size = element_size;
      elements = data_size / element_size;
      wsc = 0;
      wc = 0;
      bytes = λ k. if ltb k data_size then 0 else c.bytes k;
    })

-- `memcpy` to the offset `pos`: the channel after the store of each byte.
unfoldable pub copy_bytes : Muchannel → ℕ → List ℕ → List Muchannel
copy_bytes c pos [] = []
copy_bytes c pos (b ∷ bs) =
    let c' = record c { bytes = λ o. if o == pos then b else c.bytes o } in
    c' ∷ copy_bytes c' (pos + 1) bs

-- The channel after the last of some stores.
unfoldable pub last_of : Muchannel → List Muchannel → Muchannel
last_of c [] = c
last_of c (d ∷ ds) = last_of d ds

-- The channel after each store of `muen_channel_write`, in their order: to `wsc`, to the bytes, and to `wc`. A copy
-- from beyond the element is undefined.
unfoldable pub muen_channel_write : Muchannel → List ℕ → Run (List Muchannel)
muen_channel_write c element =
    let size = c.size in
    let pos = c.wc % c.elements in
    let wc = (c.wc + 1) % 2 ^ 64 in
    let begun = record c { wsc = wc } in
    let copied = copy_bytes begun (pos * size) (take size element) in
    if c.elements == 0
    then faults
    else if ltb (length element) size
    then faults
    else done (begun ∷ (copied ++ (record (last_of begun copied) { wc = wc } ∷ [])))

unfoldable pub has_epoch_changed : Muchannel → MuchannelReader → Bool
has_epoch_changed c reader = reader.epoch != c.epoch

unfoldable pub synchronize : Muchannel → MuchannelReader → MuchannelReader × ReaderResult
synchronize c reader =
    if (reader.protocol == c.protocol) && (shmstream20 == c.transport)
    then (
      record reader { epoch = c.epoch; size = c.size; elements = c.elements; rc = 0 },
      epoch_changed,
    )
    else (reader, incompatible_interface)

unfoldable pub muen_channel_init_reader : ℕ → MuchannelReader
muen_channel_init_reader protocol = record {
  epoch = muchannel_null_epoch;
  protocol = protocol;
  size = 0;
  elements = 0;
  rc = 0;
}

-- The channel as the accesses of a read see it, in their order: up to the load of `wc`, at each byte of the
-- copy, at the load of `wsc`, and at the last test of the epoch.
pub record View : Type 0 where
  pub first : Muchannel
  pub byte : ℕ → Muchannel
  pub second : Muchannel
  pub last : Muchannel

-- `memcpy` from the offset `pos`, from the byte `k` on, with the bytes that are left.
unfoldable pub copy_element : View → ℕ → ℕ → ℕ → List ℕ
copy_element v pos k zero = []
copy_element v pos k (suc n) = (v.byte k).bytes (pos + k) ∷ copy_element v pos (k + 1) n

-- `wc - reader->rc`, and the same for `wsc`.
abbrev pub ahead : ℕ → ℕ → ℕ
ahead wc rc = (wc + 2 ^ 64 - rc) % 2 ^ 64

-- The branch of `muen_channel_read` that copies: the reader, the result and the copy.
unfoldable pub read_element : View → MuchannelReader → MuchannelReader × ReaderResult × List ℕ
read_element v reader =
    let pos = reader.rc % reader.elements * reader.size in
    let element = copy_element v pos 0 reader.size in
    let overrun = ltb reader.elements (ahead v.second.wsc reader.rc) in
    let rc = if overrun then reader.rc else (reader.rc + 1) % 2 ^ 64 in
    let result = if overrun then overrun_detected else success in
    if has_epoch_changed v.last reader
    then (record reader { epoch = 0; rc = rc }, epoch_changed, element)
    else (record reader { rc = rc }, result, element)

-- `muen_channel_read`, with an empty list where nothing is copied.
unfoldable pub muen_channel_read : View → MuchannelReader → MuchannelReader × ReaderResult × List ℕ
muen_channel_read v reader =
    if not (muen_channel_is_active v.first)
    then (record reader { epoch = muchannel_null_epoch }, inactive, [])
    else if (reader.epoch == muchannel_null_epoch) || has_epoch_changed v.first reader
    then (let (reader', result) = synchronize v.first reader in (reader', result, []))
    else if reader.rc == v.first.wc
    then (reader, no_data, [])
    else if ltb reader.elements (ahead v.first.wc reader.rc)
    then (reader, overrun_detected, [])
    else read_element v reader

unfoldable pub muen_channel_drain : Muchannel → MuchannelReader → MuchannelReader
muen_channel_drain c reader = record reader { rc = c.wc }

unfoldable pub muen_channel_has_pending_data : Muchannel → MuchannelReader → MuchannelReader × Bool
muen_channel_has_pending_data c reader =
    let stale = (reader.epoch == muchannel_null_epoch) || has_epoch_changed c reader in
    let (reader', result) = if stale then synchronize c reader else (reader, success) in
    if not (muen_channel_is_active c) then (reader, false) else (elim result [
      | incompatible_interface ↦ (reader', false)
      | _ ↦ (reader', ltb reader'.rc c.wc)
    ])
