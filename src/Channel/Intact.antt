-- ===== src/Channel/Intact.antt =====
-- bindings/muen/reader.c: what a read gives beside a writer that goes on writing.
use solo.Base.{
  ℕ, zero, suc, ◌+◌, ◌-◌, ◌*◌, ◌%◌, ◌^◌, ◌≤◌, ◌<◌, ◌≡◌, ◌≢◌, ◌⊎◌, inl, inr, refl, sym, ap, ◌∙◌,
  subst, Bool-cases, true, false, ◌||◌, ◌==◌, ◌!=◌, ltb, if◌then◌else◌, List, [], ◌∷◌, arith,
}
use solo.Channel.{
  Muchannel, MuchannelReader, ReaderResult, epoch_changed, no_data, overrun_detected, success, View,
  copy_element, ahead, read_element, muen_channel_read, has_epoch_changed, muen_channel_is_active,
}
use solo.Channel.Store.{Writer, Steps, Inv, Later, Steps-Inv, Steps-Later, InPhase-le}
use solo.Channel.Writer.{sent_bytes}

-- A writer at the moments of a read. If the epoch is in the end what it was, then the writer has made any number of its
-- stores up to the load of `wsc`; with another epoch, the writer may have been deactivated or set up anew at
-- any moment, and what the reader sees of the channel is left open, as is what the writer does behind the load of `wsc`.
pub record Watching (sent : ℕ → ℕ → ℕ) : Type 0 where
  pub at_first : Writer
  pub at_byte : ℕ → Writer
  pub at_second : Writer
  pub last : Muchannel
  pub inv : Inv sent at_first
  pub to_byte : last.epoch ≡ at_first.channel.epoch → (k : ℕ) → Steps sent at_first (at_byte k)
  pub to_second : last.epoch ≡ at_first.channel.epoch → (k : ℕ) → Steps sent (at_byte k) at_second

abbrev pub view : {sent : ℕ → ℕ → ℕ} → Watching sent → View
view w = record {
  first = w.at_first.channel;
  byte = λ k. (w.at_byte k).channel;
  second = w.at_second.channel;
  last = w.last;
}

-- The reader has the channel's layout, and has not read more than was written.
pub record InSync (c : Muchannel) (reader : MuchannelReader) : Type 0 where
  pub active : reader.epoch ≢ 0
  pub epoch : reader.epoch ≡ c.epoch
  pub size : reader.size ≡ c.size
  pub elements : reader.elements ≡ c.elements
  pub rc : reader.rc ≤ c.wc

-- The result of a read, for a reader in step.
pub data Reads {sent : ℕ → ℕ → ℕ} (w : Watching sent) (reader : MuchannelReader)
    (r : MuchannelReader × ReaderResult × List ℕ) : Type 0 where
  nothing : reader.rc ≡ w.at_first.channel.wc → r ≡ (reader, no_data, []) → Reads w reader r
  behind :
      (element : List ℕ)
      → (reader.rc + reader.elements < w.at_first.channel.wc)
        ⊎ (reader.rc + reader.elements < w.at_second.channel.wsc)
      → r ≡ (reader, overrun_detected, element)
      → Reads w reader r
  changed :
      (rc : ℕ) (element : List ℕ)
      → reader.epoch ≢ w.last.epoch
      → r ≡ (record reader { epoch = 0; rc = rc }, epoch_changed, element)
      → Reads w reader r
  reads :
      reader.epoch ≡ w.last.epoch
      → reader.rc < w.at_first.channel.wc
      → w.at_second.channel.wsc ≤ reader.rc + reader.elements
      → r ≡ (record reader { rc = reader.rc + 1 }, success, sent_bytes sent reader.rc 0 reader.size)
      → Reads w reader r

copy_element-sent :
    (sent : ℕ → ℕ → ℕ) (v : View) (i pos k n size : ℕ)
    → k + n ≤ size
    → ((j : ℕ) → j < size → (v.byte j).bytes (pos + j) ≡ sent i j)
    → copy_element v pos k n ≡ sent_bytes sent i k n
unfolding copy_element
copy_element-sent sent v i pos k zero size le at = refl
copy_element-sent sent v i pos k (suc n) size le at = rw (at k (omega (arith, le))) (
    ap (λ (t : List ℕ). sent i k ∷ t)
      (copy_element-sent sent v i pos (k + 1) n size (omega (arith, le)) at))

module _ (sent : ℕ → ℕ → ℕ) (w : Watching sent)
    (still : w.last.epoch ≡ w.at_first.channel.epoch) where
  at_byte-Inv : (k : ℕ) → Inv sent (w.at_byte k)
  at_byte-Inv k = Steps-Inv (w.to_byte still k) w.inv

  at_second-Inv : Inv sent w.at_second
  at_second-Inv = Steps-Inv (w.to_second still 0) (at_byte-Inv 0)

  byte_intact :
      (reader : MuchannelReader) (k : ℕ)
      → InSync w.at_first.channel reader
      → reader.rc < w.at_first.channel.wc
      → w.at_second.channel.wsc ≤ reader.rc + reader.elements
      → k < reader.size
      → (w.at_byte k).channel.bytes (reader.rc % reader.elements * reader.size + k)
        ≡ sent reader.rc k
  byte_intact reader k sync fresh near lt =
      subst (λ (n : ℕ). c.bytes (reader.rc % n * reader.size + k) ≡ sent reader.rc k)
        (first.elements ∙ sym sync.elements)
        (subst (λ (n : ℕ). c.bytes (reader.rc % c.elements * n + k) ≡ sent reader.rc k)
          (first.size ∙ sym sync.size)
          ((at_byte-Inv k).intact reader.rc (omega (arith, first.wc, fresh))
            (omega (arith, near, second.wsc, first.elements, sync.elements)) k
            (omega (arith, lt, first.size, sync.size))))
    where
      c : Muchannel
      c = (w.at_byte k).channel

      first : Later w.at_first.channel c
      first = Steps-Later (w.to_byte still k) w.inv

      second : Later c w.at_second.channel
      second = Steps-Later (w.to_second still k) (at_byte-Inv k)

  -- The last counter as the reader finds it.
  wsc_ahead :
      (reader : MuchannelReader)
      → InSync w.at_first.channel reader
      → ahead w.at_second.channel.wsc reader.rc ≡ w.at_second.channel.wsc - reader.rc
  wsc_ahead reader sync = omega (
    arith,
    sync.rc,
    InPhase-le sent w.at_first.channel w.at_first.phase w.inv.phase,
    (Steps-Later (w.to_byte still 0) w.inv).wsc,
    (Steps-Later (w.to_second still 0) (at_byte-Inv 0)).wsc,
    at_second-Inv.small,
  )

module _ (sent : ℕ → ℕ → ℕ) (w : Watching sent) where
  -- The first counter as the reader finds it.
  wc_ahead :
      (reader : MuchannelReader)
      → InSync w.at_first.channel reader
      → (ahead w.at_first.channel.wc reader.rc ≡ w.at_first.channel.wc - reader.rc)
        × (w.at_first.channel.wc < 2 ^ 64)
  wc_ahead reader sync =
      (omega (arith, sync.rc, first, w.inv.small), omega (arith, first, w.inv.small))
    where
      first : w.at_first.channel.wc ≤ w.at_first.channel.wsc
      first = InPhase-le sent w.at_first.channel w.at_first.phase w.inv.phase

  read_element-Reads :
      (reader : MuchannelReader)
      → InSync w.at_first.channel reader
      → reader.rc < w.at_first.channel.wc
      → Reads w reader (read_element (view w) reader)
  unfolding read_element has_epoch_changed
  read_element-Reads reader sync fresh =
      let (a, small) = wc_ahead reader sync in
      elim (Bool-cases (reader.epoch != w.last.epoch)) [
        | inl other ↦
            changed
              (if ltb reader.elements (ahead w.at_second.channel.wsc reader.rc)
                then reader.rc
                else (reader.rc + 1) % 2 ^ 64)
              (copy_element (view w) (reader.rc % reader.elements * reader.size) 0 reader.size)
              (ground (arith, other)) (rw other refl)
        | inr same ↦
            elim (Bool-cases (ltb reader.elements (ahead w.at_second.channel.wsc reader.rc))) [
              | inl late ↦
                  behind
                    (copy_element (view w) (reader.rc % reader.elements * reader.size) 0
                      reader.size)
                    (inr (ground (arith, late, wsc_ahead sent w (unchanged same) reader sync)))
                    (rw (same, late) refl)
              | inr timely ↦
                  let near = close (wsc_ahead sent w (unchanged same) reader sync) timely in
                  reads (ground (arith, same)) fresh near
                    (rw (same, timely, next small, copied (unchanged same) near) refl)
            ]
      ]
    where
      unchanged : (reader.epoch != w.last.epoch) ≡ false → w.last.epoch ≡ w.at_first.channel.epoch
      unchanged same = ground (arith, same, sync.epoch)

      close :
          ahead w.at_second.channel.wsc reader.rc ≡ w.at_second.channel.wsc - reader.rc
          → ltb reader.elements (ahead w.at_second.channel.wsc reader.rc) ≡ false
          → w.at_second.channel.wsc ≤ reader.rc + reader.elements
      close b timely = ground (arith, timely, b)

      next : w.at_first.channel.wc < 2 ^ 64 → (reader.rc + 1) % 2 ^ 64 ≡ reader.rc + 1
      next small = omega (arith, small, fresh)

      copied :
          w.last.epoch ≡ w.at_first.channel.epoch
          → w.at_second.channel.wsc ≤ reader.rc + reader.elements
          → copy_element (view w) (reader.rc % reader.elements * reader.size) 0 reader.size
            ≡ sent_bytes sent reader.rc 0 reader.size
      copied still near =
          copy_element-sent sent (view w) reader.rc (reader.rc % reader.elements * reader.size) 0
            reader.size reader.size (omega arith)
            (λ k lt. byte_intact sent w still reader k sync fresh near lt)

  pub muen_channel_read-Reads :
      (reader : MuchannelReader)
      → InSync w.at_first.channel reader
      → Reads w reader (muen_channel_read (view w) reader)
  unfolding muen_channel_read muen_channel_is_active has_epoch_changed
  muen_channel_read-Reads reader sync =
      let (a, small) = wc_ahead reader sync in
      elim (Bool-cases (reader.rc == w.at_first.channel.wc)) [
        | inl end ↦ nothing (ground (arith, end)) (rw (active, current, end) refl)
        | inr more ↦
            elim (Bool-cases (ltb reader.elements (ahead w.at_first.channel.wc reader.rc))) [
              | inl late ↦
                  behind [] (inl (ground (arith, late, a))) (rw (active, current, more, late) refl)
              | inr timely ↦
                  rw (active, current, more, timely)
                    (read_element-Reads reader sync (ground (arith, more, sync.rc)))
            ]
      ]
    where
      active : (w.at_first.channel.epoch != 0) ≡ true
      active = ground (arith, sync.active, sync.epoch)

      current : ((reader.epoch == 0) || (reader.epoch != w.at_first.channel.epoch)) ≡ false
      current = ground (arith, sync.active, sync.epoch)
