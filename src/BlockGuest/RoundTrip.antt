-- ===== src/BlockGuest/RoundTrip.antt =====
-- bindings/hvt/block.c with tenders/hvt/hvt_module_blk.c: a block that is written and read again.
use solo.Base.{ℕ, ◌+◌, ◌<◌, ◌≡◌, refl, sym, ap, ◌∙◌, false, ◌!=◌, done, arith, pos, List}
use solo.Mft.{MftEntry, mft_dev_block_basic}
use solo.Hvt.{Memory, of_bytes, store_bytes, load64, load_bytes}
use solo.Hvt.Memory.{
  store_bytes-inside, get_elem?-load_bytes, length-load_bytes, load_bytes-store_outside,
  load32-store32,
}
use solo.Block.{
  Files, Tender, set_mem, set_ret, at_len, at_ret, sizeof_hc_block, write_out, read_in,
  hypercall_block_write, hypercall_block_read,
}
use solo.Block.Check.{FilesLaws}
use solo.BlockGuest.{fill_args, solo5_block_write, solo5_block_read}
use solo.BlockGuest.Args.{Args, store32-outside}
use solo.BlockGuest.Call.{
  IsCall, lookup, checked_inside, reaches, accepted, in_range, plain, given, same_buffer,
}

itself : (n : ℕ) → (n != n) ≡ false
itself n = ground arith

module _ (os : Files) where
  open os use {Disk, pwrite, pread}

  abbrev written : Tender Disk → MftEntry → ℕ → ℕ → ℕ → ℕ → ℕ → Tender Disk
  written t x sp handle offset buf size =
      let m = fill_args t.hvt.mem sp handle offset buf size in
      set_ret
        (record (set_mem t m) {
          disk = (pwrite t.disk x.hostfd (pos offset) (load_bytes t.hvt.mem buf size)).0;
        })
        sp 0

  solo5_block_write-written :
      (t : Tender Disk) (x : MftEntry) (sp handle offset buf size : ℕ)
      → IsCall t x sp handle offset buf size
      → (pwrite t.disk x.hostfd (pos offset) (load_bytes t.hvt.mem buf size)).1 ≡ pos size
      → solo5_block_write os t.host_mft t sp handle offset buf size
        ≡ done (written t x sp handle offset buf size, 0)
  unfolding solo5_block_write hypercall_block_write write_out
  solo5_block_write-written t x sp handle offset buf size c whole =
      rw
        (
          lookup t.host_mft handle mft_dev_block_basic x c.ready.usable c.holds,
          accepted t x sp handle offset buf size c,
          reaches (hypercall_block_write os) (set_mem t m) sp c.stack_max,
          checked_inside (record (t.hvt) { mem = m }) sp sizeof_hc_block c.ready.mem_size c.stack,
          args.handle_is,
          lookup t.host_mft handle mft_dev_block_basic x c.ready.usable c.holds,
          args.offset_is,
          args.len_is,
          in_range t x sp handle offset buf size c,
          args.data_is,
          checked_inside (record (t.hvt) { mem = m }) buf size c.ready.mem_size c.buffer,
          plain t x sp handle offset buf size c,
          same_buffer t x sp handle offset buf size c,
          whole,
          itself size,
          load32-store32 m (at_ret sp) 0 (omega arith),
        )
        refl
    where
      m : Memory
      m = fill_args t.hvt.mem sp handle offset buf size

      args : Args m sp handle offset buf size
      args = given t x sp handle offset buf size c

  abbrev received : Tender Disk → MftEntry → ℕ → ℕ → ℕ → ℕ → ℕ → Tender Disk
  received t x sp handle offset buf size =
      let m = fill_args t.hvt.mem sp handle offset buf size in
      set_ret (set_mem t (store_bytes m buf (pread t.disk x.hostfd (pos offset) size).0)) sp 0

module _ (os : Files) (laws : FilesLaws os) where
  open os use {Disk, pwrite, pread}
  open laws use {byte}

  -- The length that the tender reads again after the bytes have arrived.
  reread :
      (t : Tender Disk) (x : MftEntry) (sp handle offset buf size : ℕ)
      → IsCall t x sp handle offset buf size
      → load64
          (store_bytes
            (fill_args t.hvt.mem sp handle offset buf size)
            buf
            (pread t.disk x.hostfd (pos offset) size).0)
          (at_len sp)
        ≡ size
  unfolding load64
  reread t x sp handle offset buf size c =
      ap of_bytes (
        load_bytes-store_outside 8 (pread t.disk x.hostfd (pos offset) size).0
          (fill_args t.hvt.mem sp handle offset buf size) buf (at_len sp)
          (ground (arith, c.apart, laws.pread_fits t.disk x.hostfd offset size)))
      ∙ (given t x sp handle offset buf size c).len_is

  solo5_block_read-received :
      (t : Tender Disk) (x : MftEntry) (sp handle offset buf size : ℕ)
      → IsCall t x sp handle offset buf size
      → (pread t.disk x.hostfd (pos offset) size).1 ≡ pos size
      → solo5_block_read os t.host_mft t sp handle offset buf size
        ≡ done (received os t x sp handle offset buf size, 0)
  unfolding solo5_block_read hypercall_block_read read_in
  solo5_block_read-received t x sp handle offset buf size c whole =
      rw
        (
          lookup t.host_mft handle mft_dev_block_basic x c.ready.usable c.holds,
          accepted t x sp handle offset buf size c,
          reaches (hypercall_block_read os) (set_mem t m) sp c.stack_max,
          checked_inside (record (t.hvt) { mem = m }) sp sizeof_hc_block c.ready.mem_size c.stack,
          args.handle_is,
          lookup t.host_mft handle mft_dev_block_basic x c.ready.usable c.holds,
          args.offset_is,
          args.len_is,
          in_range t x sp handle offset buf size c,
          args.data_is,
          checked_inside (record (t.hvt) { mem = m }) buf size c.ready.mem_size c.buffer,
          plain t x sp handle offset buf size c,
          whole,
          reread t x sp handle offset buf size c,
          itself size,
          load32-store32 (store_bytes m buf (pread t.disk x.hostfd (pos offset) size).0) (at_ret sp)
              0 (omega arith),
        )
        refl
    where
      m : Memory
      m = fill_args t.hvt.mem sp handle offset buf size

      args : Args m sp handle offset buf size
      args = given t x sp handle offset buf size c

  written-byte :
      (t : Tender Disk) (x : MftEntry) (sp handle offset buf size i : ℕ)
      → (pwrite t.disk x.hostfd (pos offset) (load_bytes t.hvt.mem buf size)).1 ≡ pos size
      → i < size
      → byte (written os t x sp handle offset buf size).disk (laws.file x.hostfd) (offset + i)
        ≡ t.hvt.mem (buf + i)
  written-byte t x sp handle offset buf size i whole lt =
      laws.pwrite_all t.disk x.hostfd offset (load_bytes t.hvt.mem buf size) i (t.hvt.mem (buf + i))
        (whole ∙ ap pos (sym (length-load_bytes size t.hvt.mem buf)))
        (get_elem?-load_bytes size t.hvt.mem buf i lt)

  received-byte :
      (t : Tender Disk) (x : MftEntry) (sp handle offset buf size i : ℕ)
      → IsCall t x sp handle offset buf size
      → (pread t.disk x.hostfd (pos offset) size).1 ≡ pos size
      → i < size
      → (received os t x sp handle offset buf size).hvt.mem (buf + i)
        ≡ byte t.disk (laws.file x.hostfd) (offset + i)
  received-byte t x sp handle offset buf size i c whole lt =
      store32-outside (store_bytes m buf bytes) (at_ret sp) 0 (buf + i) (ground (arith, c.apart))
      ∙ store_bytes-inside bytes m buf i (byte t.disk (laws.file x.hostfd) (offset + i))
          (laws.pread_all t.disk x.hostfd offset size i whole lt)
    where
      m : Memory
      m = fill_args t.hvt.mem sp handle offset buf size

      bytes : List ℕ
      bytes = (pread t.disk x.hostfd (pos offset) size).0

  -- A block that `solo5_block_write` has written comes back from `solo5_block_read`: both calls return
  -- SOLO5_R_OK, and each byte of the second buffer is the byte that the first buffer had. The
  -- calls are for an aligned block inside an attached device, with their arguments and buffers in guest
  -- memory, and the host's transfers are complete.
  pub block_write-read :
      (t : Tender Disk) (x : MftEntry) (sp handle offset buf size sp' buf' : ℕ)
      → IsCall t x sp handle offset buf size
      → IsCall t x sp' handle offset buf' size
      → (pwrite t.disk x.hostfd (pos offset) (load_bytes t.hvt.mem buf size)).1 ≡ pos size
      → ((d : Disk) → (pread d x.hostfd (pos offset) size).1 ≡ pos size)
      → (t' t'' : Tender Disk) × (solo5_block_write os t.host_mft t sp handle offset buf size
          ≡ done (t', 0))
        × (solo5_block_read os t'.host_mft t' sp' handle offset buf' size ≡ done (t'', 0))
        × ((i : ℕ) → i < size → t''.hvt.mem (buf' + i) ≡ t.hvt.mem (buf + i))
  block_write-read t x sp handle offset buf size sp' buf' c c' whole reads = (
    t',
    received os t' x sp' handle offset buf' size,
    solo5_block_write-written os t x sp handle offset buf size c whole,
    solo5_block_read-received t' x sp' handle offset buf' size again (reads t'.disk),
    λ i lt.
        received-byte t' x sp' handle offset buf' size i again (reads t'.disk) lt
        ∙ written-byte t x sp handle offset buf size i whole lt,
  )
    where
      t' : Tender Disk
      t' = written os t x sp handle offset buf size

      again : IsCall t' x sp' handle offset buf' size
      again = record {
        ready = record {
          usable = c'.ready.usable;
          capacities = c'.ready.capacities;
          mem_size = c'.ready.mem_size;
        };
        holds = c'.holds;
        power = c'.power;
        block_max = c'.block_max;
        handle_max = c'.handle_max;
        aligned = c'.aligned;
        size_is = c'.size_is;
        inside = c'.inside;
        stack = c'.stack;
        stack_max = c'.stack_max;
        buffer = c'.buffer;
        apart = c'.apart;
      }
