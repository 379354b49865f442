-- ===== src/Lib.antt =====
-- Solo5: the parts of a sandboxed unikernel runtime that stand between an untrusted guest and its
-- host, modelled from the C sources.
--
-- A tender (tenders/) loads a guest into a memory of its own and serves its hypercalls; the guest is
-- linked with the bindings (bindings/). The application manifest, which the guest carries, lists its
-- devices, and the tender fills in what the host attaches to them. A device is named by a handle, an
-- index into the manifest. Every address that the guest hands over is checked against the size of
-- guest memory before the tender follows it.
--
-- The modules and the code they model:
--   Base                the kinds of results of a run of C code (Outcomes), signed 64-bit numbers
--                       (Int), masks and bits (Bits, Digits), sequences (Lists), ring slots (Slots) and
--                       Boolean tests (Tests)
--   CString             bindings/lib.c: strncmp
--   Mft                 include/mft_abi.h, tenders/common/mft.c: the manifest, its validation and the
--                       lookups by name and by index
--   Hvt                 tenders/hvt/hvt.h: guest memory, HVT_CHECKED_GPA_P, and the fields of a
--                       hypercall's argument in little-endian order
--   Block               tenders/hvt/hvt_module_blk.c: the block device's hypercalls
--   BlockSetup          tenders/hvt/hvt_module_blk.c: the block module's options and its set-up
--   BlockGuest          bindings/hvt/block.c: the guest's side of the block device
--   Elf                 tenders/common/elf.c: the loader of guest executables
--                       (Elf/Note: elf_load_note, which finds and reads Solo5's notes)
--   Ring                include/hvt_ring.h, tenders/hvt/hvt_module_net.c: the shared submission ring
--                       and the loop that serves it in the tender's I/O thread
--   NetCalls            tenders/hvt/hvt_module_net.c: the network device's hypercalls
--   NetGuest            bindings/hvt/net.c: the guest's side of that ring
--   Wake                tenders/hvt/hvt_module_net.c, bindings/hvt/net.c: polling, sleeping and waking
--                       of the I/O thread, against the guest's thread
--   Clock               bindings/virtio/clock_subr.c: from a calendar date to seconds
--   Tsc                 bindings/hvt/tscclock.c: monotonic time from the time-stamp counter
--   Core                tenders/hvt/hvt_core.c: the tables of handlers, halting, and the hypercalls
--                       of the core module
--   Channel             bindings/muen/channel.c, reader.c, writer.c: shared memory channels, with the
--                       writer and the reader side by side
--   Virtq               bindings/virtio/virtio_ring.c, virtio_ring.h: the driver's side of a virtqueue
--   VirtioNet           bindings/virtio/virtio_net.c: the transmission of a packet; Receive has the
--                       receive path, and Devices the table of devices and the application's calls
--   VirtioBlk           bindings/virtio/virtio_blk.c: requests to the block device, and the
--                       application's calls
--   MuenNet             bindings/muen/muen-net.c: network devices over pairs of channels
--   Mem                 bindings/mem.c: pages taken before the heap is locked, and the heap
--   Examples            concrete manifests, devices, rings and schedules, with tests
-- Proofs stand in the child modules, named for what they show.
--
-- A C function is a function into Run, whose constructors tell a return from the end of the process,
-- a failed assertion, and an access outside an object. State is passed explicitly: a Tender or a
-- NetTender is what a handler reads and changes, and guest memory is a function from addresses to
-- bytes. An unsigned 32-bit sum is written with its remainder, and the signed 64-bit numbers of the
-- block device's range test are Base.Int. The functions that the code calls and that are
-- not in the repository (pwrite, pread, read, write, malloc, sscanf, and the structures of <elf.h>)
-- are fields of the records Files, Taps, Host, Kernel, ElfAbi, NoteAbi and Options, as are the
-- tender's callback for page protections and block_attach, which wrap system calls. What POSIX, Linux
-- and the ELF format promise of them are the records FilesLaws, HostLaws, KernelLaws, AbiLaws,
-- NoteLaws and OptionsLaws, of which Examples has instances.
-- The tender's strncmp is that of the host's C library; CString stands for it there too. Messages to
-- the terminal are left out.
--
-- The two loops of process_ring_commits are recursion on fuel. The indices are 32-bit numbers, so the
-- pending entries are fewer than 2^32, and a round of either loop consumes at least one of them: fuel
-- above the number of pending entries suffices.
--
-- The wait of the poll hypercall is repeated while a signal interrupts it: fuel above the number of
-- pending signals suffices.
--
-- A read of the ELF loader is a loop on fuel too: each round takes a byte at least, or one of the
-- finitely many pending signals interrupts it, so fuel above the sum of the two suffices.
--
-- The ring is processed as one step of the model: the entries between ent_head and the tender's
-- snapshot of ent_tail are taken as they were published, which the barriers in the code are there for.
-- When the I/O thread polls, sleeps and is woken is a step relation of its own (Wake), in which the
-- accesses of the two threads to the shared words interleave in any order, each seen at once by
-- the other thread; that the barriers in the code achieve this is taken for granted. The loop of
-- tscclock_init is recursion on fuel; each round but the last lowers a shift that starts at 32, so
-- fuel of 32 suffices for the frequencies that hardware has.
--
-- The channels of Muen are taken the same way: a write gives the channel after each of its stores, in
-- their order, which is shown to be a sequence of steps of a writer, and a read takes the channel at
-- the moment of each of its accesses.
-- What the subject's information says of a network device's channels, and its MAC address, are
-- arguments of muen_net_dev_init.
-- The counters of a channel are taken not to reach 2^64.
--
-- The virtio driver consumes used chains in a loop on fuel; the indices are 16-bit numbers, so fuel
-- of 2^16 suffices. Its wait for the device is taken to end. recv_setup takes a round for each
-- descriptor, so fuel of the queue's size suffices; solo5_yield takes time in each round, so fuel above
-- the nanoseconds up to the deadline suffices. What the device shows of its rings is an argument of
-- the network driver, and the clock is the interface Cpu. The block device is the parameter
-- BlkDevice, and what the virtio specification promises of it is IsDisk: a request is served after
-- finitely many looks, and fuel above that number suffices; Examples has such a device.
--
-- Weaker memory ordering and the hypervisor backends are not modelled. Of the block module's and
-- of the core module's set-up the registration of their handlers is left out, and of the latter the
-- creation of the wait set; its poll is the one for Linux.
pub mod Base
pub mod CString
pub mod Mft
pub mod Hvt
pub mod Block
pub mod BlockGuest
pub mod BlockSetup
pub mod Elf
pub mod Ring
pub mod NetCalls
pub mod NetGuest
pub mod Wake
pub mod Clock
pub mod Tsc
pub mod Core
pub mod Channel
pub mod Virtq
pub mod VirtioNet
pub mod VirtioBlk
pub mod MuenNet
pub mod Mem
pub mod Examples
