-- ===== src/Examples/Disk.antt =====
-- A disk of eight sectors that serves a request at once, and the block driver on it.
use solo.Base.{
  ℕ, zero, suc, ◌*◌, ◌^◌, ◌%◌, ◌<◌, ◌≡◌, ◌≢◌, inl, inr, refl, sym, ap, ◌∙◌, subst, Bool-cases, List,
  [], ◌∷◌, replicate, get_elem?, drop, take, Option, some, some_inj, false, true, ◌==◌, ltb,
  if◌then◌else◌, done, arith,
}
use solo.Hvt.{Memory, load_bytes, load32, load64, store32, store64, store_bytes, le_bytes, of_bytes}
use solo.CString.Compare.{IsTerminated}
use solo.Mft.{Mft, MftEntry, mft_dev_block_basic, mft_name_max}
use solo.Mft.Lookup.{Holds, IsUsable}
use solo.Virtq.{Virtq, VirtqDesc, sub16}
use solo.Virtq.Written.{slot}
use solo.VirtioBlk.{
  BlkDevice, Disks, virtio_blk_op_sync, put_header, solo5_block_write, solo5_block_read,
}
use solo.VirtioBlk.Fill.{Idle, Transfer, Asked}
use solo.VirtioBlk.Sync.{IsDisk, OneSector, Answer, Transferred, virtio_blk_op_sync-Transferred}
use solo.VirtioBlk.RoundTrip.{Ready, virtio_block_write-read}
use solo.Examples.{first, tap, sample, disk}

record Platter : Type 0 where
  mem : ℕ → Memory
  idx : ℕ
  id : ℕ

abbrev status_and : ℕ → ℕ → (ℕ → Memory) → (ℕ → Memory)
status_and third status contents i = if i == third then (λ k. status) else contents i

abbrev serve : Platter → Virtq → ℕ → ℕ → ℕ → Platter × (ℕ → Memory)
serve d q head type sector =
    let contents : ℕ → Memory = λ i. (q.bufs i).contents in
    let seen : Platter = record d { idx = q.avail_idx; id = head } in
    let written : ℕ → Memory = λ s. if s == sector then contents (slot q head 1) else d.mem s in
    let got : ℕ → Memory = λ i. if i == slot q head 1 then d.mem sector else contents i in
    if ltb sector 8
    then if type == 1
      then (record seen { mem = written }, status_and (slot q head 2) 0 contents)
      else (seen, status_and (slot q head 2) 0 got)
    else (seen, status_and (slot q head 2) 1 contents)

abbrev head_of : Virtq → ℕ
head_of q = q.avail_ring (sub16 q.avail_idx 1 % q.num)

abbrev platter : BlkDevice Platter
platter = record {
  work = λ d q.
      serve d q (head_of q) (load32 (q.bufs (head_of q)).contents 0)
        (load64 (q.bufs (head_of q)).contents 8);
  used_idx = λ d. d.idx;
  used_ring = λ d i. record { id = d.id; len = 0 };
  avail_event = λ d. 0;
  used_flags = λ d. 0;
}

decoded_type :
    (m : Memory) (type sector : ℕ)
    → type < 2 ^ 32
    → load_bytes m 0 16 ≡ load_bytes (put_header (λ k. 0) type sector) 0 16
    → load32 m 0 ≡ type
unfolding load32 load_bytes store64 store32 store_bytes le_bytes of_bytes
decoded_type m type sector small e =
    ap (λ (bs : List ℕ). of_bytes (take 4 bs)) e ∙ omega (arith, small)

decoded_sector :
    (m : Memory) (type sector : ℕ)
    → sector < 2 ^ 64
    → load_bytes m 0 16 ≡ load_bytes (put_header (λ k. 0) type sector) 0 16
    → load64 m 8 ≡ sector
unfolding load64 load_bytes store64 store32 store_bytes le_bytes of_bytes
decoded_sector m type sector small e =
    ap (λ (bs : List ℕ). of_bytes (drop 8 bs)) e ∙ omega (arith, small)

abbrev disk_at : Platter → ℕ → List ℕ
disk_at d s = load_bytes (d.mem s) 0 512

apart :
    (q : Virtq) (head : ℕ) (r : Transfer)
    → Asked q head r
    → OneSector r
    → slot q head 1 ≢ slot q head 2
apart q head r asked one same = absurd (
    omega (
      arith,
      one.len,
      ap (λ (d : VirtqDesc). d.len) (sym asked.data_desc ∙ ap q.desc same ∙ asked.status_desc),
    ))

same : (n : ℕ) → (n == n) ≡ true
same n = ground arith

chosen : (i : ℕ) (m : Memory) (c : ℕ → Memory) → (if i == i then m else c i) ≡ m
chosen i m c = rw (same i) refl

not_chosen : (i j : ℕ) (m : Memory) (c : ℕ → Memory) → j ≢ i → (if j == i then m else c j) ≡ c j
not_chosen i j m c ne = ground (arith, ne)

status_at : (third status : ℕ) (c : ℕ → Memory) → status_and third status c third 0 ≡ status
status_at third status c = ap (λ (m : Memory). m 0) (chosen third (λ k. status) c)

status_other : (third status i : ℕ) (c : ℕ → Memory) → i ≢ third → status_and third status c i ≡ c i
status_other third status i c ne = not_chosen third i (λ k. status) c ne

-- What the law asks of the pair that `work` gives.
Serves : Platter → Virtq → ℕ → Transfer → Platter × (ℕ → Memory) → Type 0
Serves d q head r w =
    (w.0.idx ≡ q.avail_idx) × (w.0.id ≡ head) × Answer (disk_at d) 8 (disk_at (w.0)) q head r w.1

serve-Serves :
    (d : Platter) (q : Virtq) (head : ℕ) (r : Transfer)
    → Asked q head r
    → OneSector r
    → Serves d q head r (serve d q head r.type r.sector)
unfolding Serves
serve-Serves d q head r asked one = elim (Bool-cases (ltb r.sector 8)) [
  | inr out ↦ rw out (
    refl,
    refl,
    record {
      wrote = λ _ inside. absurd (ground (arith, out, inside));
      read = λ _ inside. absurd (ground (arith, out, inside));
      failed = λ _.
          ((λ e. absurd (omega (arith, sym e ∙ status_at (slot q head 2) 1 contents))), λ s. refl);
    },
  )
  | inl inside ↦ elim (Bool-cases (r.type == 1)) [
    | inl write ↦
        rw (inside, write)
          (
            refl,
            refl,
            record {
              wrote = λ _ _. (
                status_at (slot q head 2) 0 contents,
                sector_of (chosen r.sector (contents (slot q head 1)) d.mem)
                    ∙ ap (load_bytes (contents (slot q head 1)) 0) (sym one.len),
                λ s ne. sector_of (not_chosen r.sector s (contents (slot q head 1)) d.mem ne),
              );
              read = λ read _. absurd (ground (arith, read, write));
              failed = λ outside. absurd (ground (arith, outside, inside));
            },
          )
    | inr read ↦
        rw (inside, read)
          (
            refl,
            refl,
            record {
              wrote = λ write _. absurd (ground (arith, read, write));
              read = λ _ _. (
                status_at (slot q head 2) 0 got,
                ap (λ (m : Memory). load_bytes m 0 r.len)
                      (status_other (slot q head 2) 0 (slot q head 1) got (apart q head r asked one)
                        ∙ chosen (slot q head 1) (d.mem r.sector) contents)
                    ∙ ap (load_bytes (d.mem r.sector) 0) one.len,
                λ s. refl,
              );
              failed = λ outside. absurd (ground (arith, outside, inside));
            },
          )
  ]
]
  where
    contents : ℕ → Memory
    contents i = (q.bufs i).contents

    got : ℕ → Memory
    got i = if i == slot q head 1 then d.mem r.sector else contents i

    sector_of : {m m' : Memory} → m ≡ m' → load_bytes m 0 512 ≡ load_bytes m' 0 512
    sector_of e = ap (λ (m : Memory). load_bytes m 0 512) e

platter-IsDisk : IsDisk platter
unfolding Serves
platter-IsDisk = record {
  disk = disk_at;
  sectors = λ d. 8;
  patience = λ d. 0;
  works = λ d q head r asked one start. (
    refl,
    inr (
        subst (Serves d q head r) (sym (decoded d q head r asked one))
          (serve-Serves d q head r asked one)),
  );
}
  where
    kind_small : (r : Transfer) → OneSector r → r.type < 2 ^ 32
    kind_small r one = elim one.kind [
      | inl (write, _) ↦ omega (arith, write)
      | inr read ↦ omega (arith, read)
    ]

    decoded :
        (d : Platter) (q : Virtq) (head : ℕ) (r : Transfer)
        → Asked q head r
        → OneSector r
        → platter.work d q ≡ serve d q head r.type r.sector
    decoded d q head r asked one =
        ap (λ (n : ℕ). serve d q n (load32 (q.bufs n).contents 0) (load64 (q.bufs n).contents 8))
          asked.listed
        ∙ ap (λ (t : ℕ). serve d q head t (load64 (q.bufs head).contents 8))
            (decoded_type (q.bufs head).contents r.type r.sector (kind_small r one) asked.header)
        ∙ ap (serve d q head r.type)
            (decoded_sector (q.bufs head).contents r.type r.sector one.word asked.header)

abbrev queue : Virtq
queue = record {
  num = 4;
  desc = λ q. record { addr = 0; len = 0; flags = 0; next = 0 };
  avail_idx = 65535;
  avail_ring = λ q. 0;
  bufs = λ q. record { contents = λ k. 0; len = 0; extra_flags = 0 };
  bufs_at = 0x10000;
  num_avail = 4;
  last_used = 65535;
  next_avail = 65533;
  uses_event_idx = false;
  last_notified_idx = 0;
}

queue-Idle : Idle queue
queue-Idle = record {
  ok = record {
    exponent = 2;
    power = refl;
    max = omega arith;
    free = omega arith;
    avail_idx = omega arith;
    len = λ q. omega arith;
    extra_flags = λ q. (refl, omega arith);
  };
  three = omega arith;
  free = refl;
  seen = refl;
}

abbrev blank : Platter
blank = record { mem = λ s k. s; idx = 65535; id = 0 }

abbrev sevens : List ℕ
sevens = replicate 512 7

abbrev request : Transfer
request = record { type = 1; sector = 3; buf = sevens; len = 512 }

request-OneSector : OneSector request
request-OneSector = record { len = refl; word = omega arith; kind = inl (refl, refl) }

virtio_blk_op_sync-Transferred_example :
    (d' : Platter) × (q' : Virtq) × (o : Option (List ℕ)) × (virtio_blk_op_sync platter 2 blank
        queue 1 3 sevens 512
      ≡ done (d', q', o))
    × Transferred platter platter-IsDisk blank queue request d' q' o
unfolding platter-IsDisk
virtio_blk_op_sync-Transferred_example =
    virtio_blk_op_sync-Transferred platter platter-IsDisk 2 blank queue request queue-Idle refl
      request-OneSector (omega arith) (omega arith)

abbrev attached_disk : MftEntry
attached_disk = record disk {
  block_basic = record { capacity = 8; block_size = 512 };
  hostfd = 0;
  attached = true;
}

abbrev manifest : Mft
manifest = record sample { e = first ∷ attached_disk ∷ tap ∷ [] }

manifest-IsUsable : IsUsable manifest
manifest-IsUsable = record { fits = omega arith; few = omega arith; named = named }
  where
    named :
        (k : ℕ) (x : MftEntry)
        → k < 3
        → get_elem? manifest.e k ≡ some x
        → IsTerminated mft_name_max x.name
    named zero x _ h = subst (λ (y : MftEntry). IsTerminated mft_name_max y.name) (some_inj h) tt
    named (suc zero) x _ h =
        subst (λ (y : MftEntry). IsTerminated mft_name_max y.name) (some_inj h) tt
    named (suc (suc zero)) x _ h =
        subst (λ (y : MftEntry). IsTerminated mft_name_max y.name) (some_inj h) tt
    named (suc (suc (suc k))) x lt h = absurd (omega (arith, lt))

abbrev disks : Disks Platter
disks = record {
  bd_table = record { blkq = queue; sectors = 8; sector_size = 512 } ∷ [];
  states = λ i. blank;
}

is_the_disk : Holds manifest 1 mft_dev_block_basic attached_disk
is_the_disk = (omega arith, refl, refl)

disks-Ready :
    Ready platter platter-IsDisk manifest manifest-IsUsable 1 attached_disk is_the_disk refl
      (omega arith)
      disks
unfolding platter-IsDisk
disks-Ready = record {
  bd = record { blkq = queue; sectors = 8; sector_size = 512 };
  at = refl;
  idle = queue-Idle;
  used = refl;
  word = omega arith;
  capacity = refl;
}

virtio_block_write-read_example :
    (s' : Disks Platter) × (s'' : Disks Platter) × (solo5_block_write platter 2 manifest disks 1
        (3 * 512)
        sevens
      ≡ done (s', 0, []))
    × (solo5_block_read platter 2 manifest s' 1 (3 * 512) 512 ≡ done (s'', 0, sevens))
    × Ready platter platter-IsDisk manifest manifest-IsUsable 1 attached_disk is_the_disk refl
        (omega arith)
        s''
unfolding platter-IsDisk
virtio_block_write-read_example =
    virtio_block_write-read platter platter-IsDisk manifest manifest-IsUsable 1 attached_disk
      is_the_disk refl (omega arith) 2 disks 3 3 sevens disks-Ready (λ d. omega arith) (omega arith)
      (omega arith) (omega arith) refl
