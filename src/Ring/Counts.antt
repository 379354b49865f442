-- ===== src/Ring/Counts.antt =====
-- tenders/hvt/hvt_module_net.c: what `process_ring_commits` does to the ring's indices, and how it
-- can end.
use solo.Base.{
  ◌∙◌, subst, sym, ℕ, zero, suc, ◌+◌, ◌^◌, ◌<◌, ◌≡◌, ◌⊎◌, inl, inr, refl, ap, ◌==◌, if◌then◌else◌,
  false, Bool-cases, Option-cases, Run, done, exits, arith,
}
use solo.Mft.{mft_dev_net_basic}
use solo.Mft.Lookup.{IsUsable, mft_get_by_index-Holds}
use solo.Hvt.{load_bytes, store_bytes}
use solo.Hvt.Memory.{checked_gpa_p-cases}
use solo.Ring.{
  Entry, Ring, Taps, NetTender, advance, add32, entry_at, process_read_entry, write_entry,
  hvt_ring_net_write, hvt_ring_net_read, write_failed, wrote_all, post, reply, frame_bytes,
  r_einval, process_ring_commits,
}
use solo.Ring.Serve.{serve_one, serve, pending}
use solo.Ring.Refine.{process_ring_commits-serve, process_read_entry-head}

-- The read requests among the `n` entries from the index `h` on.
abbrev pub reads : Ring → ℕ → ℕ → ℕ
reads r zero h = 0
reads r (suc n) h =
    (if (entry_at r h).operation == hvt_ring_net_read then 1 else 0) + reads r n (add32 h 1)

-- The run returns with a state that satisfies `P`, or ends the tender with status 1.
pub data Ends {N : Type 0} (P : NetTender N → Type 0) : Run (NetTender N) → Type 0 where
  returns : {t : NetTender N} {r : Run (NetTender N)} → r ≡ done t → P t → Ends P r
  stops : {r : Run (NetTender N)} → r ≡ exits 1 → Ends P r

-- What `n` entries change in the ring: the tender's two indices, and no field of the guest's.
pub record Served {N : Type 0} (n : ℕ) (t t' : NetTender N) : Type 0 where
  pub head : t'.ring.ent_head ≡ add32 t.ring.ent_head n
  pub commits : t'.ring.com_tail ≡ add32 t.ring.com_tail (reads t.ring n t.ring.ent_head)
  pub entries : t'.ring.entries ≡ t.ring.entries
  pub tail : t'.ring.ent_tail ≡ t.ring.ent_tail
  pub com_head : t'.ring.com_head ≡ t.ring.com_head
  pub mem_size : t'.hvt.guest_mem_size ≡ t.hvt.guest_mem_size
  pub mft : t'.host_mft ≡ t.host_mft

pub record IsServable {N : Type 0} (t : NetTender N) : Type 0 where
  pub usable : IsUsable t.host_mft
  pub mem_size : t.hvt.guest_mem_size < 2 ^ 64
  pub head : t.ring.ent_head < 2 ^ 32
  pub com_tail : t.ring.com_tail < 2 ^ 32

reads-entries : (r r' : Ring) (n h : ℕ) → r'.entries ≡ r.entries → reads r' n h ≡ reads r n h
reads-entries r r' n h e = ap (λ f. reads (record r { entries = f }) n h) e

module _ (taps : Taps) where
  open taps use {Net}

  write_entry-Ends :
      (t : NetTender Net) (ent : Entry)
      → IsServable t
      → ((n : Net) × (write_entry taps t ent ≡ done n)) ⊎ (write_entry taps t ent ≡ exits 1)
  unfolding write_entry
  write_entry-Ends t ent s =
      let (o, found, _) = mft_get_by_index-Holds t.host_mft ent.handle mft_dev_net_basic s.usable in
      elim (Option-cases o) [
        | inl nothing ↦ inl (t.net, rw (found, nothing))
        | inr (x, e) ↦ elim (checked_gpa_p-cases t.hvt ent.address ent.len s.mem_size) [
          | inr (_, bad) ↦ inr (rw (found, e, bad))
          | inl (_, good) ↦
              let out = taps.write t.net x.hostfd (load_bytes t.hvt.mem ent.address ent.len) in
              elim (Bool-cases (write_failed out.1)) [
                | inl bad ↦ inr (rw (found, e, good, bad))
                | inr well ↦ elim (Bool-cases (wrote_all out.1 ent.len)) [
                  | inl all ↦ inl (out.0, rw (found, e, good, well, all))
                  | inr part ↦ inr (rw (found, e, good, well, part))
                ]
              ]
        ]
      ]

  process_read_entry-Ends :
      (t : NetTender Net) (ent : Entry)
      → IsServable t
      → ((t' : NetTender Net) × (process_read_entry taps t ent ≡ done t'))
        ⊎ (process_read_entry taps t ent ≡ exits 1)
  unfolding process_read_entry
  process_read_entry-Ends t ent s =
      let (o, found, _) = mft_get_by_index-Holds t.host_mft ent.handle mft_dev_net_basic s.usable in
      elim (Option-cases o) [
        | inl nothing ↦ inl (
          post t t.hvt.mem t.net (record { id = ent.id; ret = r_einval; len = 0 }),
          rw (found, nothing),
        )
        | inr (x, e) ↦ elim (checked_gpa_p-cases t.hvt ent.address ent.len s.mem_size) [
          | inr (_, bad) ↦ inr (rw (found, e, bad))
          | inl (_, good) ↦
              let got = taps.read t.net x.hostfd ent.len in
              inl (
                post t (store_bytes t.hvt.mem ent.address (frame_bytes got.1)) got.0
                    (reply ent.id got.1),
                rw (found, e, good),
              )
        ]
      ]

  serve_one-Ends : (t : NetTender Net) → IsServable t → Ends (Served 1 t) (serve_one taps t)
  unfolding serve_one
  serve_one-Ends t s = elim (Bool-cases (ent.operation == hvt_ring_net_write)) [
    | inl wr ↦ elim (write_entry-Ends t ent s) [
      | inl (n, e) ↦
          returns {t = advance (record t { net = n }) 1} (rw (wr, e)) (plain (ground arith))
      | inr e ↦ stops (rw (wr, e))
    ]
    | inr wr ↦ elim (Bool-cases (ent.operation == hvt_ring_net_read)) [
      | inl rd ↦ elim (process_read_entry-Ends t ent s) [
        | inl (t', e) ↦ returns {t = t'} (rw (wr, rd, e)) (
            let h = process_read_entry-head taps t t' ent e in
            record {
              head = h.0;
              commits = ground (arith, h.1, rd);
              entries = h.2;
              tail = h.3;
              com_head = h.4;
              mem_size = h.5;
              mft = h.6;
            })
        | inr e ↦ stops (rw (wr, rd, e))
      ]
      | inr rd ↦ returns {t = advance t 1} (rw (wr, rd)) (plain rd)
    ]
  ]
    where
      ent : Entry
      ent = entry_at t.ring t.ring.ent_head

      plain :
          {n : Net}
          → (ent.operation == hvt_ring_net_read) ≡ false
          → Served 1 t (advance (record t { net = n }) 1)
      plain rd = record {
        head = refl;
        commits = ground (arith, rd, s.com_tail);
        entries = refl;
        tail = refl;
        com_head = refl;
        mem_size = refl;
        mft = refl;
      }

  -- One entry after another.
  Served-suc :
      (n : ℕ) {t u v : NetTender Net}
      → IsServable t
      → Served 1 t u
      → Served n u v
      → Served (suc n) t v
  Served-suc n {t} {u} {v} s a b = record {
    head = omega (arith, a.head, b.head);
    commits = omega (
      arith,
      a.commits,
      b.commits,
      reads-entries t.ring u.ring n u.ring.ent_head a.entries,
      ap (reads t.ring n) a.head,
    );
    entries = b.entries ∙ a.entries;
    tail = b.tail ∙ a.tail;
    com_head = b.com_head ∙ a.com_head;
    mem_size = b.mem_size ∙ a.mem_size;
    mft = b.mft ∙ a.mft;
  }

  Served-IsServable : {t u : NetTender Net} → IsServable t → Served 1 t u → IsServable u
  Served-IsServable s a = record {
    usable = subst IsUsable (sym a.mft) s.usable;
    mem_size = omega (arith, a.mem_size, s.mem_size);
    head = omega (arith, a.head);
    com_tail = omega (arith, a.commits);
  }

  Served-zero : (t : NetTender Net) → IsServable t → Served 0 t t
  Served-zero t s = record {
    head = omega (arith, s.head);
    commits = omega (arith, s.com_tail);
    entries = refl;
    tail = refl;
    com_head = refl;
    mem_size = refl;
    mft = refl;
  }

  serve-Ends : (n : ℕ) (t : NetTender Net) → IsServable t → Ends (Served n t) (serve taps n t)
  unfolding serve
  serve-Ends zero t s = returns refl (Served-zero t s)
  serve-Ends (suc n) t s = elim (serve_one-Ends t s) [
    | stops e ↦ stops (rw e)
    | returns {t = u} e a ↦ elim (serve-Ends n u (Served-IsServable s a)) [
      | stops e' ↦ stops (rw (e, e'))
      | returns {t = v} e' b ↦ returns {t = v} (rw (e, e')) (Served-suc n s a b)
    ]
  ]

  -- With enough fuel `process_ring_commits` ends, whatever the guest put into the entries: it returns,
  -- or the tender stops with status 1. When it returns it has consumed every entry up to the published
  -- tail, has posted exactly one commit for each read request among them, and has changed no field of
  -- the ring that is the guest's.
  pub process_ring_commits-Ends :
      (fuel : ℕ) (t : NetTender Net)
      → IsServable t
      → t.ring.ent_tail < 2 ^ 32
      → pending t.ring + 1 < fuel
      → Ends
          (λ t'. Served (pending t.ring) t t' × (t'.ring.ent_head ≡ t.ring.ent_tail))
          (process_ring_commits taps fuel t)
  process_ring_commits-Ends fuel t s tl lt =
      rw (process_ring_commits-serve taps fuel t tl s.head lt)
        (elim (serve-Ends (pending t.ring) t s) [
          | stops e ↦ stops e
          | returns {t = v} e b ↦ returns {t = v} e (b, omega (arith, b.head, s.head))
        ])
