-- ===== src/Virtq/Written.antt =====
-- bindings/virtio/virtio_ring.c: the descriptors that the loop of `virtq_add_descriptor_chain` writes.
use native.Mathlib.Nat.{mod-lt, mod-eq_of_lt, mod-add-mod}
use solo.Base.{
  ℕ, zero, suc, ◌+◌, ◌-◌, ◌%◌, ◌^◌, ◌≤◌, ◌<◌, ◌≡◌, ◌≢◌, ◌⊎◌, inl, inr, sym, ap, ◌∙◌, subst,
  Bool-cases, true, ◌==◌, leb, Run, done, bit_and, arith,
}
use solo.Base.Bits.{bit_and_mask, pow_pos, pow_mono}
use solo.Virtq.{
  put_buf, Virtq, VirtqDesc, IoBuffer, add16, mask_of, desc_of, put_desc, add_descs, max_buffer_len,
}

-- A queue as `virtq_init_rings` leaves it: its size is a power of two and at most 8192.
pub record IsQueue (vq : Virtq) : Type 0 where
  pub exponent : ℕ
  pub power : vq.num ≡ 2 ^ exponent
  pub max : exponent ≤ 13
  pub free : vq.num_avail ≤ vq.num
  pub avail_idx : vq.avail_idx < 2 ^ 16
  pub len : (i : ℕ) → (vq.bufs i).len ≤ max_buffer_len
  pub extra_flags : (i : ℕ) → ((vq.bufs i).extra_flags % 2 ≡ 0) × ((vq.bufs i).extra_flags < 2 ^ 16)

-- The descriptor at the distance `j` from the head.
abbrev pub slot : Virtq → ℕ → ℕ → ℕ
slot vq head j = (head + j) % vq.num

pub num_bounds : (vq : Virtq) → IsQueue vq → (0 < vq.num) × (vq.num ≤ 8192)
num_bounds vq ok = (
  omega (arith, ok.power, pow_pos ok.exponent),
  omega (arith, ok.power, pow_mono ok.exponent 13 ok.max),
)

pub masked : (vq : Virtq) (a : ℕ) → IsQueue vq → bit_and a (mask_of vq) ≡ a % vq.num
masked vq a ok =
    ap (λ (m : ℕ). bit_and a m) mask
    ∙ bit_and_mask ok.exponent a
    ∙ ap (λ (m : ℕ). a % m) (sym ok.power)
  where
    mask : mask_of vq ≡ 2 ^ ok.exponent - 1
    mask = omega (arith, ok.power, num_bounds vq ok)

pub next_slot :
    (vq : Virtq) (i : ℕ)
    → IsQueue vq
    → i < vq.num
    → bit_and (add16 i 1) (mask_of vq) ≡ (i + 1) % vq.num
next_slot vq i ok lt =
    masked vq (add16 i 1) ok ∙ ap (λ (a : ℕ). a % vq.num) (omega (arith, lt, num_bounds vq ok))

-- What the loop has written, for the buffers from the slot `i` on.
pub record Written (vq : Virtq) (i n : ℕ) (desc : ℕ → VirtqDesc) : Type 0 where
  pub inside : (j : ℕ) → j ≤ n → desc (slot vq i j) ≡ desc_of vq (slot vq i j)
  pub outside : (q : ℕ) → ((j : ℕ) → j ≤ n → q ≢ slot vq i j) → desc q ≡ vq.desc q
  pub either : (q : ℕ) → (desc q ≡ desc_of vq q) ⊎ (desc q ≡ vq.desc q)

pub put_at : (vq : Virtq) (i : ℕ) (d : VirtqDesc) → (put_desc vq i d).desc i ≡ d
put_at vq i d = ground arith

pub put_not_at :
    (vq : Virtq) (i q : ℕ) (d : VirtqDesc) → q ≢ i → (put_desc vq i d).desc q ≡ vq.desc q
put_not_at vq i q d ne = ground (arith, ne)

put_either :
    (vq : Virtq) (i q : ℕ)
    → ((put_desc vq i (desc_of vq i)).desc q ≡ desc_of vq q)
      ⊎ ((put_desc vq i (desc_of vq i)).desc q ≡ vq.desc q)
put_either vq i q = elim (Bool-cases (q == i)) [
  | inl same ↦ inl (rw same (ap (λ (t : ℕ). desc_of vq t) (equal same)))
  | inr other ↦ inr (put_not_at vq i q (desc_of vq i) (ground (arith, other)))
]
  where
    equal : (q == i) ≡ true → i ≡ q
    equal same = ground (arith, same)

pub put_buf_at : (vq : Virtq) (i : ℕ) (d : IoBuffer) → (put_buf vq i d).bufs i ≡ d
put_buf_at vq i d = ground arith

pub put_buf_other :
    (vq : Virtq) (i q : ℕ) (d : IoBuffer) → q ≢ i → (put_buf vq i d).bufs q ≡ vq.bufs q
put_buf_other vq i q d ne = ground (arith, ne)

unfoldable pub with_desc : Virtq → (ℕ → VirtqDesc) → Virtq
with_desc vq desc = record vq { desc = desc }

pub first_slot : (vq : Virtq) (i : ℕ) → i < vq.num → slot vq i 0 ≡ i
first_slot vq i lt = ap (λ (a : ℕ). a % vq.num) (omega arith) ∙ mod-eq_of_lt lt

later_slot : (vq : Virtq) (i j : ℕ) → slot vq ((i + 1) % vq.num) j ≡ slot vq i (suc j)
later_slot vq i j = mod-add-mod (i + 1) vq.num j ∙ ap (λ (a : ℕ). a % vq.num) (omega arith)

put_desc-Written :
    (vq : Virtq) (i : ℕ) → i < vq.num → Written vq i 0 (put_desc vq i (desc_of vq i)).desc
put_desc-Written vq i lt = record {
  inside = λ j le.
      subst (λ (q : ℕ). (put_desc vq i (desc_of vq i)).desc q ≡ desc_of vq q) (here j le)
        (put_at vq i (desc_of vq i));
  outside = λ q away.
      put_not_at vq i q (desc_of vq i) (λ e. away 0 (omega arith) (e ∙ sym (first_slot vq i lt)));
  either = put_either vq i;
}
  where
    here : (j : ℕ) → j ≤ 0 → i ≡ slot vq i j
    here j le = sym (first_slot vq i lt) ∙ ap (λ (t : ℕ). slot vq i t) (omega (arith, le))

next_slot-Written :
    (vq : Virtq) (i n : ℕ) (desc : ℕ → VirtqDesc)
    → i < vq.num
    → Written (put_desc vq i (desc_of vq i)) ((i + 1) % vq.num) n desc
    → Written vq i (suc n) desc
next_slot-Written vq i n desc lt w = record {
  inside = inside;
  outside = λ q away.
      w.outside q (λ j le e. away (suc j) (omega (arith, le)) (e ∙ later_slot vq i j))
      ∙ put_not_at vq i q (desc_of vq i) (λ e. away 0 (omega arith) (e ∙ sym (first_slot vq i lt)));
  either = λ q. elim (w.either q) [
    | inl written ↦ inl written
    | inr kept ↦ elim (put_either vq i q) [
      | inl written ↦ inl (kept ∙ written)
      | inr same ↦ inr (kept ∙ same)
    ]
  ];
}
  where
    at_head : desc i ≡ desc_of vq i
    at_head = elim (w.either i) [
      | inl written ↦ written
      | inr kept ↦ kept ∙ put_at vq i (desc_of vq i)
    ]

    inside : (j : ℕ) → j ≤ suc n → desc (slot vq i j) ≡ desc_of vq (slot vq i j)
    inside zero le = subst (λ (q : ℕ). desc q ≡ desc_of vq q) (sym (first_slot vq i lt)) at_head
    inside (suc j) le =
        subst (λ (q : ℕ). desc q ≡ desc_of vq q) (later_slot vq i j)
          (w.inside j (omega (arith, le)))

put-IsQueue : (vq : Virtq) (i : ℕ) (d : VirtqDesc) → IsQueue vq → IsQueue (put_desc vq i d)
put-IsQueue vq i d ok = record {
  exponent = ok.exponent;
  power = ok.power;
  max = ok.max;
  free = ok.free;
  avail_idx = ok.avail_idx;
  len = ok.len;
  extra_flags = ok.extra_flags;
}

pub add_descs-Written :
    (n i : ℕ) (vq : Virtq)
    → IsQueue vq
    → i < vq.num
    → (desc : ℕ → VirtqDesc) × (add_descs n i vq ≡ done (with_desc vq desc, slot vq i n))
      × Written vq i n desc
unfolding add_descs with_desc
add_descs-Written zero i vq ok lt = (
  (put_desc vq i (desc_of vq i)).desc,
  rw (short) (ap (λ (q : ℕ). last_at q) (sym (first_slot vq i lt))),
  put_desc-Written vq i lt,
)
  where
    short : leb (vq.bufs i).len max_buffer_len ≡ true
    short = ground (arith, ok.len i)

    last_at : ℕ → Run (Virtq × ℕ)
    last_at q = done (put_desc vq i (desc_of vq i), q)
add_descs-Written (suc n) i vq ok lt =
    let (desc, went, written) =
      add_descs-Written n ((i + 1) % vq.num) (put_desc vq i (desc_of vq i))
        (put-IsQueue vq i (desc_of vq i) ok) (mod-lt (i + 1) (num_bounds vq ok).0) in
    (
      desc,
      rw short (
          ap from (next_slot vq i ok lt)
          ∙ went
          ∙ ap (λ (q : ℕ). last_at desc q) (later_slot vq i n)),
      next_slot-Written vq i n desc lt written,
    )
  where
    short : leb (vq.bufs i).len max_buffer_len ≡ true
    short = ground (arith, ok.len i)

    from : ℕ → Run (Virtq × ℕ)
    from i' = add_descs n i' (put_desc vq i (desc_of vq i))

    last_at : (ℕ → VirtqDesc) → ℕ → Run (Virtq × ℕ)
    last_at desc q = done (record vq { desc = desc }, q)
