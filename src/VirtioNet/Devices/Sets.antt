-- ===== src/VirtioNet/Devices/Sets.antt =====
-- bindings/virtio/virtio_net.c: a poll as a set of devices, and the set of their handles.
use native.Mathlib.Decide.{ℕ_discrete}
use solo.Base.{
  ℕ, zero, suc, ◌+◌, ◌^◌, ◌<◌, ◌≡◌, ◌≢◌, ◌⊎◌, inl, inr, refl, sym, ap, ◌∙◌, subst, Bool-cases, Bool,
  false, ◌==◌, ◌!=◌, leb, if◌then◌else◌, List, [], ◌∷◌, get_elem?, some, some_inj, ◌&&◌, done,
  bit_and, bit_or, arith,
}
use solo.Base.Bits.{pow_pos}
use solo.Base.Digits.{digit, digit-bit_or, digit-cases, bit_and-pow}
use solo.VirtioNet.Devices.{VirtioNetDesc, poll_from, handles_from}

behind : (idx j : ℕ) → idx + suc j ≡ idx + 1 + j
behind idx j = omega arith

pub from_zero : (i : ℕ) → i ≡ 0 + i
from_zero i = omega arith

at_first : (idx : ℕ) → idx ≡ idx + 0
at_first idx = omega arith

-- The device `i` of the list shows a packet.
abbrev pub Shows : List VirtioNetDesc → (ℕ → ℕ) → ℕ → ℕ → VirtioNetDesc → Type 0
Shows nds used_idx idx j nd =
    (get_elem? nds j ≡ some nd) × (nd.recv.recvq.last_used ≢ used_idx (idx + j))

abbrev mark : VirtioNetDesc → (ℕ → ℕ) → ℕ → ℕ → ℕ
mark nd used_idx idx set =
    if nd.recv.recvq.last_used != used_idx idx then bit_or set (2 ^ idx) else set

mark-keeps :
    (nd : VirtioNetDesc) (used_idx : ℕ → ℕ) (idx set k : ℕ)
    → digit set k ≡ 1
    → digit (mark nd used_idx idx set) k ≡ 1
mark-keeps nd used_idx idx set k e = ground (arith, e, digit-bit_or k idx set)

poll-keeps :
    (nds : List VirtioNetDesc) (used_idx : ℕ → ℕ) (idx set k : ℕ)
    → digit set k ≡ 1
    → digit (poll_from nds used_idx idx set) k ≡ 1
unfolding poll_from
poll-keeps [] used_idx idx set k e = e
poll-keeps (nd ∷ nds) used_idx idx set k e =
    poll-keeps nds used_idx (idx + 1) (mark nd used_idx idx set) k
      (mark-keeps nd used_idx idx set k e)

pub poll-has :
    (nds : List VirtioNetDesc) (used_idx : ℕ → ℕ) (idx set j : ℕ) (nd : VirtioNetDesc)
    → Shows nds used_idx idx j nd
    → digit (poll_from nds used_idx idx set) (idx + j) ≡ 1
unfolding poll_from
poll-has [] used_idx idx set j nd (at, new) = absurd (ground (arith, at))
poll-has (x ∷ nds) used_idx idx set zero nd (at, new) =
    poll-keeps nds used_idx (idx + 1) (mark x used_idx idx set) (idx + 0)
      (ground (arith, some_inj at, new, digit-bit_or (idx + 0) idx set))
poll-has (x ∷ nds) used_idx idx set (suc j) nd (at, new) =
    ap (digit (poll_from nds used_idx (idx + 1) (mark x used_idx idx set))) (behind idx j)
    ∙ poll-has nds used_idx (idx + 1) (mark x used_idx idx set) j nd
        (at, subst (λ (t : ℕ). nd.recv.recvq.last_used ≢ used_idx t) (behind idx j) new)

pub poll-only :
    (nds : List VirtioNetDesc) (used_idx : ℕ → ℕ) (idx set k : ℕ)
    → digit (poll_from nds used_idx idx set) k ≡ 1
    → (digit set k ≡ 1)
      ⊎ ((j : ℕ) × (nd : VirtioNetDesc) × (k ≡ idx + j) × Shows nds used_idx idx j nd)
unfolding poll_from
poll-only [] used_idx idx set k e = inl e
poll-only (x ∷ nds) used_idx idx set k e =
    elim (poll-only nds used_idx (idx + 1) (mark x used_idx idx set) k e) [
      | inr (j, nd, at, (shown, new)) ↦ inr (
        suc j,
        nd,
        omega (arith, at),
        (shown, subst (λ (t : ℕ). nd.recv.recvq.last_used ≢ used_idx t) (sym (behind idx j)) new),
      )
      | inl old ↦ elim (Bool-cases (x.recv.recvq.last_used != used_idx idx)) [
        | inr same ↦
            inl
              (subst (λ (b : Bool). digit (if b then bit_or set (2 ^ idx) else set) k ≡ 1) same old)
        | inl new ↦ elim (ℕ_discrete k idx) [
          | yes here ↦ inr (
            0,
            x,
            omega (arith, here),
            (
              refl,
              subst (λ (t : ℕ). x.recv.recvq.last_used ≢ used_idx t) (at_first idx)
                  (ground (arith, new)),
            ),
          )
          | no other ↦ inl (ground (arith, new, other, old, digit-bit_or k idx set))
        ]
      ]
    ]

-- Each device of the set has a handle that a set of handles can hold.
abbrev pub AreHandles : List VirtioNetDesc → Type 0
AreHandles nds = (j : ℕ) (nd : VirtioNetDesc) → get_elem? nds j ≡ some nd → nd.handle < 64

AreHandles-tail :
    (x : VirtioNetDesc) (nds : List VirtioNetDesc) → AreHandles (x ∷ nds) → AreHandles nds
AreHandles-tail x nds ok j nd at = ok (suc j) nd at

-- The handles of the devices in the set, and those that were there.
pub record Translated (nds : List VirtioNetDesc) (virtio_set idx before after : ℕ) : Type 0 where
  keeps : (h : ℕ) → digit before h ≡ 1 → digit after h ≡ 1
  pub has :
      (j : ℕ) (nd : VirtioNetDesc)
      → get_elem? nds j ≡ some nd
      → digit virtio_set (idx + j) ≡ 1
      → digit after nd.handle ≡ 1
  pub only :
      (h : ℕ)
      → digit after h ≡ 1
      → (digit before h ≡ 1)
        ⊎ ((j : ℕ) × (nd : VirtioNetDesc) × (get_elem? nds j ≡ some nd)
            × (digit virtio_set (idx + j) ≡ 1)
            × (nd.handle ≡ h))

translate_step :
    (x : VirtioNetDesc) (nds : List VirtioNetDesc) (virtio_set idx before middle after : ℕ)
    → ((h : ℕ)
        → digit middle h
          ≡ (if (h == x.handle) && (digit virtio_set idx != 0) then 1 else digit before h))
    → Translated nds virtio_set (idx + 1) middle after
    → Translated (x ∷ nds) virtio_set idx before after
translate_step x nds virtio_set idx before middle after first t = record {
  keeps = λ h e. t.keeps h (ground (arith, e, first h));
  has = has;
  only = only;
}
  where
    has :
        (j : ℕ) (nd : VirtioNetDesc)
        → get_elem? (x ∷ nds) j ≡ some nd
        → digit virtio_set (idx + j) ≡ 1
        → digit after nd.handle ≡ 1
    has zero nd at e =
        t.keeps nd.handle
          (ground (arith, first nd.handle, some_inj at, ap (digit virtio_set) (at_first idx), e))
    has (suc j) nd at e = t.has j nd at (ap (digit virtio_set) (sym (behind idx j)) ∙ e)

    only :
        (h : ℕ)
        → digit after h ≡ 1
        → (digit before h ≡ 1)
          ⊎ ((j : ℕ) × (nd : VirtioNetDesc) × (get_elem? (x ∷ nds) j ≡ some nd)
              × (digit virtio_set (idx + j) ≡ 1)
              × (nd.handle ≡ h))
    only h e = elim (t.only h e) [
      | inr (j, nd, at, on, same) ↦
          inr (suc j, nd, at, ap (digit virtio_set) (behind idx j) ∙ on, same)
      | inl old ↦ elim (ℕ_discrete (digit before h) 1) [
        | yes kept ↦ inl kept
        | no new ↦ inr (
          0,
          x,
          refl,
          ap (digit virtio_set) (sym (at_first idx))
              ∙ ground (arith, first h, old, new, digit-cases idx virtio_set),
          ground (arith, first h, old, new),
        )
      ]
    ]

test_digit : (x d : ℕ) → (bit_and x (2 ^ d) != 0) ≡ (digit x d != 0)
test_digit x d = elim (digit-cases d x) [
  | inl off ↦ ap (λ (t : ℕ). t != 0) (bit_and-pow d x) ∙ rw off (ground arith)
  | inr on ↦ ap (λ (t : ℕ). t != 0) (bit_and-pow d x) ∙ rw on (ground (arith, pow_pos d))
]

pub handles_from-Translated :
    (nds : List VirtioNetDesc) (virtio_set idx handle_set : ℕ)
    → AreHandles nds
    → (after : ℕ) × (handles_from nds virtio_set idx handle_set ≡ done after)
      × Translated nds virtio_set idx handle_set after
unfolding handles_from
handles_from-Translated [] virtio_set idx handle_set ok = (
  handle_set,
  refl,
  record { keeps = λ h e. e; has = λ j nd at e. absurd (ground (arith, at)); only = λ h e. inl e },
)
handles_from-Translated (x ∷ nds) virtio_set idx handle_set ok =
    elim (Bool-cases (bit_and virtio_set (2 ^ idx) != 0)) [
      | inl on ↦
          let (after, went, t) =
            handles_from-Translated nds virtio_set (idx + 1) (bit_or handle_set (2 ^ x.handle))
              ok' in
          (
            after,
            rw (on, small) went,
            translate_step x nds virtio_set idx handle_set (bit_or handle_set (2 ^ x.handle)) after
                (λ h.
                  digit-bit_or h x.handle handle_set
                  ∙ ground (arith, sym (test_digit virtio_set idx) ∙ on))
                t,
          )
      | inr off ↦
          let (after, went, t) = handles_from-Translated nds virtio_set (idx + 1) handle_set ok' in
          (
            after,
            rw off went,
            translate_step x nds virtio_set idx handle_set handle_set after
                (λ h. ground (arith, sym (test_digit virtio_set idx) ∙ off)) t,
          )
    ]
  where
    ok' : AreHandles nds
    ok' = AreHandles-tail x nds ok

    small : leb 64 x.handle ≡ false
    small = ground (arith, ok 0 x refl)
