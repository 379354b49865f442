-- ===== src/BlockGuest/Args.antt =====
-- bindings/hvt/block.c: the argument of a block hypercall, as the tender reads it.
use solo.Base.{ℕ, ◌+◌, ◌^◌, ◌≤◌, ◌<◌, ◌≡◌, ◌⊎◌, inl, ap, ◌∙◌, arith}
use solo.Hvt.{Memory, load64, store64, store32, le_bytes, of_bytes}
use solo.Hvt.Memory.{
  load_bytes-store_outside, load64-store64, load64-store64_outside, store_bytes-outside,
}
use solo.Block.{at_offset, at_data, at_len, at_ret}
use solo.BlockGuest.{fill_args}

load64-store32_outside :
    (m : Memory) (a k v : ℕ) → (k + 8 ≤ a) ⊎ (a + 4 ≤ k) → load64 (store32 m a v) k ≡ load64 m k
unfolding load64 store32
load64-store32_outside m a k v h = ap of_bytes (load_bytes-store_outside 8 (le_bytes 4 v) m a k h)

-- What the tender finds.
pub record Args (m : Memory) (p handle offset buf size : ℕ) : Type 0 where
  pub handle_is : load64 m p ≡ handle
  pub offset_is : load64 m (at_offset p) ≡ offset
  pub data_is : load64 m (at_data p) ≡ buf
  pub len_is : load64 m (at_len p) ≡ size

pub fill_args-Args :
    (m : Memory) (p handle offset buf size : ℕ)
    → handle < 2 ^ 64
    → offset < 2 ^ 64
    → buf < 2 ^ 64
    → size < 2 ^ 64
    → Args (fill_args m p handle offset buf size) p handle offset buf size
unfolding fill_args
fill_args-Args m p handle offset buf size lh lo lb ls = record {
  handle_is =
      load64-store32_outside m₄ (at_ret p) p 0 (inl (omega arith))
      ∙ load64-store64_outside m₃ (at_len p) p size (inl (omega arith))
      ∙ load64-store64_outside m₂ (at_data p) p buf (inl (omega arith))
      ∙ load64-store64_outside m₁ (at_offset p) p offset (inl (omega arith))
      ∙ load64-store64 m p handle lh;
  offset_is =
      load64-store32_outside m₄ (at_ret p) (at_offset p) 0 (inl (omega arith))
      ∙ load64-store64_outside m₃ (at_len p) (at_offset p) size (inl (omega arith))
      ∙ load64-store64_outside m₂ (at_data p) (at_offset p) buf (inl (omega arith))
      ∙ load64-store64 m₁ (at_offset p) offset lo;
  data_is =
      load64-store32_outside m₄ (at_ret p) (at_data p) 0 (inl (omega arith))
      ∙ load64-store64_outside m₃ (at_len p) (at_data p) size (inl (omega arith))
      ∙ load64-store64 m₂ (at_data p) buf lb;
  len_is =
      load64-store32_outside m₄ (at_ret p) (at_len p) 0 (inl (omega arith))
      ∙ load64-store64 m₃ (at_len p) size ls;
}
  where
    m₁ : Memory
    m₁ = store64 m p handle

    m₂ : Memory
    m₂ = store64 m₁ (at_offset p) offset

    m₃ : Memory
    m₃ = store64 m₂ (at_data p) buf

    m₄ : Memory
    m₄ = store64 m₃ (at_len p) size

store64-outside : (m : Memory) (a v k : ℕ) → (k < a) ⊎ (a + 8 ≤ k) → store64 m a v k ≡ m k
unfolding store64
store64-outside m a v k h = store_bytes-outside (le_bytes 8 v) m a k h

pub store32-outside : (m : Memory) (a v k : ℕ) → (k < a) ⊎ (a + 4 ≤ k) → store32 m a v k ≡ m k
unfolding store32
store32-outside m a v k h = store_bytes-outside (le_bytes 4 v) m a k h

-- Nothing but the argument changes.
pub fill_args-outside :
    (m : Memory) (p handle offset buf size k : ℕ)
    → (k < p) ⊎ (p + 40 ≤ k)
    → fill_args m p handle offset buf size k ≡ m k
unfolding fill_args
fill_args-outside m p handle offset buf size k h =
    store32-outside m₄ (at_ret p) 0 k (ground arith)
    ∙ store64-outside m₃ (at_len p) size k (ground arith)
    ∙ store64-outside m₂ (at_data p) buf k (ground arith)
    ∙ store64-outside m₁ (at_offset p) offset k (ground arith)
    ∙ store64-outside m p handle k (ground arith)
  where
    m₁ : Memory
    m₁ = store64 m p handle

    m₂ : Memory
    m₂ = store64 m₁ (at_offset p) offset

    m₃ : Memory
    m₃ = store64 m₂ (at_data p) buf

    m₄ : Memory
    m₄ = store64 m₃ (at_len p) size
