-- ===== src/MuenNet/Message.antt =====
-- bindings/muen/muen-net.c: a packet as the element of a channel that carries it.
use solo.Base.{
  ℕ, zero, suc, ◌+◌, ◌-◌, ◌/◌, ◌%◌, ◌^◌, ◌≤◌, ◌≡◌, refl, sym, ap, ◌∙◌, subst, List, [], ◌∷◌, ◌++◌,
  length, length-append, take, replicate, arith,
}
use solo.Channel.Writer.{sent_bytes}
use solo.MuenNet.{packet_size, sizeof_net_msg, net_msg, byte_at, length_of}

-- The elements of a channel that carries these packets.
abbrev pub messages : (ℕ → List ℕ) → ℕ → ℕ → ℕ
messages packets i k = byte_at (net_msg (packets i)) k

length-replicate : (n v : ℕ) → length (replicate n v) ≡ n
length-replicate zero v = refl
length-replicate (suc n) v = ap suc (length-replicate n v)

pub length-net_msg :
    (buf : List ℕ) → length buf ≤ packet_size → length (net_msg buf) ≡ sizeof_net_msg
length-net_msg buf le = omega (
  arith,
  le,
  length-append buf (replicate (packet_size - length buf) 0 ++ size),
  length-append (replicate (packet_size - length buf) 0) size,
  length-replicate (packet_size - length buf) 0,
)
  where
    size : List ℕ
    size = length buf % 2 ^ 8 ∷ length buf / 2 ^ 8 % 2 ^ 8 ∷ []

byte_at-append : (xs ys : List ℕ) (j : ℕ) → byte_at (xs ++ ys) (length xs + j) ≡ byte_at ys j
byte_at-append [] ys j = subst (λ (n : ℕ). byte_at ys n ≡ byte_at ys j) (from_zero j) refl
  where
    from_zero : (n : ℕ) → n ≡ 0 + n
    from_zero n = omega arith
byte_at-append (x ∷ xs) ys j =
    subst (λ (n : ℕ). byte_at (x ∷ (xs ++ ys)) n ≡ byte_at ys j) (behind_one (length xs) j)
      (byte_at-append xs ys j)
  where
    behind_one : (n m : ℕ) → suc (n + m) ≡ suc n + m
    behind_one n m = omega arith

pub take-append : (xs ys : List ℕ) → take (length xs) (xs ++ ys) ≡ xs
take-append [] ys = refl
take-append (x ∷ xs) ys = ap (λ (t : List ℕ). x ∷ t) (take-append xs ys)

-- The bytes that a writer stores are the list.
sent_bytes-list :
    (xs : List ℕ) (sent : ℕ → ℕ → ℕ) (i k : ℕ)
    → ((j : ℕ) → sent i (k + j) ≡ byte_at xs j)
    → sent_bytes sent i k (length xs) ≡ xs
sent_bytes-list [] sent i k at = refl
sent_bytes-list (x ∷ xs) sent i k at = rw (ap (sent i) from_here ∙ at 0) (
    ap (λ (t : List ℕ). x ∷ t)
      (sent_bytes-list xs sent i (k + 1) (λ j. ap (sent i) (next j) ∙ at (suc j))))
  where
    from_here : k ≡ k + 0
    from_here = omega arith

    next : (j : ℕ) → k + 1 + j ≡ k + suc j
    next j = omega arith

pub message_of :
    (packets : ℕ → List ℕ) (i : ℕ)
    → length (packets i) ≤ packet_size
    → sent_bytes (messages packets) i 0 sizeof_net_msg ≡ net_msg (packets i)
message_of packets i le =
    subst (λ (n : ℕ). sent_bytes (messages packets) i 0 n ≡ net_msg (packets i))
      (length-net_msg (packets i) le)
      (sent_bytes-list (net_msg (packets i)) (messages packets) i 0
        (λ j. ap (messages packets i) (omega arith)))

-- The length of a message is that of its packet.
pub length_of-net_msg :
    (buf : List ℕ) → length buf ≤ packet_size → length_of (net_msg buf) ≡ length buf
length_of-net_msg buf le = omega (arith, le, last 0 refl, last 1 refl)
  where
    size : List ℕ
    size = length buf % 2 ^ 8 ∷ length buf / 2 ^ 8 % 2 ^ 8 ∷ []

    padding : List ℕ
    padding = replicate (packet_size - length buf) 0

    at : (j : ℕ) → length buf + (length padding + j) ≡ packet_size + j
    at j = omega (arith, le, length-replicate (packet_size - length buf) 0)

    last : (j : ℕ) → j ≡ j → byte_at (net_msg buf) (packet_size + j) ≡ byte_at size j
    last j e =
        ap (byte_at (net_msg buf)) (sym (at j))
        ∙ byte_at-append buf (padding ++ size) (length padding + j)
        ∙ byte_at-append padding size j
