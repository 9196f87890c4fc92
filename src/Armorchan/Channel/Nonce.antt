-- ===== src/Armorchan/Channel/Nonce.antt =====
-- No two counts of a channel have the same nonce.
use routercli.Base.{
  ℕ, zero, suc, ◌/◌, ◌%◌, ◌<◌, [], ◌∷◌, ◌++◌, ◌≡◌, refl, sym, ◌∙◌, arith, length, take, drop, All,
  length-append, length-drop, All-append, cons-injective,
}
use routercli.Armorchan.Frame.{Bytes}
use routercli.Armorchan.Channel.{put_uint, xor_bits, xor_bytes, derive_nonce}

-- The number has `w` bits.
abbrev Fits : ℕ → ℕ → Type 0
Fits zero a = a ≡ 0
Fits (suc w) a = Fits w (a / 2)

xor_bits-cancel : (w x a b : ℕ) → Fits w a → Fits w b → xor_bits w x a ≡ xor_bits w x b → a ≡ b
unfolding xor_bits
xor_bits-cancel zero x a b ha hb e = omega (arith, ha, hb)
xor_bits-cancel (suc w) x a b ha hb e =
    let high = xor_bits-cancel w (x / 2) (a / 2) (b / 2) ha hb (omega (arith, e)) in
    omega (arith, high, e)

byte-Fits : (n : ℕ) → Fits 8 (n % 256)
byte-Fits n = omega arith

-- The number has `w` bytes.
abbrev IsWithin : ℕ → ℕ → Type 0
IsWithin zero n = n ≡ 0
IsWithin (suc w) n = IsWithin w (n / 256)

uint64-IsWithin : (n : ℕ) → n < 18446744073709551616 → IsWithin 8 n
uint64-IsWithin n h = omega arith

length-put_uint : (w n : ℕ) → length (put_uint w n) ≡ w
unfolding put_uint
length-put_uint zero n = refl
length-put_uint (suc w) n =
    omega (arith, length-append (put_uint w (n / 256)) (n % 256 ∷ []), length-put_uint w (n / 256))

snoc-injective :
    (a b : Bytes) (x y : ℕ) → length a ≡ length b → a ++ x ∷ [] ≡ b ++ y ∷ [] → (a ≡ b) × (x ≡ y)
snoc-injective [] [] x y h e = ground arith
snoc-injective [] (d ∷ b) x y h e = ground arith
snoc-injective (c ∷ a) [] x y h e = ground arith
snoc-injective (c ∷ a) (d ∷ b) x y h e = ground (arith, snoc-injective a b x y)

put_uint-injective : (w m n : ℕ) → IsWithin w m → IsWithin w n → put_uint w m ≡ put_uint w n → m ≡ n
unfolding put_uint
put_uint-injective zero m n hm hn e = omega (arith, hm, hn)
put_uint-injective (suc w) m n hm hn e =
    let parts =
      snoc-injective (put_uint w (m / 256)) (put_uint w (n / 256)) (m % 256) (n % 256)
        (length-put_uint w (m / 256) ∙ sym (length-put_uint w (n / 256))) e in
    omega (arith, put_uint-injective w (m / 256) (n / 256) hm hn parts.0, parts.1)

put_uint-Fits : (w n : ℕ) → All (Fits 8) (put_uint w n)
unfolding put_uint
put_uint-Fits zero n = tt
put_uint-Fits (suc w) n =
    All-append (Fits 8) (put_uint w (n / 256)) (n % 256 ∷ []) (put_uint-Fits w (n / 256))
      (byte-Fits n, tt)

xor_bytes-cancel :
    (base a b : Bytes)
    → length a ≡ length base
    → length b ≡ length base
    → All (Fits 8) a
    → All (Fits 8) b
    → xor_bytes base a ≡ xor_bytes base b
    → a ≡ b
unfolding xor_bytes
xor_bytes-cancel [] [] [] ha hb fa fb e = refl
xor_bytes-cancel [] (y ∷ a) b ha hb fa fb e = ground arith
xor_bytes-cancel [] [] (y ∷ b) ha hb fa fb e = ground arith
xor_bytes-cancel (x ∷ base) [] b ha hb fa fb e = ground arith
xor_bytes-cancel (x ∷ base) (y ∷ a) [] ha hb fa fb e = ground arith
xor_bytes-cancel (x ∷ base) (y ∷ a) (z ∷ b) ha hb fa fb e =
    let heads = cons-injective e in
    let same = xor_bits-cancel 8 x y z fa.0 fb.0 heads.0 in
    let rest =
      xor_bytes-cancel base a b (omega (arith, ha)) (omega (arith, hb)) fa.1 fb.1 heads.1 in
    rw (same, rest) refl

append-cancel : (p a b : Bytes) → p ++ a ≡ p ++ b → a ≡ b
append-cancel [] a b e = e
append-cancel (x ∷ p) a b e = append-cancel p a b (cons-injective e).1

-- The nonces of two counts of 64 bits, under one base of twelve bytes, are equal only where the
-- counts are.
pub derive_nonce-injective :
    (base : Bytes) (i j : ℕ)
    → length base ≡ 12
    → i < 18446744073709551616
    → j < 18446744073709551616
    → derive_nonce base i ≡ derive_nonce base j
    → i ≡ j
unfolding derive_nonce
derive_nonce-injective base i j h hi hj e =
    let eight : 8 ≡ length (drop 4 base) = omega (arith, length-drop 4 base, h) in
    let same =
      xor_bytes-cancel (drop 4 base) (put_uint 8 i) (put_uint 8 j) (length-put_uint 8 i ∙ eight)
        (length-put_uint 8 j ∙ eight) (put_uint-Fits 8 i) (put_uint-Fits 8 j)
        (append-cancel (take 4 base) _ _ e) in
    put_uint-injective 8 i j (uint64-IsWithin i hi) (uint64-IsWithin j hj) same
