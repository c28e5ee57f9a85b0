-- ===== src/ByteArray/Varint/Zigzag.antt =====
-- EncodeZigzag32, EncodeZigzag64, DecodeZigzag32 and DecodeZigzag64 of mingfwq/bytearray.cpp.
use mingfwq.Prelude.{
  ℕ, suc, ◌+◌, ◌-◌, ◌*◌, ◌/◌, ◌%◌, ◌^◌, ◌≤◌, ◌<◌, ◌≡◌, ap, ◌∙◌, arith, bit_xor, bit_and,
  bit_xor-zero, bit_xor-ones, bit_and-one, lt→ltb, le→not_ltb, ◌⊎◌, inl, inr,
}
use mingfwq.Prelude.Int.{ℤ, pos, negsuc, to_signed, IsSigned}
use mathlib.Core.Path.{ap₂}
use native.Mathlib.Nat.{mod-lt, pow-suc, one-le-pow, mod-eq_of_lt, mod_self, add-mod_right}
use mingfwq.ByteArray.Varint.{encode_zigzag, decode_zigzag}

-- The code in plain arithmetic: 0, -1, 1, -2, ... become 0, 1, 2, 3, ...
abbrev zigzag : ℤ → ℕ
zigzag (pos n) = 2 * n
zigzag (negsuc n) = 2 * n + 1

pub encode_zigzag_lem : (k : ℕ) (v : ℤ) → IsSigned k v → encode_zigzag (suc k) v ≡ zigzag v
unfolding encode_zigzag
encode_zigzag_lem k (pos n) h = rw (mod-eq_of_lt (fits k n h)) (omega arith)
  where
    fits : (k n : ℕ) → n < 2 ^ k → n * 2 < 2 ^ suc k
    fits k n h = omega (arith, pow-suc 2 k)
encode_zigzag_lem k (negsuc n) h = rw (mod-eq_of_lt below) (
    ap (λ t. t % 2 ^ suc k) {x = suc n * 2 + 2 ^ suc k - 1} {y = 2 * n + 1 + 2 ^ suc k}
      (omega arith)
    ∙ add-mod_right (2 * n + 1) (2 ^ suc k)
    ∙ mod-eq_of_lt fits)
  where
    below : suc n < 2 ^ suc k
    below = omega (arith, pow-suc 2 k, one-le-pow k 2)

    fits : 2 * n + 1 < 2 ^ suc k
    fits = omega (arith, pow-suc 2 k)

decode_zigzag_even : (k n : ℕ) → n < 2 ^ k → decode_zigzag k (2 * n) ≡ pos n
unfolding decode_zigzag
decode_zigzag_even k n h =
    ap (to_signed k) (
      ap₂ bit_xor half
        (ap (λ t. t % 2 ^ suc k) {y = 2 ^ suc k} (omega (arith, low)) ∙ mod_self (2 ^ suc k))
      ∙ bit_xor-zero n)
    ∙ rw (lt→ltb n (2 ^ k) h)
  where
    half : 2 * n / 2 ≡ n
    half = omega arith

    low : bit_and (2 * n) 1 ≡ 0
    low = omega (arith, bit_and-one (2 * n))

decode_zigzag_odd : (k n : ℕ) → n < 2 ^ k → decode_zigzag k (2 * n + 1) ≡ negsuc n
unfolding decode_zigzag
decode_zigzag_odd k n h =
    ap (to_signed k) (
      ap₂ bit_xor half (
        ap (λ t. (2 ^ suc k - t) % 2 ^ suc k) low
        ∙ mod-eq_of_lt (omega (arith, one-le-pow (suc k) 2)))
      ∙ bit_xor-ones (suc k) n (omega (arith, pow-suc 2 k)))
    ∙ rw (le→not_ltb (2 ^ k) (2 ^ suc k - 1 - n) (omega (arith, pow-suc 2 k)))
        (ap negsuc (omega (arith, pow-suc 2 k)))
  where
    half : (2 * n + 1) / 2 ≡ n
    half = omega arith

    low : bit_and (2 * n + 1) 1 ≡ 1
    low = omega (arith, bit_and-one (2 * n + 1))

-- Decoding undoes encoding, for every signed integer of `k + 1` bits.
pub decode_zigzag-encode_zigzag :
    (k : ℕ) (v : ℤ) → IsSigned k v → decode_zigzag k (encode_zigzag (suc k) v) ≡ v
decode_zigzag-encode_zigzag k (pos n) h =
    ap (decode_zigzag k) (encode_zigzag_lem k (pos n) h) ∙ decode_zigzag_even k n h
decode_zigzag-encode_zigzag k (negsuc n) h =
    ap (decode_zigzag k) (encode_zigzag_lem k (negsuc n) h) ∙ decode_zigzag_odd k n h

-- What a pattern of `j + 1` bits stands for fits `j + 1` signed bits, also decoded at more.
pub decode_zigzag-IsSigned :
    (j k u : ℕ) → 2 ^ j ≤ 2 ^ k → u < 2 ^ suc j → IsSigned j (decode_zigzag k u)
decode_zigzag-IsSigned j k u wide h = elim (parity u) [
  | inl e ↦ rw (e, decode_zigzag_even k (u / 2) (omega (arith, pow-suc 2 j))) half
  | inr e ↦ rw (e, decode_zigzag_odd k (u / 2) (omega (arith, pow-suc 2 j))) half
]
  where
    half : u / 2 < 2 ^ j
    half = omega (arith, pow-suc 2 j)

    parity : (u : ℕ) → (u ≡ 2 * (u / 2)) ⊎ (u ≡ 2 * (u / 2) + 1)
    parity u = omega arith

pub encode_zigzag-lt : (k : ℕ) (v : ℤ) → encode_zigzag (suc k) v < 2 ^ suc k
unfolding encode_zigzag
encode_zigzag-lt k (pos n) = mod-lt (n * 2) (one-le-pow (suc k) 2 (omega arith))
encode_zigzag-lt k (negsuc n) = mod-lt _ (one-le-pow (suc k) 2 (omega arith))
