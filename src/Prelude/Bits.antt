-- ===== src/Prelude/Bits.antt =====
-- The native bit operations as arithmetic, at every width.
use Prim.Native.Nat.{
  ℕ, zero, suc, ◌+◌, ◌-◌, ◌*◌, ◌/◌, ◌%◌, ◌^◌, ◌≤◌, ◌<◌, min, max, differ, digits, bitwise, bit_and,
  bit_or, bit_xor, bit_and-bitwise, bit_or-bitwise, bit_xor-bitwise,
}
use mathlib.Core.Path.{◌≡◌, refl, ap, ◌∙◌}
use native.Mathlib.Nat.{pow-suc, one-le-pow, le_refl}
use native.Mathlib.Omega.{arith}

-- The recursion on digits takes no more fuel than the first number, so more of it changes nothing.
module _ (z : ℕ → ℕ) (f : ℕ → ℕ → ℕ) where
  spare_fuel : (fuel a b : ℕ) → a ≤ fuel → digits z f (suc fuel) a b ≡ digits z f fuel a b
  spare_fuel zero zero b h = refl
  spare_fuel (suc fuel) zero b h = refl
  spare_fuel (suc fuel) (suc a) b h = rw (spare_fuel fuel (suc a / 2) (b / 2) (omega arith)) refl
  spare_fuel zero (suc a) b h = absurd (omega arith)

  more_fuel : (k a b : ℕ) → digits z f (k + a) a b ≡ digits z f a a b
  more_fuel zero a b = ap (λ n. digits z f n a b) {x = zero + a} (omega arith)
  more_fuel (suc k) a b =
      ap (λ n. digits z f n a b) {x = suc k + a} {y = suc (k + a)} (omega arith)
      ∙ spare_fuel (k + a) a b (omega arith)
      ∙ more_fuel k a b

  lowest_digit :
      (a b : ℕ)
      → bitwise z f (suc a) b ≡ bitwise z f (suc a / 2) (b / 2) * 2 + f (suc a % 2) (b % 2)
  lowest_digit a b =
      ap (λ d. d * 2 + f (suc a % 2) (b % 2))
        (ap (λ n. digits z f n (suc a / 2) (b / 2)) {y = a - suc a / 2 + suc a / 2} (omega arith)
          ∙ more_fuel (a - suc a / 2) (suc a / 2) (b / 2))

xor_low : (b : ℕ) → b ≡ b / 2 * 2 + differ 0 (b % 2)
xor_low b = omega arith

bit_or_digit : (a b : ℕ) → bit_or a b ≡ bit_or (a / 2) (b / 2) * 2 + max (a % 2) (b % 2)
bit_or_digit zero b = simp bit_or-bitwise (omega arith)
bit_or_digit (suc a) b = simp bit_or-bitwise (lowest_digit (λ y. y) max a b)

pub bit_and_digit : (a b : ℕ) → bit_and a b ≡ bit_and (a / 2) (b / 2) * 2 + min (a % 2) (b % 2)
bit_and_digit zero b = simp bit_and-bitwise (omega arith)
bit_and_digit (suc a) b = simp bit_and-bitwise (lowest_digit (λ y. 0) min a b)

bit_xor_digit : (a b : ℕ) → bit_xor a b ≡ bit_xor (a / 2) (b / 2) * 2 + differ (a % 2) (b % 2)
bit_xor_digit zero b = simp bit_xor-bitwise (xor_low b)
bit_xor_digit (suc a) b = simp bit_xor-bitwise (lowest_digit (λ y. y) differ a b)

double_pow : (q k : ℕ) → q * 2 ^ suc k ≡ 2 * (q * 2 ^ k)
double_pow q k = omega (arith, ap (λ (t : ℕ). q * t) (pow-suc 2 k))

zero-bit_or : (b : ℕ) → bit_or 0 b ≡ b
zero-bit_or b = bit_or-bitwise 0 b

differ-zero : (x : ℕ) → differ x 0 ≡ x
differ-zero zero = refl
differ-zero (suc x) = refl

differ-one : (x : ℕ) → x < 2 → differ x 1 ≡ 1 - x
differ-one zero h = refl
differ-one (suc zero) h = refl
differ-one (suc (suc x)) h = absurd (omega arith)

-- `a | (c << k)` is a sum when `a` fits `k` bits.
pub bit_or-shift : (k a c : ℕ) → a < 2 ^ k → bit_or a (c * 2 ^ k) ≡ a + c * 2 ^ k
bit_or-shift zero zero c h = omega (arith, zero-bit_or (c * 2 ^ zero))
bit_or-shift zero (suc a) c h = absurd (omega arith)
bit_or-shift (suc k) a c h = ground (
  arith,
  bit_or_digit a (c * 2 ^ suc k),
  double_pow c k,
  pow-suc 2 k,
  bit_or-shift k (a / 2) c (omega (arith, pow-suc 2 k)),
)

-- `|` stays within the width of its arguments.
pub bit_or-lt : (w a b : ℕ) → a < 2 ^ w → b < 2 ^ w → bit_or a b < 2 ^ w
bit_or-lt zero zero b h j = omega (arith, zero-bit_or b)
bit_or-lt zero (suc a) b h j = absurd (omega arith)
bit_or-lt (suc w) a b h j = omega (
  arith,
  bit_or_digit a b,
  pow-suc 2 w,
  bit_or-lt w (a / 2) (b / 2) (omega (arith, pow-suc 2 w)) (omega (arith, pow-suc 2 w)),
)

xor_zero_below : (n a : ℕ) → a ≤ n → bit_xor a 0 ≡ a
xor_zero_below n zero h = refl
xor_zero_below zero (suc a) h = absurd (omega arith)
xor_zero_below (suc n) (suc a) h = omega (
  arith,
  bit_xor_digit (suc a) 0,
  differ-zero (suc a % 2),
  xor_zero_below n (suc a / 2) (omega arith),
)

pub bit_xor-zero : (a : ℕ) → bit_xor a 0 ≡ a
bit_xor-zero a = xor_zero_below a a (le_refl a)

ones_half : (w : ℕ) → (2 ^ suc w - 1) / 2 ≡ 2 ^ w - 1
ones_half w = omega (arith, pow-suc 2 w, one-le-pow w 2)

ones_odd : (w : ℕ) → (2 ^ suc w - 1) % 2 ≡ 1
ones_odd w = omega (arith, pow-suc 2 w, one-le-pow w 2)

-- `a ^ mask` with `w` ones is the complement of `a` in `w` bits.
pub bit_xor-ones : (w a : ℕ) → a < 2 ^ w → bit_xor a (2 ^ w - 1) ≡ 2 ^ w - 1 - a
bit_xor-ones zero zero h = refl
bit_xor-ones zero (suc a) h = absurd (omega arith)
bit_xor-ones (suc w) a h =
    rw (bit_xor_digit a (2 ^ suc w - 1), ones_half w, ones_odd w)
      (omega (
        arith,
        pow-suc 2 w,
        one-le-pow w 2,
        differ-one (a % 2) (omega arith),
        bit_xor-ones w (a / 2) (omega (arith, pow-suc 2 w)),
      ))

and_zero_below : (n a : ℕ) → a ≤ n → bit_and a 0 ≡ 0
and_zero_below n zero h = refl
and_zero_below zero (suc a) h = absurd (omega arith)
and_zero_below (suc n) (suc a) h =
    omega (arith, bit_and_digit (suc a) 0, and_zero_below n (suc a / 2) (omega arith))

bit_and-zero : (a : ℕ) → bit_and a 0 ≡ 0
bit_and-zero a = and_zero_below a a (le_refl a)

pub bit_and-one : (a : ℕ) → bit_and a 1 ≡ a % 2
bit_and-one a = omega (arith, bit_and_digit a 1, bit_and-zero (a / 2))

bit_and_15 : (a : ℕ) → bit_and a 15 ≡ a % 16
bit_and_15 a = omega (
  arith,
  bit_and_digit a 15,
  bit_and_digit (a / 2) 7,
  bit_and_digit (a / 2 / 2) 3,
  bit_and-one (a / 2 / 2 / 2),
)

-- `a & 0x7F` keeps the seven low bits.
pub bit_and_127 : (a : ℕ) → bit_and a 127 ≡ a % 128
bit_and_127 a = omega (
  arith,
  bit_and_digit a 127,
  bit_and_digit (a / 2) 63,
  bit_and_digit (a / 2 / 2) 31,
  bit_and_15 (a / 2 / 2 / 2),
)

-- `a & 0xFF` keeps the eight low bits.
pub bit_and_255 : (a : ℕ) → bit_and a 255 ≡ a % 256
bit_and_255 a = omega (arith, bit_and_digit a 255, bit_and_127 (a / 2))

-- `a | 0x80` sets the top bit of a seven-bit value.
pub bit_or_128 : (a : ℕ) → a < 128 → bit_or a 128 ≡ a + 128
bit_or_128 a h = bit_or-shift 7 a 1 h
