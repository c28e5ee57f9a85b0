-- ===== src/Prelude/Decimal.antt =====
-- Numbers in decimal, as a std::ostream writes an unsigned integer.
use Prim.Native.Nat.{ℕ, zero, suc, ◌+◌, ◌-◌, ◌*◌, ◌/◌, ◌%◌, ◌≤◌, ◌<◌}
use mathlib.Core.Path.{◌≡◌}
use mathlib.Core.List.{List, [], ◌∷◌}
use native.Mathlib.Omega.{arith}
use mingfwq.Prelude.Lists.{All}

-- The digits of a number before `rest`; each step of fuel writes one.
abbrev pub decimal_onto : ℕ → ℕ → List ℕ → List ℕ
decimal_onto zero n rest = rest
decimal_onto (suc fuel) n rest = elim (n / 10) [
  | zero ↦ (48 + n % 10) ∷ rest
  | suc q ↦ decimal_onto fuel (suc q) ((48 + n % 10) ∷ rest)
]

-- os << n
unfoldable pub decimal : ℕ → List ℕ
decimal n = decimal_onto (suc n) n []

-- The number that digits stand for after those of `n`.
abbrev pub read_digits : ℕ → List ℕ → ℕ
read_digits n [] = n
read_digits n (d ∷ ds) = read_digits (10 * n + (d - 48)) ds

unfoldable pub IsDigit : ℕ → Type 0
IsDigit d = 48 ≤ d × d ≤ 57

read_digits-decimal_onto :
    (fuel n : ℕ) (rest : List ℕ)
    → n < fuel
    → read_digits 0 (decimal_onto fuel n rest) ≡ read_digits n rest
read_digits-decimal_onto zero n rest h = absurd (omega (arith, h))
read_digits-decimal_onto (suc fuel) n rest h =
    ground (arith, h, read_digits-decimal_onto fuel (n / 10) ((48 + n % 10) ∷ rest))

-- What is written is read back.
pub read_digits-decimal : (n : ℕ) → read_digits 0 (decimal n) ≡ n
unfolding decimal
read_digits-decimal n = read_digits-decimal_onto (suc n) n [] (omega arith)

ones-IsDigit : (n : ℕ) → IsDigit (48 + n % 10)
unfolding IsDigit
ones-IsDigit n = (omega arith, omega arith)

decimal_onto-IsDigit :
    (fuel n : ℕ) (rest : List ℕ) → All IsDigit rest → All IsDigit (decimal_onto fuel n rest)
decimal_onto-IsDigit zero n rest h = h
decimal_onto-IsDigit (suc fuel) n rest h =
    ground (arith, h, ones-IsDigit n, decimal_onto-IsDigit fuel (n / 10) ((48 + n % 10) ∷ rest))

pub decimal-IsDigit : (n : ℕ) → All IsDigit (decimal n)
unfolding decimal
decimal-IsDigit n = decimal_onto-IsDigit (suc n) n [] tt
