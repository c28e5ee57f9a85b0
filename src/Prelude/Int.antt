-- ===== src/Prelude/Int.antt =====
-- Signed integers over the native numbers, under the library's names (its ℤ stands on the unary ℕ).
use Prim.Native.Nat.{ℕ, suc, ◌-◌, ◌^◌, ◌<◌}
use mingfwq.Prelude.Tests.{ltb, if◌then◌else◌}

-- `negsuc n` is -(n + 1).
pub data ℤ : Type 0 where
  pos : ℕ → ℤ
  negsuc : ℕ → ℤ

-- The values of a signed integer of `k + 1` bits.
abbrev pub IsSigned : ℕ → ℤ → Type 0
IsSigned k (pos n) = n < 2 ^ k
IsSigned k (negsuc n) = n < 2 ^ k

-- The value of a pattern of `k + 1` bits, in two's complement.
abbrev pub to_signed : ℕ → ℕ → ℤ
to_signed k u = if ltb u (2 ^ k) then pos u else negsuc (2 ^ suc k - 1 - u)
