-- ===== src/ByteArray/Samples.antt =====
-- Small arrays for the runs of mingfwq/bytearray.cpp: blocks of one byte, as in
-- tests/test_bytearray.cpp, and blocks of four.
use mingfwq.Prelude.{ℕ, ◌-◌, arith}
use native.Mathlib.Nat.{mod-one}
use mingfwq.ByteArray.{ByteArray, make, free_capacity}
use mingfwq.ByteArray.Invariant.{IsValid, make-IsValid}
use mingfwq.ByteArray.Capacity.{FallsShort}

abbrev pub ones : ByteArray
ones = make 1 0

abbrev pub fours : ByteArray
fours = make 4 0

pub ones-IsValid : IsValid ones
ones-IsValid = make-IsValid 1 0 (omega arith)

pub fours-IsValid : IsValid fours
fours-IsValid = make-IsValid 4 0 (omega arith)

-- With blocks of one byte no request falls short; with blocks of four five bytes do.
pub ones_fit : (n : ℕ) → ¬ FallsShort ones n
unfolding make
ones_fit n f = omega (arith, f.partial, mod-one (n - free_capacity ones))

pub fours_short : FallsShort fours 5
unfolding make
fours_short = record { more = omega arith; partial = omega arith; hidden = omega arith }

pub fours_fit : ¬ FallsShort fours 3
unfolding make
fours_fit f = omega (arith, f.more)
