-- ===== src/ByteArray/Examples.antt =====
-- Runs of mingfwq/bytearray.cpp on small arrays, and the theorems of the component at such inputs.
use mingfwq.Prelude.{ℕ, ◌≡◌, refl, arith, none, List, [], ◌∷◌}
use mingfwq.ByteArray.{
  ByteArray, ok, fault, null_node, make, write, read, to_string, read_at, write_loop, read_loop,
  add_capacity, append_nodes, read_from,
}
use mingfwq.ByteArray.Invariant.{IsValid}
use mingfwq.ByteArray.Write.{Writes, write-Writes, write-FallsShort}
use mingfwq.ByteArray.Read.{Reads, read-Reads}
use mingfwq.ByteArray.Samples.{ones, fours, ones-IsValid, fours-IsValid, ones_fit, fours_short}

-- Three bytes over blocks of one: a chain of three, and a null `m_cur` behind it.
abbrev three_written : ByteArray
three_written = record ones {
  position = 3;
  capacity = 3;
  size = 3;
  nodes = (7 ∷ []) ∷ (8 ∷ []) ∷ (9 ∷ []) ∷ [];
  cur = none;
}

three : write ones (7 ∷ 8 ∷ 9 ∷ []) ≡ ok three_written
unfolding make write write_loop add_capacity append_nodes
three = refl

-- Two bytes into a block of four, read from the start.
abbrev two_in_four : ByteArray
two_in_four = record fours { size = 2; nodes = (5 ∷ 6 ∷ 0 ∷ 0 ∷ []) ∷ [] }

two_in_four-IsValid : IsValid two_in_four
unfolding make
two_in_four-IsValid = record {
  base_pos = omega arith;
  blocks = (refl, tt);
  rooted = omega arith;
  whole = omega arith;
  within = omega arith;
  filled = omega arith;
  at = refl;
}

read_two : to_string two_in_four ≡ ok (5 ∷ 6 ∷ [])
unfolding make to_string read_from read_loop read_at
read_two = refl

three-IsValid : IsValid three_written
unfolding make
three-IsValid = record {
  base_pos = omega arith;
  blocks = (refl, (refl, (refl, tt)));
  rooted = omega arith;
  whole = omega arith;
  within = omega arith;
  filled = omega arith;
  at = refl;
}

write-Writes_example :
    (ba' : ByteArray) × (write ones (7 ∷ 8 ∷ 9 ∷ []) ≡ ok ba') × Writes ones (7 ∷ 8 ∷ 9 ∷ []) ba'
write-Writes_example = write-Writes ones (7 ∷ 8 ∷ 9 ∷ []) ones-IsValid (ones_fit 3)

write-FallsShort_example : write fours (1 ∷ 2 ∷ 3 ∷ 4 ∷ 5 ∷ []) ≡ fault null_node
write-FallsShort_example = write-FallsShort fours (1 ∷ 2 ∷ 3 ∷ 4 ∷ 5 ∷ []) fours-IsValid fours_short

read-Reads_example :
    (r : List ℕ × ByteArray) × (read two_in_four 2 ≡ ok r) × Reads two_in_four 2 r.0 r.1
unfolding make
read-Reads_example = read-Reads two_in_four 2 two_in_four-IsValid (omega arith) (omega arith)
