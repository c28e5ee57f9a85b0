-- ===== src/Stream/Errors.antt =====
-- readFixSize and writeFixSize of mingfwq/stream.cpp over a stream that fails.
use mingfwq.Prelude.{
  ℕ, zero, suc, ◌+◌, ◌^◌, ◌≤◌, ◌<◌, ◌≡◌, refl, arith, false, Option, none, List, take, drop, ◌==◌,
}
use mingfwq.Stream.{unfinished, add64, sub64, minus_one, read_loop, read_fix_size, write_loop}

-- `0 < left` and `left + fuel ≤ 2 ^ 64` stay true from a round to the next.
module _ {S : Type 0} (read : S → ℕ → Option (List ℕ) × S)
    (fails : (s : S) (n : ℕ) → (read s n).0 ≡ none) where
  read_loop_fails :
      (fuel total offset left : ℕ) (buffer : List ℕ) (s : S)
      → 0 < left
      → left + fuel ≤ 2 ^ 64
      → read_loop read fuel total offset left buffer s ≡ unfinished
  unfolding read_loop
  read_loop_fails zero total offset left buffer s h k = refl
  read_loop_fails (suc zero) total offset left buffer s h k =
      let more : (left == 0) ≡ false = ground (arith, h) in rw (read_loop, more, fails s left) refl
  read_loop_fails (suc (suc fuel)) total offset left buffer s h k =
      let more : (left == 0) ≡ false = ground (arith, h) in
      rw (read_loop, more, fails s left)
        (read_loop_fails (suc fuel) total (add64 offset minus_one) (sub64 left minus_one) buffer
          (read s left).1 (omega (arith, h, k)) (omega (arith, h, k)))

  -- Where every read fails with -1, readFixSize of a positive length does not end: the -1, as a
  -- size_t, is not `<= 0`, and no number of rounds up to 2^64 - length gives the error back.
  pub read_fix_size_fails :
      (fuel total : ℕ) (buffer : List ℕ) (s : S)
      → 0 < total
      → total + fuel ≤ 2 ^ 64
      → read_fix_size read fuel total buffer s ≡ unfinished
  unfolding read_fix_size
  read_fix_size_fails fuel total buffer s = read_loop_fails fuel total 0 total buffer s

module _ {S : Type 0} (write : S → List ℕ → Option ℕ × S)
    (fails : (s : S) (bs : List ℕ) → (write s bs).0 ≡ none) where
  write_loop_fails :
      (fuel total offset left : ℕ) (buffer : List ℕ) (s : S)
      → 0 < left
      → left + fuel ≤ 2 ^ 64
      → write_loop write fuel total offset left buffer s ≡ unfinished
  unfolding write_loop
  write_loop_fails zero total offset left buffer s h k = refl
  write_loop_fails (suc zero) total offset left buffer s h k =
      let more : (left == 0) ≡ false = ground (arith, h) in
      rw (write_loop, more, fails s (take left (drop offset buffer))) refl
  write_loop_fails (suc (suc fuel)) total offset left buffer s h k =
      let more : (left == 0) ≡ false = ground (arith, h) in
      rw (write_loop, more, fails s (take left (drop offset buffer)))
        (write_loop_fails (suc fuel) total (add64 offset minus_one) (sub64 left minus_one) buffer
          (write s (take left (drop offset buffer))).1 (omega (arith, h, k)) (omega (arith, h, k)))
