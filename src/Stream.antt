-- ===== src/Stream.antt =====
-- mingfwq/stream.cpp: the loops that read or write a whole buffer over a stream that moves a part
-- at a time.
--
-- The stream's own `read` and `write` are parameters: they answer the bytes, or how many, and
-- `none` is the -1 of an error. Their `int` goes into a size_t, so that -1 is 2^64 - 1. A loop
-- takes fuel, a round for each call of the stream.
pub mod Ending
pub mod Reading
pub mod Writing
pub mod Whole
pub mod Errors
mod Examples
use mingfwq.Prelude.{
  ℕ, zero, suc, ◌+◌, ◌-◌, ◌%◌, ◌^◌, Bool, true, false, Option, none, some, List, [], ◌∷◌, ◌++◌, ltb,
  ◌==◌, if◌then◌else◌, length, take, drop,
}
use mingfwq.ByteArray.{overwrite}

-- `returned` has the bits of the int that the loop gives back; `overrun` is a part that does not fit into
-- the buffer; `unfinished` that the fuel is used up.
pub data Outcome (S : Type 0) : Type 0 where
  returned : ℕ → List ℕ → S → Outcome S
  overrun : Outcome S
  unfinished : Outcome S

abbrev pub add64 : ℕ → ℕ → ℕ
add64 a b = (a + b) % 2 ^ 64

abbrev pub sub64 : ℕ → ℕ → ℕ
sub64 a b = (a + 2 ^ 64 - b) % 2 ^ 64

-- The bits of a size_t that is returned as an int.
abbrev pub to_int32 : ℕ → ℕ
to_int32 n = n % 2 ^ 32

-- (size_t)-1
abbrev pub minus_one : ℕ
minus_one = 2 ^ 64 - 1

module _ {S : Type 0} (read : S → ℕ → Option (List ℕ) × S) where
  -- The loop of readFixSize(buffer, length).
  pub read_loop : ℕ → ℕ → ℕ → ℕ → List ℕ → S → Outcome S
  read_loop zero total offset left buffer s = unfinished
  read_loop (suc fuel) total offset left buffer s =
      let r = read s left in
      elim (left == 0) [
        | true ↦ returned (to_int32 total) buffer s
        | false ↦ elim r.0 [
          | none ↦ read_loop fuel total (add64 offset minus_one) (sub64 left minus_one) buffer r.1
          | some bs ↦
              let rest =
                read_loop fuel total (add64 offset (length bs)) (sub64 left (length bs))
                  (overwrite buffer offset bs) r.1 in
              if length bs == 0
              then returned 0 buffer r.1
              else if ltb (length buffer) (offset + length bs)
              then overrun
              else rest
        ]
      ]

  -- readFixSize(buffer, length)
  pub read_fix_size : ℕ → ℕ → List ℕ → S → Outcome S
  unfolding read_loop
  read_fix_size fuel total buffer s = read_loop fuel total 0 total buffer s

module _ {S : Type 0} (write : S → List ℕ → Option ℕ × S) where
  -- The loop of writeFixSize(buffer, length).
  pub write_loop : ℕ → ℕ → ℕ → ℕ → List ℕ → S → Outcome S
  write_loop zero total offset left buffer s = unfinished
  write_loop (suc fuel) total offset left buffer s =
      let r = write s (take left (drop offset buffer)) in
      elim (left == 0) [
        | true ↦ returned (to_int32 total) buffer s
        | false ↦ elim r.0 [
          | none ↦ write_loop fuel total (add64 offset minus_one) (sub64 left minus_one) buffer r.1
          | some n ↦
              let rest = write_loop fuel total (add64 offset n) (sub64 left n) buffer r.1 in
              if n == 0 then returned 0 buffer r.1 else rest
        ]
      ]

  -- writeFixSize(buffer, length)
  pub write_fix_size : ℕ → ℕ → List ℕ → S → Outcome S
  unfolding write_loop
  write_fix_size fuel total buffer s = write_loop fuel total 0 total buffer s
