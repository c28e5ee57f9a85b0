-- ===== src/Stream/Whole.antt =====
-- writeFixSize of mingfwq/stream.cpp over a stream that takes bytes whenever it is offered some.
use mingfwq.Prelude.{
  ℕ, zero, suc, ◌+◌, ◌-◌, ◌^◌, ◌≤◌, ◌<◌, ◌≡◌, refl, sym, ap, ◌∙◌, arith, false, inl, inr, Option,
  some, List, [], ◌++◌, ◌==◌, length, take, drop, length-take, length-drop, take-take,
  take-append-drop, append_assoc, append-nil, drop-drop, drop-all, Bool-cases,
}
use mingfwq.Stream.{Outcome, returned, add64, sub64, to_int32, write_loop, write_fix_size}

-- `write` takes some of the bytes that it is offered, from the front, and nothing of what is to come.
abbrev pub IsOpen :
    {S : Type 0} → (S → List ℕ → Option ℕ × S) → (S → List ℕ) → (S → List ℕ) → Type 0
IsOpen {S} write sent pending =
    (s : S) (bs : List ℕ)
    → 0 < length bs
    → (n : ℕ) × ((write s bs).0 ≡ some n)
      × (0 < n)
      × (n ≤ length bs)
      × (sent (write s bs).1 ≡ sent s ++ take n bs)
      × (pending (write s bs).1 ≡ pending s)

-- The loop returned with the bytes `bs` sent.
pub record Sent {S : Type 0} (sent pending : S → List ℕ) (bs : List ℕ) (s : S) (o : Outcome S)
    : Type 0 where
  pub count : ℕ
  pub buffer : List ℕ
  pub after : S
  pub outcome : o ≡ returned count buffer after
  pub given : sent after ≡ sent s ++ bs
  pub kept : pending after ≡ pending s

module _ {S : Type 0} (write : S → List ℕ → Option ℕ × S) (sent pending : S → List ℕ)
    (takes : IsOpen write sent pending) where
  write_loop-Sent :
      (fuel total left offset : ℕ) (buffer : List ℕ) (s : S)
      → left < fuel
      → offset + left ≡ length buffer
      → length buffer < 2 ^ 63
      → Sent sent pending (drop offset buffer) s (write_loop write fuel total offset left buffer s)
  unfolding write_loop
  write_loop-Sent zero total left offset buffer s f e b = absurd (omega (arith, f))
  write_loop-Sent (suc fuel) total left offset buffer s f e b = elim (Bool-cases (left == 0)) [
    | inl z ↦
        let over : drop offset buffer ≡ [] = drop-all offset buffer (ground (arith, z, e)) in
        record {
          count = to_int32 total;
          buffer = buffer;
          after = s;
          outcome = rw (write_loop, z) refl;
          given = sym (append-nil (sent s)) ∙ ap (λ l. sent s ++ l) (sym over);
          kept = refl;
        }
    | inr z ↦
        let rest : List ℕ = drop offset buffer in
        let part : List ℕ = take left rest in
        let size : length part ≡ left =
          omega (arith, length-take left rest, length-drop offset buffer, e) in
        let (n, p, some_bytes, short, next, same) = takes s part (ground (arith, size, z)) in
        let s' = (write s part).1 in
        let y : (n == 0) ≡ false = ground (arith, some_bytes) in
        let w =
          write_loop-Sent fuel total (left - n) (offset + n) buffer s'
            (omega (arith, f, some_bytes, short, size)) (omega (arith, e, short, size)) b in
        let at : add64 offset n ≡ offset + n = omega (arith, e, short, size, b) in
        let fewer : sub64 left n ≡ left - n = omega (arith, short, size, e, b) in
        let front : sent s' ≡ sent s ++ take n rest =
          next ∙ ap (λ k. sent s ++ k) (take-take n left rest (omega (arith, short, size))) in
        record {
          count = w.count;
          buffer = w.buffer;
          after = w.after;
          outcome = rw (write_loop, z, p, y, at, fewer) w.outcome;
          given =
              w.given
              ∙ rw (front, ← drop-drop n offset buffer)
                  (append_assoc (sent s) (take n rest) (drop n rest)
                    ∙ ap (λ k. sent s ++ k) (take-append-drop n rest));
          kept = w.kept ∙ same;
        }
  ]

  pub write_fix_size-Sent :
      (fuel : ℕ) (buffer : List ℕ) (s : S)
      → length buffer < fuel
      → length buffer < 2 ^ 63
      → Sent sent pending buffer s (write_fix_size write fuel (length buffer) buffer s)
  unfolding write_fix_size
  write_fix_size-Sent fuel buffer s f b =
      write_loop-Sent fuel (length buffer) (length buffer) 0 buffer s f (omega arith) b
