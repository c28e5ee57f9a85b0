-- ===== src/Stream/Reading.antt =====
-- readFixSize of mingfwq/stream.cpp over a stream that does not fail.
use mingfwq.Prelude.{
  ℕ, zero, suc, ◌+◌, ◌-◌, ◌^◌, ◌≤◌, ◌<◌, ◌≡◌, refl, sym, ap, ◌∙◌, arith, true, false, ◌⊎◌, inl, inr,
  Option, some, List, [], ◌∷◌, ◌++◌, ltb, ◌==◌, length, drop, length-append, length-drop,
  append_assoc, drop-drop, Bool-cases,
}
use mingfwq.ByteArray.{overwrite}
use mingfwq.ByteArray.Chain.{overwrite-append_right}
use mingfwq.Stream.{Outcome, returned, add64, sub64, read_loop, read_fix_size}

overwrite_behind :
    (got rest bs : List ℕ)
    → overwrite (got ++ rest) (length got) bs ≡ got ++ (bs ++ drop (length bs) rest)
overwrite_behind got rest bs =
    ap (λ k. overwrite (got ++ rest) k bs) {y = length got + 0} (omega arith)
    ∙ overwrite-append_right got rest bs 0
    ∙ ap (λ k. got ++ (bs ++ drop k rest)) {x = 0 + length bs} (omega arith)

-- `read` answers at most as many bytes as asked for, the next of those that are to come.
abbrev pub IsSource : {S : Type 0} → (S → ℕ → Option (List ℕ) × S) → (S → List ℕ) → Type 0
IsSource {S} read pending =
    (s : S) (n : ℕ)
    → (bs : List ℕ) × ((read s n).0 ≡ some bs)
      × (length bs ≤ n)
      × (pending s ≡ bs ++ pending (read s n).1)

-- The loop returned `k` with `more` bytes behind the `got` ones in the buffer.
pub record Filled {S : Type 0} (pending : S → List ℕ) (total : ℕ) (got rest : List ℕ) (s : S)
    (o : Outcome S) : Type 0 where
  pub count : ℕ
  pub more : List ℕ
  pub after : S
  pub outcome : o ≡ returned count (got ++ (more ++ drop (length more) rest)) after
  pub taken : pending s ≡ more ++ pending after
  pub complete :
      ((count ≡ total) × (length got + length more ≡ total))
      ⊎ ((count ≡ 0) × (length got + length more < total))

length_zero : (bs : List ℕ) → (length bs == 0) ≡ true → bs ≡ []
length_zero [] e = refl
length_zero (b ∷ bs) e = ground (arith, e)

regroup :
    (got bs more rest : List ℕ)
    → (got ++ bs) ++ (more ++ drop (length more) (drop (length bs) rest))
      ≡ got ++ ((bs ++ more) ++ drop (length (bs ++ more)) rest)
regroup got bs more rest =
    append_assoc got bs (more ++ drop (length more) (drop (length bs) rest))
    ∙ ap (λ l. got ++ l)
        (ap (λ l. bs ++ (more ++ l))
            (drop-drop (length more) (length bs) rest
              ∙ ap (λ k. drop k rest) (sym (length-append bs more)))
          ∙ sym (append_assoc bs more (drop (length (bs ++ more)) rest)))

counted :
    {count total : ℕ} (got bs more : List ℕ)
    → ((count ≡ total) × (length (got ++ bs) + length more ≡ total))
      ⊎ ((count ≡ 0) × (length (got ++ bs) + length more < total))
    → ((count ≡ total) × (length got + length (bs ++ more) ≡ total))
      ⊎ ((count ≡ 0) × (length got + length (bs ++ more) < total))
counted got bs more (inl (p, q)) =
    inl (p, omega (arith, q, length-append got bs, length-append bs more))
counted got bs more (inr (p, q)) =
    inr (p, omega (arith, q, length-append got bs, length-append bs more))

module _ {S : Type 0} (read : S → ℕ → Option (List ℕ) × S) (pending : S → List ℕ)
    (source : IsSource read pending) where
  read_loop-Filled :
      (fuel total left : ℕ) (got rest : List ℕ) (s : S)
      → left < fuel
      → length got + left ≡ total
      → left ≤ length rest
      → total < 2 ^ 31
      → Filled pending total got rest s
          (read_loop read fuel total (length got) left (got ++ rest) s)
  unfolding read_loop
  read_loop-Filled zero total left got rest s f e l b = absurd (omega (arith, f))
  read_loop-Filled (suc fuel) total left got rest s f e l b = elim (Bool-cases (left == 0)) [
    | inl z ↦ record {
      count = total;
      more = [];
      after = s;
      outcome =
          rw (read_loop, z) (ap (λ k. returned k (got ++ rest) s) {y = total} (omega (arith, b)));
      taken = refl;
      complete = inl (refl, ground (arith, z, e));
    }
    | inr z ↦
        let (bs, p, short, next) = source s left in
        let s' = (read s left).1 in
        elim (Bool-cases (length bs == 0)) [
          | inl y ↦ record {
            count = 0;
            more = [];
            after = s';
            outcome = rw (read_loop, z, p, y) refl;
            taken = next ∙ ap (λ l. l ++ pending s') (length_zero bs y);
            complete = inr (refl, ground (arith, z, e));
          }
          | inr y ↦
              let fits : ltb (length (got ++ rest)) (length got + length bs) ≡ false =
                ground (arith, length-append got rest, short, l) in
              let w =
                read_loop-Filled fuel total (left - length bs) (got ++ bs) (drop (length bs) rest)
                  s' (ground (arith, f, y)) (omega (arith, length-append got bs, e, short))
                  (omega (arith, length-drop (length bs) rest, l, short)) b in
              let at : add64 (length got) (length bs) ≡ length (got ++ bs) =
                omega (arith, length-append got bs, e, short, b) in
              let fewer : sub64 left (length bs) ≡ left - length bs = omega (arith, short, e, b) in
              let buffer : overwrite (got ++ rest) (length got) bs
                  ≡ (got ++ bs) ++ drop (length bs) rest =
                overwrite_behind got rest bs ∙ sym (append_assoc got bs (drop (length bs) rest)) in
              record {
                count = w.count;
                more = bs ++ w.more;
                after = w.after;
                outcome =
                    rw (read_loop, z, p, y, fits, at, fewer, buffer)
                      (w.outcome
                        ∙ ap (λ l. returned w.count l w.after) (regroup got bs w.more rest));
                taken =
                    next
                    ∙ ap (λ l. bs ++ l) w.taken
                    ∙ sym (append_assoc bs w.more (pending w.after));
                complete = counted got bs w.more w.complete;
              }
        ]
  ]

-- readFixSize over a stream that does not fail, of a `total` below 2^31 and the fuel that the
-- buffer has room for, ends after at most `total` reads. It gives back `total` with the next `total` bytes of the stream in the buffer, or, where the stream ends
-- first, 0 with the bytes that came; the buffer behind them is untouched, and no byte is lost.
pub read_fix_size-Filled :
    {S : Type 0} (read : S → ℕ → Option (List ℕ) × S) (pending : S → List ℕ) (fuel total : ℕ)
    (buffer : List ℕ) (s : S)
    → IsSource read pending
    → total < fuel
    → total ≤ length buffer
    → total < 2 ^ 31
    → Filled pending total [] buffer s (read_fix_size read fuel total buffer s)
unfolding read_fix_size
read_fix_size-Filled read pending fuel total buffer s source f l b =
    read_loop-Filled read pending source fuel total total [] buffer s f (omega arith) l b
