-- ===== src/Stream/Examples.antt =====
-- The theorems on the loops of a stream on small streams.
use mingfwq.Prelude.{
  ℕ, zero, suc, refl, sym, append-nil, arith, Option, none, some, List, [], ◌∷◌, ◌++◌,
}
use mingfwq.Stream.{read_fix_size}
use mingfwq.Stream.Reading.{IsSource, Filled, read_fix_size-Filled}
use mingfwq.Stream.Writing.{IsSink}

-- A stream that moves a byte at a time.
abbrev one_by_one : List ℕ → ℕ → Option (List ℕ) × List ℕ
one_by_one [] n = (some [], [])
one_by_one (b ∷ bs) zero = (some [], b ∷ bs)
one_by_one (b ∷ bs) (suc n) = (some (b ∷ []), bs)

one_by_one-IsSource : IsSource one_by_one (λ s. s)
one_by_one-IsSource [] n = ([], refl, omega arith, refl)
one_by_one-IsSource (b ∷ bs) zero = ([], refl, omega arith, refl)
one_by_one-IsSource (b ∷ bs) (suc n) = (b ∷ [], refl, omega arith, refl)

abbrev accept_one : List ℕ → List ℕ → Option ℕ × List ℕ
accept_one s [] = (some 0, s)
accept_one s (b ∷ bs) = (some 1, s ++ b ∷ [])

accept_one-IsSink : IsSink accept_one (λ s. s)
accept_one-IsSink s [] = (0, refl, omega arith, sym (append-nil s))
accept_one-IsSink s (b ∷ bs) = (1, refl, omega arith, refl)

abbrev broken : ℕ → ℕ → Option (List ℕ) × ℕ
broken s n = (none, s)

abbrev blank : List ℕ
blank = 0 ∷ 0 ∷ 0 ∷ []

read_fix_size-Filled_example :
    Filled
      (λ s. s)
      3
      []
      blank
      (7 ∷ 8 ∷ 9 ∷ 10 ∷ [])
      (read_fix_size one_by_one 4 3 blank (7 ∷ 8 ∷ 9 ∷ 10 ∷ []))
read_fix_size-Filled_example =
    read_fix_size-Filled one_by_one (λ s. s) 4 3 blank (7 ∷ 8 ∷ 9 ∷ 10 ∷ []) one_by_one-IsSource
      (omega arith) (omega arith) (omega arith)
