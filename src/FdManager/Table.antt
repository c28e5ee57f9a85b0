-- ===== src/FdManager/Table.antt =====
-- The vector of mingfwq/fd_manager.cpp by the entry of each descriptor.
use mingfwq.Prelude.{
  ℕ, zero, suc, ◌-◌, ◌≤◌, ◌<◌, ◌≡◌, ◌≢◌, refl, ap, ◌∙◌, arith, Option, none, List, [], ◌∷◌, ◌++◌,
  length, replicate, set, take-all,
}
use mingfwq.FdManager.{entry, resize}

pub entry-set_same :
    (ds : List (Option ℕ)) (i : ℕ) (v : Option ℕ) → i < length ds → entry (set ds i v) i ≡ v
entry-set_same [] i v h = absurd (omega (arith, h))
entry-set_same (d ∷ ds) zero v h = refl
entry-set_same (d ∷ ds) (suc i) v h = entry-set_same ds i v (omega (arith, h))

pub entry-set_other :
    (ds : List (Option ℕ)) (i j : ℕ) (v : Option ℕ) → i ≢ j → entry (set ds i v) j ≡ entry ds j
entry-set_other [] i j v h = refl
entry-set_other (d ∷ ds) zero zero v h = absurd (h refl)
entry-set_other (d ∷ ds) zero (suc j) v h = refl
entry-set_other (d ∷ ds) (suc i) zero v h = refl
entry-set_other (d ∷ ds) (suc i) (suc j) v h = entry-set_other ds i j v (λ e. h (ap suc e))

entry-replicate : (n i : ℕ) → entry (replicate n none) i ≡ none
entry-replicate zero i = refl
entry-replicate (suc n) zero = refl
entry-replicate (suc n) (suc i) = entry-replicate n i

entry-append_none : (ds : List (Option ℕ)) (n i : ℕ) → entry (ds ++ replicate n none) i ≡ entry ds i
entry-append_none [] n i = entry-replicate n i
entry-append_none (d ∷ ds) n zero = refl
entry-append_none (d ∷ ds) n (suc i) = entry-append_none ds n i

pub entry-resize :
    (n : ℕ) (ds : List (Option ℕ)) (i : ℕ) → length ds ≤ n → entry (resize n ds) i ≡ entry ds i
entry-resize n ds i h =
    ap (λ l. entry (l ++ replicate (n - length ds) none) i) (take-all n ds h)
    ∙ entry-append_none ds (n - length ds) i

pub entry_out : (ds : List (Option ℕ)) (i : ℕ) → length ds ≤ i → entry ds i ≡ none
entry_out [] i h = refl
entry_out (d ∷ ds) zero h = absurd (omega (arith, h))
entry_out (d ∷ ds) (suc i) h = entry_out ds i (omega (arith, h))
