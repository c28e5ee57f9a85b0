-- ===== src/Timer/Due.antt =====
-- TimerManager::listExpiredCb of mingfwq/timer.cpp: where it cuts the set of timers.
use mingfwq.Prelude.{
  ℕ, ◌≡◌, refl, ap, arith, Bool, true, false, not, ◌&&◌, inl, inr, Option, List, [], ◌∷◌, ◌++◌, ltb,
  leb, ◌==◌, if◌then◌else◌, All, Bool-cases,
}
use mingfwq.Timer.{Heap, less, lower_bound, skip_equal}
use mingfwq.Timer.Order.{IsSorted, elem, All-elem, All-of_elem}

abbrev pub is_due : Heap → ℕ → ℕ → Bool
is_due h now b = leb (h b).next now

-- The members of the set that are due, in order.
abbrev pub due : Heap → ℕ → List ℕ → List ℕ
due h now [] = []
due h now (b ∷ bs) = if is_due h now b then b ∷ due h now bs else due h now bs

-- The members that are not.
abbrev pub pending : Heap → ℕ → List ℕ → List ℕ
pending h now [] = []
pending h now (b ∷ bs) = if is_due h now b then pending h now bs else b ∷ pending h now bs

abbrev pub callbacks : Heap → List ℕ → List (Option ℕ)
callbacks h [] = []
callbacks h (b ∷ bs) = (h b).cb ∷ callbacks h bs

pub elem-due :
    (h : Heap) (now b : ℕ) (ts : List ℕ) → elem b (due h now ts) ≡ (elem b ts && is_due h now b)
elem-due h now b [] = refl
elem-due h now b (t ∷ ts) = ground (arith, elem-due h now b ts)

pub elem-pending :
    (h : Heap) (now b : ℕ) (ts : List ℕ)
    → elem b (pending h now ts) ≡ (elem b ts && not (is_due h now b))
elem-pending h now b [] = refl
elem-pending h now b (t ∷ ts) = ground (arith, elem-pending h now b ts)

pub due-IsSorted : (h : Heap) (now : ℕ) (ts : List ℕ) → IsSorted h ts → IsSorted h (due h now ts)
due-IsSorted h now [] s = tt
due-IsSorted h now (t ∷ ts) s = elim (Bool-cases (is_due h now t)) [
  | inl e ↦ rw e (
    All-of_elem (λ b. less h t b ≡ true) _
        λ b m. All-elem (λ b. less h t b ≡ true) b ts s.0 (ground (arith, elem-due h now b ts)),
    due-IsSorted h now ts s.1,
  )
  | inr e ↦ rw e (due-IsSorted h now ts s.1)
]

pub pending-IsSorted :
    (h : Heap) (now : ℕ) (ts : List ℕ) → IsSorted h ts → IsSorted h (pending h now ts)
pending-IsSorted h now [] s = tt
pending-IsSorted h now (t ∷ ts) s = elim (Bool-cases (is_due h now t)) [
  | inl e ↦ rw e (pending-IsSorted h now ts s.1)
  | inr e ↦ rw e (
    All-of_elem (λ b. less h t b ≡ true) _
        λ b m. All-elem (λ b. less h t b ≡ true) b ts s.0 (ground (arith, elem-pending h now b ts)),
    pending-IsSorted h now ts s.1,
  )
]

-- Behind a member that is not due, none is.
none_due :
    (h : Heap) (now t : ℕ) (ts : List ℕ)
    → is_due h now t ≡ false
    → All (λ b. less h t b ≡ true) ts
    → (due h now ts ≡ []) × (pending h now ts ≡ ts)
none_due h now t [] e p = (refl, refl)
none_due h now t (b ∷ bs) e p =
    let later : is_due h now b ≡ false = ground (arith, p.0, e) in
    let (q, r) = none_due h now t bs e p.1 in (rw (later, q) refl, rw (later, r) refl)

-- From the first member that is not before `now`, skip_equal ends where the due ones end.
skip_equal_lem :
    (h : Heap) (now : ℕ) (ts : List ℕ)
    → IsSorted h ts
    → All (λ b. ltb (h b).next now ≡ false) ts
    → skip_equal h now ts ≡ (due h now ts, pending h now ts)
unfolding skip_equal
skip_equal_lem h now [] s p = refl
skip_equal_lem h now (t ∷ ts) s p = elim (Bool-cases ((h t).next == now)) [
  | inl e ↦
      let is : is_due h now t ≡ true = ground arith in
      rw (e, is, skip_equal_lem h now ts s.1 p.1) refl
  | inr e ↦
      let later : is_due h now t ≡ false = ground (arith, p.0) in
      let (q, r) = none_due h now t ts later s.0 in rw (e, later, q, r) refl
]

not_before :
    (h : Heap) (now t : ℕ) (ts : List ℕ)
    → ltb (h t).next now ≡ false
    → All (λ b. less h t b ≡ true) ts
    → All (λ b. ltb (h b).next now ≡ false) ts
not_before h now t [] e p = tt
not_before h now t (b ∷ bs) e p = (ground (arith, p.0, e), not_before h now t bs e p.1)

abbrev pub taken : Heap → ℕ → ℕ → List ℕ → List ℕ × List ℕ
taken h now key ts =
    let below = lower_bound h now key ts in
    let equal = skip_equal h now below.1 in (below.0 ++ equal.0, equal.1)

-- lower_bound and the loop behind it cut the set where the due timers end, wherever the
-- temporary timer lies among those of its time.
pub taken_lem :
    (h : Heap) (now key : ℕ) (ts : List ℕ)
    → IsSorted h ts
    → taken h now key ts ≡ (due h now ts, pending h now ts)
unfolding lower_bound
taken_lem h now key [] s = unfold skip_equal in refl
taken_lem h now key (t ∷ ts) s = elim (Bool-cases (ltb (h t).next now)) [
  | inl e ↦
      let is : is_due h now t ≡ true = ground arith in
      let later = taken_lem h now key ts s.1 in
      rw (e, is, ap (λ r. r.0) later, ap (λ r. r.1) later) refl
  | inr e ↦
      let rest = skip_equal_lem h now (t ∷ ts) s (e, not_before h now t ts e s.0) in
      elim (Bool-cases (ltb now (h t).next)) [
        | inl f ↦ rw (e, f) rest
        | inr f ↦ elim (Bool-cases (ltb t key)) [
          | inl g ↦
              let is : is_due h now t ≡ true = ground arith in
              let later = taken_lem h now key ts s.1 in
              rw (e, f, g, is, ap (λ r. r.0) later, ap (λ r. r.1) later) refl
          | inr g ↦ rw (e, f, g) rest
        ]
      ]
]
