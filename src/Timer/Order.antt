-- ===== src/Timer/Order.antt =====
-- Timer::Comparator of mingfwq/timer.cpp as an order, and the set that it keeps.
use mingfwq.Prelude.{
  ℕ, ◌≡◌, refl, subst, arith, Bool, true, false, ◌⊎◌, inl, inr, Option, none, some, List, [], ◌∷◌,
  ◌==◌, if◌then◌else◌, All, Bool-cases, ==_iff,
}
use mingfwq.Timer.{Timer, Heap, less, comparator, insert, find_erase, update}

pub less_irrefl : (h : Heap) (a : ℕ) → less h a a ≡ false
less_irrefl h a = ground arith

pub less_trans : (h : Heap) (a b c : ℕ) → less h a b ≡ true → less h b c ≡ true → less h a c ≡ true
less_trans h a b c p q = ground arith

pub less_total : (h : Heap) (a b : ℕ) → (a ≡ b) ⊎ (less h a b ≡ true) ⊎ (less h b a ≡ true)
less_total h a b = ground arith

less_asym : (h : Heap) (a b : ℕ) → less h a b ≡ true → less h b a ≡ false
less_asym h a b p = ground arith

-- The comparator is a strict order on all pointers, null among them: no pointer is before itself,
-- the order is transitive, and of two different pointers one is before the other.
pub comparator_strict :
    (h : Heap) (a b c : Option ℕ)
    → (comparator h a a ≡ false)
      × (comparator h a b ≡ true → comparator h b c ≡ true → comparator h a c ≡ true)
      × ((a ≡ b) ⊎ (comparator h a b ≡ true) ⊎ (comparator h b a ≡ true))
comparator_strict h a b c = (irrefl a, trans a b c, total a b)
  where
    irrefl : (a : Option ℕ) → comparator h a a ≡ false
    irrefl none = unfold comparator in refl
    irrefl (some a) = unfold comparator in less_irrefl h a

    trans :
        (a b c : Option ℕ)
        → comparator h a b ≡ true
        → comparator h b c ≡ true
        → comparator h a c ≡ true
    trans none none c p q = unfold comparator in cc
    trans none (some b) none p q = unfold comparator in cc
    trans none (some b) (some c) p q = unfold comparator in refl
    trans (some a) none c p q = unfold comparator in cc
    trans (some a) (some b) none p q = unfold comparator in cc
    trans (some a) (some b) (some c) p q = unfold comparator in less_trans h a b c p q

    total : (a b : Option ℕ) → (a ≡ b) ⊎ (comparator h a b ≡ true) ⊎ (comparator h b a ≡ true)
    total none none = inl refl
    total none (some b) = unfold comparator in inr (inl refl)
    total (some a) none = unfold comparator in inr (inr refl)
    total (some a) (some b) = unfold comparator in ground (arith, less_total h a b)

-- The addresses in the order of the comparator, each before all that follow.
abbrev pub IsSorted : Heap → List ℕ → Type 0
IsSorted h [] = Unit {0}
IsSorted h (a ∷ rest) = All (λ b. less h a b ≡ true) rest × IsSorted h rest

abbrev pub elem : ℕ → List ℕ → Bool
elem b [] = false
elem b (a ∷ rest) = if a == b then true else elem b rest

pub elem-insert :
    (h : Heap) (a b : ℕ) (ts : List ℕ)
    → elem b (insert h a ts) ≡ (if a == b then true else elem b ts)
unfolding insert
elem-insert h a b [] = refl
elem-insert h a b (t ∷ ts) = ground (arith, elem-insert h a b ts, less_total h a t)

All-insert :
    (P : ℕ → Type 0) (h : Heap) (a : ℕ) (ts : List ℕ) → P a → All P ts → All P (insert h a ts)
unfolding insert
All-insert P h a [] p q = (p, tt)
All-insert P h a (t ∷ ts) p q = elim (Bool-cases (less h a t)) [
  | inl e ↦ rw e (p, q)
  | inr e ↦ elim (Bool-cases (less h t a)) [
    | inl f ↦ rw (e, f) (q.0, All-insert P h a ts p q.1)
    | inr f ↦ rw (e, f) q
  ]
]

All-before :
    (h : Heap) (a b : ℕ) (ts : List ℕ)
    → less h a b ≡ true
    → All (λ c. less h b c ≡ true) ts
    → All (λ c. less h a c ≡ true) ts
All-before h a b [] p q = tt
All-before h a b (t ∷ ts) p q = (less_trans h a b t p q.0, All-before h a b ts p q.1)

pub insert-IsSorted : (h : Heap) (a : ℕ) (ts : List ℕ) → IsSorted h ts → IsSorted h (insert h a ts)
unfolding insert
insert-IsSorted h a [] s = (tt, tt)
insert-IsSorted h a (t ∷ ts) s = elim (Bool-cases (less h a t)) [
  | inl e ↦ rw e ((e, All-before h a t ts e s.0), s)
  | inr e ↦ elim (Bool-cases (less h t a)) [
    | inl f ↦
        rw (e, f) (All-insert (λ b. less h t b ≡ true) h a ts f s.0, insert-IsSorted h a ts s.1)
    | inr f ↦ rw (e, f) s
  ]
]

-- What stands behind a member is not that member.
pub not_elem-All :
    (h : Heap) (a : ℕ) (ts : List ℕ) → All (λ b. less h a b ≡ true) ts → elem a ts ≡ false
not_elem-All h a [] p = refl
not_elem-All h a (t ∷ ts) p = ground (arith, not_elem-All h a ts p.1, less_irrefl h a)

pub All-elem : (P : ℕ → Type 0) (a : ℕ) (ts : List ℕ) → All P ts → elem a ts ≡ true → P a
All-elem P a [] p e = cc
All-elem P a (t ∷ ts) p e = elim (Bool-cases (t == a)) [
  | inl f ↦ subst P ((==_iff t a).0 f) p.0
  | inr f ↦ All-elem P a ts p.1 (rw f at e)
]

pub All-of_elem : (P : ℕ → Type 0) (ts : List ℕ) → ((b : ℕ) → elem b ts ≡ true → P b) → All P ts
All-of_elem P [] p = tt
All-of_elem P (t ∷ ts) p = (p t (ground arith), All-of_elem P ts λ b e. p b (ground arith))

-- find reaches every member of a sorted set, and erase takes out that one alone.
pub find_erase-some :
    (h : Heap) (a : ℕ) (ts : List ℕ)
    → IsSorted h ts
    → elem a ts ≡ true
    → (rest : List ℕ) × (find_erase h a ts ≡ some rest)
      × IsSorted h rest
      × ((b : ℕ) → elem b rest ≡ (if a == b then false else elem b ts))
unfolding find_erase
find_erase-some h a [] s e = cc
find_erase-some h a (t ∷ ts) s e = elim (Bool-cases (t == a)) [
  | inl f ↦
      let same : t ≡ a = (==_iff t a).0 f in
      (ts, rw (← same, less_irrefl h t), s.1, λ b. ground (arith, not_elem-All h t ts s.0))
  | inr f ↦
      let inside : elem a ts ≡ true = rw f at e in
      let before : less h t a ≡ true = All-elem (λ b. less h t b ≡ true) a ts s.0 inside in
      let (rest, found, sorted, members) = find_erase-some h a ts s.1 inside in
      (
        t ∷ rest,
        rw (less_asym h t a before, before, found),
        (
          All-of_elem (λ b. less h t b ≡ true) rest
              λ b m. All-elem (λ b. less h t b ≡ true) b ts s.0 (ground (arith, members b)),
          sorted,
        ),
        λ b. ground (arith, members b),
      )
]

-- Changing an object that is not in the set, or anything but its due time, keeps the order.
pub IsSorted-update :
    (h : Heap) (a : ℕ) (t : Timer) (ts : List ℕ)
    → elem a ts ≡ false
    → IsSorted h ts
    → IsSorted (update h a t) ts
IsSorted-update h a t [] e s = tt
IsSorted-update h a t (x ∷ xs) e s = (
  All-of_elem _ xs λ b m.
      let p : less h x b ≡ true = All-elem (λ b. less h x b ≡ true) b xs s.0 m in ground arith,
  IsSorted-update h a t xs (ground arith) s.1,
)
