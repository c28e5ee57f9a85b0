-- ===== src/IoManager/Table.antt =====
-- The table of contexts of mingfwq/iomanager.cpp, and what contextResize makes of it.
use mingfwq.Prelude.{
  ℕ, zero, suc, ◌+◌, ◌*◌, ◌/◌, ◌≤◌, ◌<◌, ◌≡◌, ◌≢◌, refl, sym, ap, ◌∙◌, arith, inl, inr, false,
  Option, none, some, List, [], ◌∷◌, ltb, if◌then◌else◌, length, get_elem?, set, Bool-cases,
}
use mingfwq.IoManager.{no_bits, empty_context, FdContext, context_resize, has_context, grow}

abbrev pub new_context : ℕ → FdContext
new_context fd = record {
  fd = fd;
  reader = empty_context;
  writer = empty_context;
  events = no_bits;
}

-- The context of a descriptor, without any event where there is none.
abbrev pub found_or : ℕ → Option FdContext → FdContext
found_or fd none = new_context fd
found_or fd (some c) = c

abbrev pub found : ℕ → List FdContext → FdContext
found fd cs = found_or fd (get_elem? cs fd)

abbrev pub grown : ℕ → List FdContext → List FdContext
grown fd cs = if has_context fd cs then cs else grow fd cs

pub length-context_resize : (n i : ℕ) (cs : List FdContext) → length (context_resize n i cs) ≡ n
unfolding context_resize
length-context_resize zero i cs = refl
length-context_resize (suc n) i [] = ap suc (length-context_resize n (i + 1) [])
length-context_resize (suc n) i (c ∷ cs) = ap suc (length-context_resize n (i + 1) cs)

new-context_resize :
    (n i : ℕ) (cs : List FdContext) (fd : ℕ)
    → length cs ≤ fd
    → fd < n
    → get_elem? (context_resize n i cs) fd ≡ some (new_context (i + fd))
unfolding context_resize
new-context_resize zero i cs fd h k = absurd (omega (arith, k))
new-context_resize (suc n) i [] zero h k = ap (λ j. some (new_context j)) (omega arith)
new-context_resize (suc n) i [] (suc fd) h k =
    new-context_resize n (i + 1) [] fd (omega arith) (omega (arith, k))
    ∙ ap (λ j. some (new_context j)) (omega arith)
new-context_resize (suc n) i (c ∷ cs) zero h k = absurd (omega (arith, h))
new-context_resize (suc n) i (c ∷ cs) (suc fd) h k =
    new-context_resize n (i + 1) cs fd (omega (arith, h)) (omega (arith, k))
    ∙ ap (λ j. some (new_context j)) (omega arith)

old-context_resize :
    (n i : ℕ) (cs : List FdContext) (fd : ℕ)
    → fd < length cs
    → fd < n
    → get_elem? (context_resize n i cs) fd ≡ get_elem? cs fd
unfolding context_resize
old-context_resize zero i cs fd h k = absurd (omega (arith, k))
old-context_resize (suc n) i [] fd h k = absurd (omega (arith, h))
old-context_resize (suc n) i (c ∷ cs) zero h k = refl
old-context_resize (suc n) i (c ∷ cs) (suc fd) h k =
    old-context_resize n (i + 1) cs fd (omega (arith, h)) (omega (arith, k))

beyond : (cs : List FdContext) (fd : ℕ) → length cs ≤ fd → get_elem? cs fd ≡ none
beyond [] fd h = refl
beyond (c ∷ cs) zero h = absurd (omega (arith, h))
beyond (c ∷ cs) (suc fd) h = beyond cs fd (omega (arith, h))

inside :
    (cs : List FdContext) (i fd : ℕ)
    → i < length cs
    → get_elem? cs i ≡ some (found_or fd (get_elem? cs i))
inside [] i fd h = absurd (omega (arith, h))
inside (c ∷ cs) zero fd h = refl
inside (c ∷ cs) (suc i) fd h = inside cs i fd (omega (arith, h))

new-grow :
    (fd : ℕ) (cs : List FdContext)
    → 32 ≤ length cs
    → length cs ≤ fd
    → get_elem? (grow fd cs) fd ≡ some (new_context fd)
new-grow fd cs h out =
    let first : 0 + fd ≡ fd = omega arith in
    new-context_resize (fd * 3 / 2) 0 cs fd out (omega (arith, out, h))
    ∙ ap (λ j. some (new_context j)) first

-- addEvent has a context for every descriptor: the one that was there, or a new one.
pub found-grown :
    (fd : ℕ) (cs : List FdContext)
    → 32 ≤ length cs
    → get_elem? (grown fd cs) fd ≡ some (found fd cs)
found-grown fd cs h = elim (Bool-cases (ltb fd (length cs))) [
  | inl e ↦ rw e (inside cs fd fd (ground (arith, e)))
  | inr e ↦
      let out : length cs ≤ fd = ground (arith, e) in
      rw e (new-grow fd cs h out ∙ ap (λ o. some (found_or fd o)) (sym (beyond cs fd out)))
]

pub others-grown :
    (fd : ℕ) (cs : List FdContext) (i : ℕ)
    → 32 ≤ length cs
    → i < length cs
    → get_elem? (grown fd cs) i ≡ get_elem? cs i
others-grown fd cs i h k = elim (Bool-cases (ltb fd (length cs))) [
  | inl e ↦ rw e refl
  | inr e ↦
      let out : length cs ≤ fd = ground (arith, e) in
      rw e (old-context_resize (fd * 3 / 2) 0 cs i k (omega (arith, out, h, k)))
]

pub get_elem?-set :
    (cs : List FdContext) (fd : ℕ) (c c' : FdContext)
    → get_elem? cs fd ≡ some c
    → get_elem? (set cs fd c') fd ≡ some c'
get_elem?-set [] fd c c' e = cc
get_elem?-set (x ∷ xs) zero c c' e = refl
get_elem?-set (x ∷ xs) (suc fd) c c' e = get_elem?-set xs fd c c' e

pub get_elem?-set_other :
    (cs : List FdContext) (fd i : ℕ) (c : FdContext)
    → i ≢ fd
    → get_elem? (set cs fd c) i ≡ get_elem? cs i
get_elem?-set_other [] fd i c n = refl
get_elem?-set_other (x ∷ xs) zero zero c n = elim (n refl) [ ]
get_elem?-set_other (x ∷ xs) zero (suc i) c n = refl
get_elem?-set_other (x ∷ xs) (suc fd) zero c n = refl
get_elem?-set_other (x ∷ xs) (suc fd) (suc i) c n =
    get_elem?-set_other xs fd i c (λ e. n (ap suc e))

-- Two threads add events for the descriptors `a` and `b`, and both have found, under the read
-- lock, that the table has no context for theirs. Where the one for `b` resizes first, and `b` is not
-- below one and a half times `a`, the other one's resize makes the table shorter: the context
-- of `b` is gone.
pub grow_race :
    (a b : ℕ) (cs : List FdContext)
    → has_context a cs ≡ false
    → has_context b cs ≡ false
    → 32 ≤ length cs
    → a * 3 / 2 ≤ b
    → (get_elem? (grow b cs) b ≡ some (new_context b)) × (get_elem? (grow a (grow b cs)) b ≡ none)
grow_race a b cs out_a out_b h l =
    let out : length cs ≤ b = ground (arith, out_b) in
    (
      new-grow b cs h out,
      beyond (grow a (grow b cs)) b
          (omega (arith, length-context_resize (a * 3 / 2) 0 (grow b cs), l)),
    )
