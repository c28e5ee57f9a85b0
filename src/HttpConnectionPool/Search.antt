-- ===== src/HttpConnectionPool/Search.antt =====
-- The loop of getConnection of mingfwq/http/http_connection.cpp, and what getConnection gives.
use mingfwq.Prelude.{
  ℕ, zero, suc, ◌+◌, ◌≡◌, ◌≢◌, refl, sym, ap, ◌∙◌, subst, arith, Bool, true, false, not, ◌&&◌, ◌||◌,
  inl, inr, Option, none, some, List, [], ◌∷◌, ◌++◌, ltb, Bool-cases,
}
use mathlib.Core.Option.{some-injective}
use mingfwq.HttpConnectionPool.{
  HttpConnectionPool, Dial, put, expiry, add32, sub32, search, get_connection,
}

-- What getConnection gives, where it ends.
pub data Gets (p : HttpConnectionPool) : Option ℕ → HttpConnectionPool → Type 0 where
  lent :
      {p' : HttpConnectionPool} (c : ℕ) (cs : List ℕ)
      → p.conns ≡ c ∷ cs
      → p'.conns ≡ cs
      → p'.next ≡ p.next
      → p'.total ≡ sub32 p.total 0
      → Gets p (some c) p'
  opened :
      {p' : HttpConnectionPool}
      → p.conns ≡ []
      → p'.conns ≡ []
      → p'.next ≡ p.next + 1
      → p'.total ≡ add32 (sub32 p.total 0) 1
      → Gets p (some p.next) p'
  refused :
      {p' : HttpConnectionPool}
      → p.conns ≡ []
      → p'.conns ≡ []
      → p'.next ≡ p.next
      → p'.total ≡ sub32 p.total 0
      → Gets p none p'

-- The test of the loop on the connection at the front.
abbrev pub is_invalid : (ℕ → Bool) → ℕ → HttpConnectionPool → ℕ → Bool
is_invalid live now p c = not (live c) || ltb now (expiry p c)

search_stuck :
    (fuel : ℕ) (live : ℕ → Bool) (now : ℕ) (p : HttpConnectionPool) (c : ℕ) (cs invalid : List ℕ)
    → is_invalid live now p c ≡ true
    → search fuel live now p (c ∷ cs) invalid ≡ none
unfolding search
search_stuck zero live now p c cs invalid e = refl
search_stuck (suc fuel) live now p c cs invalid e =
    let again = search_stuck fuel live now p c cs (invalid ++ c ∷ []) e in
    elim (Bool-cases (live c)) [
      | inr d ↦ rw (search, d) again
      | inl d ↦
          let old : ltb now (expiry p c) ≡ true = rw (← e, d) refl in rw (search, d, old) again
    ]

search_empty :
    (fuel : ℕ) (live : ℕ → Bool) (now : ℕ) (p : HttpConnectionPool)
    → search (suc fuel) live now p [] [] ≡ some ([], none, [])
unfolding search
search_empty fuel live now p = refl

search_first :
    (fuel : ℕ) (live : ℕ → Bool) (now : ℕ) (p : HttpConnectionPool) (c : ℕ) (cs : List ℕ)
    → is_invalid live now p c ≡ false
    → search (suc fuel) live now p (c ∷ cs) [] ≡ some ([], some c, cs)
unfolding search
search_first fuel live now p c cs e = elim (Bool-cases (live c)) [
  | inr d ↦ absurd (ground (arith, e, d))
  | inl d ↦
      let young : ltb now (expiry p c) ≡ false = rw (← e, d) refl in rw (search, d, young) refl
]

search_out_of_fuel :
    (live : ℕ → Bool) (now : ℕ) (p : HttpConnectionPool) → search 0 live now p p.conns [] ≡ none
unfolding search
search_out_of_fuel live now p = refl

nothing : {A : Type 0} {o : Option A} {a : A} → o ≡ none → o ≢ some a
nothing e f = cc (e, f)

-- What getConnection answers is told by a pair.
same_answer :
    {p : HttpConnectionPool} {m : Option (Option ℕ × HttpConnectionPool)}
    {r r' : Option ℕ × HttpConnectionPool}
    → m ≡ some r
    → m ≡ some r'
    → Gets p r.0 r.1
    → Gets p r'.0 r'.1
same_answer {p} e e' g = subst (λ r. Gets p r.0 r.1) (some-injective _ _ (sym e ∙ e')) g

abbrev left_with : HttpConnectionPool → List ℕ → HttpConnectionPool
left_with p cs = record p { conns = cs; total = sub32 p.total 0 }

abbrev with_new : HttpConnectionPool → HttpConnectionPool
with_new p = record p {
  connections = put p.connections p.next (record { create_time = 0; request = 0 });
  next = p.next + 1;
  conns = [];
  total = add32 (sub32 p.total 0) 1;
}

module _ (fuel : ℕ) (live : ℕ → Bool) (now : ℕ) (dial : Dial) (p : HttpConnectionPool) where
  get_nothing :
      search fuel live now p p.conns [] ≡ none → get_connection fuel live now dial p ≡ none
  unfolding get_connection
  get_nothing e = rw (get_connection, e) refl

  get_first :
      (c : ℕ) (cs : List ℕ)
      → p.conns ≡ c ∷ cs
      → search fuel live now p p.conns [] ≡ some ([], some c, cs)
      → (r : Option ℕ × HttpConnectionPool) × (get_connection fuel live now dial p ≡ some r)
        × Gets p r.0 r.1
  unfolding get_connection
  get_first c cs k e =
      ((some c, left_with p cs), rw (get_connection, e) refl, lent c cs k refl refl refl)

  get_new :
      p.conns ≡ []
      → search fuel live now p p.conns [] ≡ some ([], none, [])
      → (r : Option ℕ × HttpConnectionPool) × (get_connection fuel live now dial p ≡ some r)
        × Gets p r.0 r.1
  unfolding get_connection
  get_new k e = elim (Bool-cases (dial.looked_up && dial.created && dial.connected)) [
    | inl d ↦ ((some p.next, with_new p), rw (get_connection, e, d) refl, opened k refl refl refl)
    | inr d ↦ ((none, left_with p []), rw (get_connection, e, d) refl, refused k refl refl refl)
  ]

pub get_connection_lem :
    (fuel : ℕ) (live : ℕ → Bool) (now : ℕ) (dial : Dial) (p : HttpConnectionPool) (o : Option ℕ)
    (p' : HttpConnectionPool) (conns : List ℕ)
    → p.conns ≡ conns
    → get_connection fuel live now dial p ≡ some (o, p')
    → Gets p o p'
get_connection_lem zero live now dial p o p' conns k e =
    absurd (nothing (get_nothing zero live now dial p (search_out_of_fuel live now p)) e)
get_connection_lem (suc fuel) live now dial p o p' [] k e =
    let found = ap (λ l. search (suc fuel) live now p l []) k ∙ search_empty fuel live now p in
    let (r, q, g) = get_new (suc fuel) live now dial p k found in same_answer q e g
get_connection_lem (suc fuel) live now dial p o p' (c ∷ cs) k e =
    let from_front = ap (λ l. search (suc fuel) live now p l []) k in
    elim (Bool-cases (is_invalid live now p c)) [
      | inl d ↦ absurd (
          nothing
            (get_nothing (suc fuel) live now dial p
              (from_front ∙ search_stuck (suc fuel) live now p c cs [] d))
            e)
      | inr d ↦
          let (r, q, g) =
            get_first (suc fuel) live now dial p c cs k
              (from_front ∙ search_first fuel live now p c cs d) in
          same_answer q e g
    ]

-- Where the connection at the front of the pool is not connected any more, or its time of birth
-- and the longest age are later than now, getConnection does not end, for any fuel.
pub get_connection_stuck :
    (fuel : ℕ) (live : ℕ → Bool) (now : ℕ) (dial : Dial) (p : HttpConnectionPool) (c : ℕ)
    (cs : List ℕ)
    → p.conns ≡ c ∷ cs
    → is_invalid live now p c ≡ true
    → get_connection fuel live now dial p ≡ none
get_connection_stuck fuel live now dial p c cs k e =
    get_nothing fuel live now dial p
      (ap (λ l. search fuel live now p l []) k ∙ search_stuck fuel live now p c cs [] e)
