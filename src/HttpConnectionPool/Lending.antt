-- ===== src/HttpConnectionPool/Lending.antt =====
-- getConnection and ReleasePtr of mingfwq/http/http_connection.cpp over time: which connections the
-- pool holds and which it has lent.
use mingfwq.Prelude.{
  ℕ, ◌+◌, ◌%◌, ◌^◌, ◌≤◌, ◌≡◌, ◌⊎◌, refl, ap, ◌∙◌, arith, Bool, not, ◌||◌, inl, inr, none, some,
  List, [], ◌∷◌, ◌++◌, ltb, leb, ◌==◌, if◌then◌else◌, length, length-append, Bool-cases,
}
use mingfwq.HttpConnectionPool.{
  HttpConnectionPool, Dial, expiry, sub32, get_connection, release_ptr,
}
use mingfwq.HttpConnectionPool.Search.{Gets, lent, opened, refused, get_connection_lem}

abbrev is_at : ℕ → ℕ → ℕ
is_at a b = if b == a then 1 else 0

-- At how many places of a list the address `a` stands.
abbrev pub places : List ℕ → ℕ → ℕ
places [] a = 0
places (b ∷ l) a = places l a + is_at a b

places-append : (l m : List ℕ) (a : ℕ) → places (l ++ m) a ≡ places m a + places l a
places-append [] m a = omega arith
places-append (b ∷ l) m a = ap (λ k. k + is_at a b) (places-append l m a) ∙ omega arith

-- getConnection and ReleasePtr with the connections that are lent.
pub data Step : HttpConnectionPool → List ℕ → HttpConnectionPool → List ℕ → Type 0 where
  lends :
      {p p' : HttpConnectionPool} {out : List ℕ} (fuel : ℕ) (live : ℕ → Bool) (now : ℕ)
      (dial : Dial) (a : ℕ)
      → get_connection fuel live now dial p ≡ some (some a, p')
      → Step p out p' (a ∷ out)
  fails :
      {p p' : HttpConnectionPool} {out : List ℕ} (fuel : ℕ) (live : ℕ → Bool) (now : ℕ)
      (dial : Dial)
      → get_connection fuel live now dial p ≡ some (none, p')
      → Step p out p' out
  returns :
      {p : HttpConnectionPool} (before after : List ℕ) (live : ℕ → Bool) (now a : ℕ)
      → Step p (before ++ a ∷ after) (release_ptr live now a p) (before ++ after)

pub data Reach : HttpConnectionPool → List ℕ → HttpConnectionPool → List ℕ → Type 0 where
  here : {p : HttpConnectionPool} {out : List ℕ} → Reach p out p out
  next :
      {p p' p'' : HttpConnectionPool} {out out' out'' : List ℕ}
      → Reach p out p' out'
      → Step p' out' p'' out''
      → Reach p out p'' out''

-- Every connection is held or lent once at most, the addresses that are free are those from
-- `next` on, and m_total counts both.
pub record IsCounted (p : HttpConnectionPool) (out : List ℕ) : Type 0 where
  pub once : (a : ℕ) → places p.conns a + places out a ≤ 1
  pub made : (a : ℕ) → p.next ≤ a → places p.conns a + places out a ≡ 0
  pub counted : p.total ≡ (length p.conns + length out) % 2 ^ 32

lends-IsCounted :
    (p p' : HttpConnectionPool) (out : List ℕ) (a : ℕ)
    → IsCounted p out
    → Gets p (some a) p'
    → IsCounted p' (a ∷ out)
lends-IsCounted p p' out a v (lent c cs k k' n t) = record {
  once = λ b. omega (arith, v.once b, ap (λ l. places l b) k, ap (λ l. places l b) k');
  made = λ b l.
      omega
        (arith, v.made b (omega (arith, l, n)), ap (λ l. places l b) k, ap (λ l. places l b) k');
  counted = omega (arith, v.counted, t, ap length k, ap length k');
}
lends-IsCounted p p' out a v (opened k k' n t) = record {
  once = λ b. elim (Bool-cases (b == p.next)) [
    | inl z ↦ ground (arith, z, v.made p.next, v.once b, ap (λ l. places l b) k')
    | inr z ↦ ground (arith, z, v.once b, ap (λ l. places l b) k, ap (λ l. places l b) k')
  ];
  made = λ b l. ground (arith, l, n, v.made b, ap (λ l. places l b) k, ap (λ l. places l b) k');
  counted = omega (arith, v.counted, t, ap length k, ap length k');
}

fails-IsCounted :
    (p p' : HttpConnectionPool) (out : List ℕ) → IsCounted p out → Gets p none p' → IsCounted p' out
fails-IsCounted p p' out v (refused k k' n t) = record {
  once = λ b. omega (arith, v.once b, ap (λ l. places l b) k, ap (λ l. places l b) k');
  made = λ b l.
      omega
        (arith, v.made b (omega (arith, l, n)), ap (λ l. places l b) k, ap (λ l. places l b) k');
  counted = omega (arith, v.counted, t, ap length k, ap length k');
}

release_ptr_lem :
    (live : ℕ → Bool) (now a : ℕ) (p : HttpConnectionPool)
    → ((release_ptr live now a p).next ≡ p.next)
      × ((((release_ptr live now a p).conns ≡ p.conns)
            × ((release_ptr live now a p).total ≡ sub32 p.total 1))
          ⊎ (((release_ptr live now a p).conns ≡ p.conns ++ a ∷ [])
              × ((release_ptr live now a p).total ≡ p.total)))
unfolding release_ptr
release_ptr_lem live now a p =
    let used = ((p.connections a).request + 1) % 2 ^ 64 in
    elim (Bool-cases (not (live a) || leb now (expiry p a) || ltb p.max_request used)) [
      | inl e ↦ rw (release_ptr, e) (refl, inl (refl, refl))
      | inr e ↦ rw (release_ptr, e) (refl, inr (refl, refl))
    ]

returns-IsCounted :
    (live : ℕ → Bool) (now a : ℕ) (p : HttpConnectionPool) (before after : List ℕ)
    → IsCounted p (before ++ a ∷ after)
    → IsCounted (release_ptr live now a p) (before ++ after)
returns-IsCounted live now a p before after v =
    let (n, kept) = release_ptr_lem live now a p in
    let split : (b : ℕ) → places (before ++ a ∷ after) b ≡ is_at b a + places (before ++ after) b =
      λ b. omega (arith, places-append before (a ∷ after) b, places-append before after b) in
    let size : length (before ++ a ∷ after) ≡ 1 + length (before ++ after) =
      omega (arith, length-append before (a ∷ after), length-append before after) in
    elim kept [
      | inl (k, t) ↦ record {
        once = λ b. omega (arith, v.once b, split b, ap (λ l. places l b) k);
        made =
            λ b l. omega (arith, v.made b (omega (arith, l, n)), split b, ap (λ l. places l b) k);
        counted = omega (arith, v.counted, size, t, ap length k);
      }
      | inr (k, t) ↦ record {
        once = λ b.
            omega
              (arith, v.once b, split b, ap (λ l. places l b) k, places-append p.conns (a ∷ []) b);
        made = λ b l. omega (
          arith,
          v.made b (omega (arith, l, n)),
          split b,
          ap (λ l. places l b) k,
          places-append p.conns (a ∷ []) b,
        );
        counted = omega (arith, v.counted, size, t, ap length k, length-append p.conns (a ∷ []));
      }
    ]

-- In every state that a pool reaches from a valid one by getConnection and ReleasePtr of lent
-- connections, no connection is lent twice, or lent and held, and m_total counts, in an int32_t,
-- the connections that are held or lent.
pub Reach-IsCounted :
    {p p' : HttpConnectionPool} {out out' : List ℕ}
    → IsCounted p out
    → Reach p out p' out'
    → IsCounted p' out'
Reach-IsCounted v here = v
Reach-IsCounted v (next r (lends fuel live now dial a e)) =
    lends-IsCounted _ _ _ a (Reach-IsCounted v r)
      (get_connection_lem fuel live now dial _ _ _ _ refl e)
Reach-IsCounted v (next r (fails fuel live now dial e)) =
    fails-IsCounted _ _ _ (Reach-IsCounted v r)
      (get_connection_lem fuel live now dial _ _ _ _ refl e)
Reach-IsCounted v (next r (returns before after live now a)) =
    returns-IsCounted live now a _ before after (Reach-IsCounted v r)
