-- ===== src/Address/Hosts.antt =====
-- How Lookup of mingfwq/address.cpp takes a host apart.
use mingfwq.Prelude.{ℕ, ◌≡◌, ◌≢◌, refl, none, some, List, [], ◌∷◌, ◌++◌, All, arith}
use mingfwq.Address.{cut_at, bracketed, at_colon, node_service}

-- No byte of the text is `c`.
unfoldable pub Without : ℕ → List ℕ → Type 0
Without c s = All (λ a. a ≢ c) s

pub cut_at-append : (c : ℕ) (s t : List ℕ) → Without c s → cut_at c (s ++ (c ∷ t)) ≡ some (s, t)
unfolding Without
cut_at-append c [] t h = ground arith
cut_at-append c (a ∷ s) t h = ground (arith, h.0, cut_at-append c s t h.1)

pub cut_at_all : (c : ℕ) (s : List ℕ) → Without c s → cut_at c s ≡ none
unfolding Without
cut_at_all c [] h = refl
cut_at_all c (a ∷ s) h = ground (arith, h.0, cut_at_all c s h.1)

-- A name that does not begin with a bracket.
abbrev pub IsUnbracketed : List ℕ → Type 0
IsUnbracketed [] = Unit
IsUnbracketed (a ∷ s) = a ≢ b'['

unbracketed : (s : List ℕ) → IsUnbracketed s → bracketed s ≡ ([], none)
unfolding bracketed
unbracketed [] h = refl
unbracketed (a ∷ s) h = ground (arith, h)

-- What Lookup takes a host for. A name that does not begin with a bracket and has no colon has no
-- service; with one colon, it is cut there; with more than one, it is the node, and its service is
-- the text from the first colon on. An address in brackets, which can have colons but no closing
-- bracket, is the node with the service behind "]:", whatever that is.
pub node_service_lem :
    (a b : ℕ) (name address service : List ℕ)
    → a ≢ b'['
    → Without b':' (a ∷ name)
    → Without b']' (b ∷ address)
    → (node_service (a ∷ name) ≡ (a ∷ name, none))
      × ((Without b':' service
            → node_service (a ∷ name ++ (b':' ∷ service)) ≡ (a ∷ name, some service))
          × ((node_service (b'[' ∷ (b ∷ address ++ (b']' ∷ b':' ∷ service)))
                ≡ (b ∷ address, some service))
              × ((more : List ℕ)
                  → Without b':' service
                  → node_service (a ∷ name ++ (b':' ∷ (service ++ (b':' ∷ more)))) ≡ (
                    a ∷ name ++ (b':' ∷ (service ++ (b':' ∷ more))),
                    some (b':' ∷ (service ++ (b':' ∷ more))),
                  ))))
unfolding node_service at_colon bracketed
node_service_lem a b name address service n c d = (
  ground (arith, n, cut_at_all b':' (a ∷ name) c),
  (
    λ h. ground (arith, n, h, cut_at-append b':' (a ∷ name) service c, cut_at_all b':' service h),
    (
      ground (arith, cut_at-append b']' (b ∷ address) (b':' ∷ service) d),
      λ more h. ground (
        arith,
        n,
        h,
        cut_at-append b':' (a ∷ name) (service ++ (b':' ∷ more)) c,
        cut_at-append b':' service more h,
      ),
    ),
  ),
)
