-- ===== src/BlockSignals.antt =====
-- common/block_signals.py: connection-level refusals in a scrape's error message.
mod Tests
use topicstreams.Text.{codes, lower, contains, contains_intro, contains_elim}
use topicstreams.Base.{
  ℕ, String, ◌≡◌, refl, ap, ◌↔◌, ◌⊎◌, inl, inr, Bool, true, false, not, ◌&&◌, Option, none, some,
  List, [], ◌∷◌, ◌++◌, arith, Bool-cases, any, is_empty,
}

unfoldable pub network_block_patterns : List (List ℕ)
network_block_patterns =
    codes "err_connection_closed"
    ∷ codes "err_connection_reset"
    ∷ codes "err_connection_refused"
    ∷ codes "err_connection_aborted"
    ∷ codes "err_connection_failed"
    ∷ codes "err_socket_not_connected"
    ∷ codes "err_empty_response"
    ∷ []

-- The test on a message that is there, over its code points.
unfoldable pub matches_network_block : List ℕ → Bool
matches_network_block message =
    not (is_empty message) && any (λ p. contains p (lower message)) network_block_patterns

unfoldable pub is_network_block : Option String → Bool
is_network_block none = false
is_network_block (some message) = matches_network_block (codes message)

-- `p` is one of the patterns.
abbrev pub IsPattern : List ℕ → List (List ℕ) → Type 0
IsPattern p [] = ⊥
IsPattern p (q ∷ qs) = (q ≡ p) ⊎ IsPattern p qs

any_intro :
    (p s : List ℕ) (ps : List (List ℕ))
    → IsPattern p ps
    → contains p s ≡ true
    → any (λ q. contains q s) ps ≡ true
any_intro p s [] m h = absurd m
any_intro p s (q ∷ qs) (inl e) h = ground (arith, ap (λ x. contains x s) e)
any_intro p s (q ∷ qs) (inr m) h = ground (arith, any_intro p s qs m h)

any_elim :
    (s : List ℕ) (ps : List (List ℕ))
    → any (λ q. contains q s) ps ≡ true
    → (p : List ℕ) × IsPattern p ps × (contains p s ≡ true)
any_elim s [] h = absurd (cc)
any_elim s (q ∷ qs) h = elim (Bool-cases (contains q s)) [
  | inl here ↦ (q, inl refl, here)
  | inr further ↦ let (p, m, c) = any_elim s qs (ground arith) in (p, inr m, c)
]

any-contains_iff :
    (s : List ℕ) (ps : List (List ℕ))
    → (any (λ q. contains q s) ps ≡ true) ↔ (
        (p : List ℕ) × IsPattern p ps
        × (before : List ℕ) × (after : List ℕ) × (s ≡ before ++ p ++ after))
any-contains_iff s ps = (
  λ h.
      let (p, m, c) = any_elim s ps h in
      let (before, after, e) = contains_elim p s c in (p, m, before, after, e),
  λ (p, m, before, after, e). any_intro p s ps m (rw e (contains_intro before p after)),
)

no_empty_pattern : any (λ q. contains q []) network_block_patterns ≡ false
unfolding network_block_patterns contains
no_empty_pattern = refl

-- A message is a network block exactly when one of the patterns stands somewhere in its lower case.
matches_network_block_iff :
    (message : List ℕ)
    → (matches_network_block message ≡ true) ↔ (
        (p : List ℕ) × IsPattern p network_block_patterns
        × (before : List ℕ) × (after : List ℕ) × (lower message ≡ before ++ p ++ after))
unfolding matches_network_block lower
matches_network_block_iff [] = (
  λ h. absurd (cc),
  λ r. absurd (cc ((any-contains_iff [] network_block_patterns).1 r, no_empty_pattern)),
)
matches_network_block_iff (c ∷ message) =
    any-contains_iff (lower (c ∷ message)) network_block_patterns
