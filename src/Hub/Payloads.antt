-- ===== src/Hub/Payloads.antt =====
-- The payload of a notification in api/v1/websocket/manager.py: a topic, a colon and an id.
use topicstreams.Hub.{rsplit_colon}
use topicstreams.Base.{ℕ, ◌≡◌, refl, Bool, false, none, some, List, [], ◌∷◌, ◌++◌, arith, ◌==◌, any}

abbrev pub has_colon : List ℕ → Bool
has_colon s = any (λ c. c == b':') s

no_colon : (s : List ℕ) → has_colon s ≡ false → rsplit_colon s ≡ none
unfolding rsplit_colon
no_colon [] h = refl
no_colon (c ∷ s) h =
    let rest : rsplit_colon s ≡ none = no_colon s (ground (arith, h)) in
    let here : (c == b':') ≡ false = ground (arith, h) in rw rest (rw here refl)

-- Splitting the payload that the database sends gives the topic and the id back, also for a topic
-- that has colons itself.
pub rsplit_colon-append :
    (topic entry_id : List ℕ)
    → has_colon entry_id ≡ false
    → rsplit_colon (topic ++ b':' ∷ entry_id) ≡ some (topic, entry_id)
unfolding rsplit_colon
rsplit_colon-append [] entry_id h = rw (no_colon entry_id h) refl
rsplit_colon-append (c ∷ topic) entry_id h = rw (rsplit_colon-append topic entry_id h) refl
