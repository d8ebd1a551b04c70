-- ===== src/Auth/Tests.antt =====
-- Runs of api/auth.py and of the statements on `api_keys`.
use topicstreams.Auth.{Cache, Credentials, granted, require_api_key, valid_db_keys}
use topicstreams.Auth.Keys.{ApiKeys, get_active_api_keys, add_api_key, set_api_key_active}
use topicstreams.Auth.Keys.Tokens.{add_api_key-set_api_key_active}
use topicstreams.Auth.Freshness.{serve, valid_db_keys-Fresh}
use topicstreams.Auth.Decisions.{
  expected, require_api_key-expected, require_api_key-Revoked, require_api_key-failing,
}
use topicstreams.Base.{
  ℕ, ◌+◌, ◌≤◌, String, ◌≡◌, refl, subst, ◌≢◌, inl, false, Option, none, some, List, [], ◌∷◌, arith,
  ltb, if◌then◌else◌, member, keys, true, not, ◌&&◌, ◌||◌, str_eq,
}

abbrev cold : Cache
cold = record { db_keys = []; expires_at = 0 }

abbrev warm : Cache
warm = record { db_keys = "alice" ∷ []; expires_at = 40000 }

-- The token alice is disabled at 50000.
abbrev active_at : ℕ → Option (List String)
active_at s = some (if ltb s 50000 then "alice" ∷ "bob" ∷ [] else "bob" ∷ [])

readable : (s : ℕ) → active_at s ≢ none
readable s h = absurd (cc)

valid_db_keys-Fresh_example :
    let served =
      valid_db_keys 60000 60001 30000
        (active_at 60001)
        (serve active_at 30000 ((10000, 10001) ∷ (45000, 45000) ∷ []) cold) in
    (s : ℕ) × (active_at s ≡ some served.db_keys) × (s ≤ 60001) × (60000 ≤ s + 30000)
valid_db_keys-Fresh_example =
    valid_db_keys-Fresh active_at 30000 0 60000 60001 ((10000, 10001) ∷ (45000, 45000) ∷ []) cold
      readable (omega arith, omega arith, (omega arith, omega arith, tt)) (omega arith)
      (omega arith) (inl refl)

abbrev alice : Credentials
alice = record { scheme = "Bearer"; credentials = "alice" }

require_api_key-expected_example :
    require_api_key ("ci" ∷ []) warm (some alice) ≡ expected ("ci" ∷ "alice" ∷ []) (some alice)
require_api_key-expected_example =
    require_api_key-expected ("ci" ∷ []) warm (some alice) (refl, (refl, tt))

passes : require_api_key ("ci" ∷ []) warm (some alice) ≡ granted
unfolding topicstreams.Text.lower member
passes = require_api_key-expected ("ci" ∷ []) warm (some alice) (refl, (refl, tt))

disabled :
    (s : ℕ) (keys : List String) → 50000 ≤ s → active_at s ≡ some keys → member "alice" keys ≡ false
unfolding member
disabled s keys h e =
    let off : ltb s 50000 ≡ false = ground arith in
    let now_active : active_at s ≡ some ("bob" ∷ []) = rw off refl in
    let same : "bob" ∷ [] ≡ keys = cc in
    subst (λ (ks : List String). member "alice" ks ≡ false) same refl

require_api_key-Revoked_example :
    require_api_key
      ("ci" ∷ [])
      (valid_db_keys 90000 90000 30000
        (active_at 90000)
        (serve active_at 30000 ((10000, 10001) ∷ (45000, 45000) ∷ []) cold))
      (some alice)
    ≢ granted
unfolding member
require_api_key-Revoked_example =
    require_api_key-Revoked active_at 30000 0 90000 90000 50000
      ((10000, 10001) ∷ (45000, 45000) ∷ []) cold "ci" [] alice readable disabled refl
      (omega arith, omega arith, (omega arith, omega arith, tt)) (omega arith) (omega arith)
      (omega arith) (inl refl)

require_api_key-failing_example :
    require_api_key
      ("ci" ∷ [])
      (serve (λ s. none) 30000 ((50000, 50001) ∷ (56000, 56000) ∷ []) warm)
      (some alice)
    ≡ require_api_key ("ci" ∷ []) warm (some alice)
require_api_key-failing_example =
    require_api_key-failing (λ s. none) 30000 ((50000, 50001) ∷ (56000, 56000) ∷ []) warm
      ("ci" ∷ []) (some alice) (λ s. refl)

abbrev one_key : ApiKeys
one_key = record {
  rows = record { ident = 1; token = "bob"; label = none; is_active = true; created_at = 5 } ∷ [];
  next_id = 2;
}

add_api_key-set_api_key_active_example :
    let (i, added) = add_api_key 10 "alice" none one_key in
    (member "bob" (get_active_api_keys added.rows)
      ≡ (str_eq "alice" "bob" || member "bob" (get_active_api_keys one_key.rows)))
    × (member "bob" (get_active_api_keys (set_api_key_active i false added).1.rows)
        ≡ (not (str_eq "alice" "bob") && member "bob" (get_active_api_keys one_key.rows)))
    × ((add_api_key 20 "alice" none added).0 ≡ i)
add_api_key-set_api_key_active_example =
    add_api_key-set_api_key_active 10 20 "alice" "bob" none one_key
      (record { unique = (tt, tt); below = (omega arith, tt) })
