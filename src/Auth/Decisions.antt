-- ===== src/Auth/Decisions.antt =====
-- Who passes `require_api_key` of api/auth.py.
use topicstreams.Text.{codes, lower}
use topicstreams.Auth.{
  Cache, refreshed, refresh_db_keys, valid_db_keys, Credentials, Verdict, granted, unauthorized,
  crashed, same_codes, is_ascii, compare_digest, check_token, check_credentials, require_api_key,
}
use topicstreams.Auth.Freshness.{serve, InOrder, last_time, Reads, valid_db_keys-Fresh}
use topicstreams.Base.{
  ℕ, ◌+◌, ◌≤◌, String, ◌≡◌, refl, sym, ap, ◌∙◌, ◌≢◌, inl, inr, true, false, not, ◌&&◌, ◌||◌, Option,
  none, some, List, [], ◌∷◌, ◌++◌, arith, eq_iff, str_eq, if◌then◌else◌, Bool-cases, is_empty, All,
  member, keys,
}

check_token_ascii :
    (token : String) (keys : List String)
    → All (λ k. is_ascii k ≡ true) keys
    → is_ascii token ≡ true
    → check_token token keys ≡ (if member token keys then granted else unauthorized)
unfolding check_token compare_digest member
check_token_ascii token [] all_ascii ascii = refl
check_token_ascii token (k ∷ ks) all_ascii ascii = rw ascii (
    rw (all_ascii.0) (elim (Bool-cases (str_eq token k)) [
      | inl same ↦ rw same (
          let turned : str_eq k token ≡ true = ground (arith, eq_iff token k, eq_iff k token) in
          rw turned refl)
      | inr other ↦ rw other (
          let turned : str_eq k token ≡ false = ground (arith, eq_iff token k, eq_iff k token) in
          rw turned (check_token_ascii token ks all_ascii.1 ascii))
    ]))

check_token_other :
    (token : String) (keys : List String)
    → is_ascii token ≡ false
    → check_token token keys ≡ (if is_empty keys then unauthorized else crashed)
unfolding check_token compare_digest
check_token_other token [] other = refl
check_token_other token (k ∷ ks) other = rw other refl

-- What a request is answered, with and without credentials.
abbrev pub expected : List String → Option Credentials → Verdict
expected keys none = if is_empty keys then granted else unauthorized
expected keys (some c) =
    if is_empty keys
    then granted
    else if not (same_codes (lower (codes c.scheme)) (codes "bearer"))
    then unauthorized
    else if not (is_ascii c.credentials)
    then crashed
    else if member c.credentials keys
    then granted
    else unauthorized

check_cases :
    (keys : List String) (c : Credentials)
    → All (λ k. is_ascii k ≡ true) keys
    → (if is_empty keys then granted else check_credentials keys (some c)) ≡ expected keys (some c)
unfolding check_credentials
check_cases [] c all_ascii = refl
check_cases (k ∷ ks) c all_ascii = elim (Bool-cases (is_ascii c.credentials)) [
  | inl ascii ↦ rw ascii (rw (check_token_ascii c.credentials (k ∷ ks) all_ascii ascii) refl)
  | inr other ↦ rw other (rw (check_token_other c.credentials (k ∷ ks) other) refl)
]

-- With ASCII tokens configured, every request passes if there are none at all; else a request passes
-- exactly with a bearer token that is one of the environment or of the cache, and a bearer token
-- that is not ASCII makes the comparison raise instead of answering 401.
pub require_api_key-expected :
    (env : List String) (c : Cache) (credentials : Option Credentials)
    → All (λ k. is_ascii k ≡ true) (env ++ c.db_keys)
    → require_api_key env c credentials ≡ expected (env ++ c.db_keys) credentials
unfolding require_api_key check_credentials
require_api_key-expected env c none all_ascii = refl
require_api_key-expected env c (some credentials) all_ascii =
    check_cases (env ++ c.db_keys) credentials all_ascii

check_token-member :
    (token : String) (keys : List String)
    → check_token token keys ≡ granted
    → member token keys ≡ true
unfolding check_token compare_digest member
check_token-member token [] h = absurd (cc)
check_token-member token (k ∷ ks) h = elim (Bool-cases (is_ascii token && is_ascii k)) [
  | inr other ↦ let raises : check_token token (k ∷ ks) ≡ crashed = rw other refl in absurd (cc)
  | inl ascii ↦ elim (Bool-cases (str_eq token k)) [
    | inl same ↦ ground (arith, eq_iff token k, eq_iff k token, same)
    | inr differs ↦
        let next : check_token token (k ∷ ks) ≡ check_token token ks = rw ascii (rw differs refl) in
        ground (arith, check_token-member token ks (sym next ∙ h))
  ]
]

check_credentials-member :
    (keys : List String) (c : Credentials)
    → check_credentials keys (some c) ≡ granted
    → member c.credentials keys ≡ true
unfolding check_credentials
check_credentials-member keys c h =
    elim (Bool-cases (same_codes (lower (codes c.scheme)) (codes "bearer"))) [
      | inl bearer ↦
          let checks : check_credentials keys (some c) ≡ check_token c.credentials keys =
            rw bearer refl in
          check_token-member c.credentials keys (sym checks ∙ h)
      | inr other ↦
          let refuses : check_credentials keys (some c) ≡ unauthorized = rw other refl in
          absurd (cc)
    ]

member-append :
    (x : String) (xs ys : List String) → member x (xs ++ ys) ≡ (member x xs || member x ys)
unfolding member
member-append x [] ys = refl
member-append x (y ∷ xs) ys = ground (arith, member-append x xs ys)

-- A token that was taken out of the table at `gone` (disabled or deleted), and is not one of the
-- environment, passes no request that is made the TTL after that or later, whatever requests came
-- before, while the table can be read and some token of the environment keeps the check on.
pub require_api_key-Revoked :
    (table : ℕ → Option (List String)) (ttl t now later gone : ℕ) (requests : List (ℕ × ℕ))
    (c : Cache) (key : String) (env : List String) (credentials : Credentials)
    → ((s : ℕ) → table s ≢ none)
    → ((s : ℕ) (keys : List String)
        → gone ≤ s
        → table s ≡ some keys
        → member credentials.credentials keys ≡ false)
    → member credentials.credentials (key ∷ env) ≡ false
    → InOrder t requests
    → last_time t requests ≤ now
    → now ≤ later
    → gone + ttl ≤ now
    → Reads table ttl t c
    → require_api_key
        (key ∷ env)
        (valid_db_keys now later ttl (table later) (serve table ttl requests c))
        (some credentials)
      ≢ granted
unfolding require_api_key
require_api_key-Revoked table ttl t now later gone requests c key env credentials works out outside
      order h g late reads passes =
    let served : Cache = valid_db_keys now later ttl (table later) (serve table ttl requests c) in
    let (s, found, past, young) =
      valid_db_keys-Fresh table ttl t now later requests c works order h g reads in
    let inside = check_credentials-member ((key ∷ env) ++ served.db_keys) credentials passes in
    let absent = out s served.db_keys (omega (arith, young, late)) found in
    absurd (
      ground (
        arith,
        member-append credentials.credentials (key ∷ env) served.db_keys,
        inside,
        absent,
        outside,
      ))

failing_keeps :
    (now later ttl : ℕ) (c : Cache) → (valid_db_keys now later ttl none c).db_keys ≡ c.db_keys
unfolding valid_db_keys refresh_db_keys refreshed
failing_keeps now later ttl c = ground arith

-- The tokens stay those of the last read while the table cannot be read.
serve-failing :
    (table : ℕ → Option (List String)) (ttl : ℕ) (requests : List (ℕ × ℕ)) (c : Cache)
    → ((s : ℕ) → table s ≡ none)
    → (serve table ttl requests c).db_keys ≡ c.db_keys
serve-failing table ttl [] c fails = refl
serve-failing table ttl ((now, later) ∷ requests) c fails =
    serve-failing table ttl requests (valid_db_keys now later ttl (table later) c) fails
    ∙ ap (λ (o : Option (List String)). (valid_db_keys now later ttl o c).db_keys) (fails later)
    ∙ failing_keeps now later ttl c

-- However long the table cannot be read, no request is answered otherwise than before: an error
-- neither opens the API nor shuts out a token.
pub require_api_key-failing :
    (table : ℕ → Option (List String)) (ttl : ℕ) (requests : List (ℕ × ℕ)) (c : Cache)
    (env : List String) (credentials : Option Credentials)
    → ((s : ℕ) → table s ≡ none)
    → require_api_key env (serve table ttl requests c) credentials
      ≡ require_api_key env c credentials
unfolding require_api_key
require_api_key-failing table ttl requests c env credentials fails =
    ap
      (λ (keys : List String).
        if is_empty (env ++ keys) then granted else check_credentials (env ++ keys) credentials)
      (serve-failing table ttl requests c fails)
