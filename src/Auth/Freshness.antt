-- ===== src/Auth/Freshness.antt =====
-- How old the tokens are that `_valid_db_keys` of api/auth.py serves.
use topicstreams.Auth.{Cache, refreshed, refresh_db_keys, valid_db_keys}
use topicstreams.Base.{
  ℕ, ◌+◌, ◌≤◌, String, ◌≡◌, refl, ◌≢◌, ◌⊎◌, inl, inr, false, Option, none, some, List, [], ◌∷◌,
  arith, ltb, Bool-cases, keys,
}

-- The tokens are those of a read at `s`, which the cache keeps for at most the TTL.
pub record ReadAt (table : ℕ → Option (List String)) (ttl now : ℕ) (c : Cache) (s : ℕ)
    : Type 0 where
  pub found : table s ≡ some c.db_keys
  pub past : s ≤ now
  pub expires : c.expires_at ≤ s + ttl

-- A cache that has not been filled is cold.
abbrev pub Reads : (ℕ → Option (List String)) → ℕ → ℕ → Cache → Type 0
Reads table ttl now c = (c.expires_at ≡ 0) ⊎ (s : ℕ) × ReadAt table ttl now c s

-- Requests one after the other: each looks at the clock, and again when it refreshes.
abbrev pub serve : (ℕ → Option (List String)) → ℕ → List (ℕ × ℕ) → Cache → Cache
serve table ttl [] c = c
serve table ttl ((now, later) ∷ requests) c =
    serve table ttl requests (valid_db_keys now later ttl (table later) c)

abbrev pub InOrder : ℕ → List (ℕ × ℕ) → Type 0
InOrder t [] = Unit
InOrder t ((now, later) ∷ requests) = (t ≤ now) × (now ≤ later) × InOrder later requests

-- The time of the last request.
abbrev pub last_time : ℕ → List (ℕ × ℕ) → ℕ
last_time t [] = t
last_time t (r ∷ requests) = last_time r.1 requests

refreshed-ReadAt :
    (table : ℕ → Option (List String)) (ttl later : ℕ) (c : Cache) (o : Option (List String))
    → table later ≡ o
    → o ≢ none
    → ReadAt table ttl later (refreshed later ttl o c) later
unfolding refreshed
refreshed-ReadAt table ttl later c none e h = absurd (h refl)
refreshed-ReadAt table ttl later c (some keys) e h = record {
  found = e;
  past = omega arith;
  expires = omega arith;
}

still :
    (table : ℕ → Option (List String)) (ttl t later s : ℕ) (c : Cache)
    → t ≤ later
    → ReadAt table ttl t c s
    → ReadAt table ttl later c s
still table ttl t later s c h r = record {
  found = r.found;
  past = omega (arith, r.past, h);
  expires = r.expires;
}

-- What a request serves was read at most the TTL before it asked.
valid_db_keys-ReadAt :
    (table : ℕ → Option (List String)) (ttl t now later : ℕ) (c : Cache)
    → ((s : ℕ) → table s ≢ none)
    → t ≤ now
    → now ≤ later
    → Reads table ttl t c
    → (s : ℕ) × ReadAt table ttl later (valid_db_keys now later ttl (table later) c) s
      × (now ≤ s + ttl)
unfolding valid_db_keys refresh_db_keys
valid_db_keys-ReadAt table ttl t now later c works h g (inl cold) =
    let hot : ltb now c.expires_at ≡ false = ground (arith, cold) in
    let stale : ltb later c.expires_at ≡ false = ground (arith, cold) in
    rw hot (
      rw stale
        (later, refreshed-ReadAt table ttl later c (table later) refl (works later), omega arith))
valid_db_keys-ReadAt table ttl t now later c works h g (inr (s, r)) =
    elim (Bool-cases (ltb now c.expires_at)) [
      | inl hot ↦
          rw hot (s, still table ttl t later s c (omega arith) r, ground (arith, r.expires, hot))
      | inr cool ↦ elim (Bool-cases (ltb later c.expires_at)) [
        | inl kept ↦ absurd (ground arith)
        | inr stale ↦ rw cool (
            rw stale (
              later,
              refreshed-ReadAt table ttl later c (table later) refl (works later),
              omega arith,
            ))
      ]
    ]

-- While the table can be read, the tokens that a request is checked against are, after any requests
-- from a cold cache, those that were active at a time at most the TTL before it.
pub valid_db_keys-Fresh :
    (table : ℕ → Option (List String)) (ttl t now later : ℕ) (requests : List (ℕ × ℕ)) (c : Cache)
    → ((s : ℕ) → table s ≢ none)
    → InOrder t requests
    → last_time t requests ≤ now
    → now ≤ later
    → Reads table ttl t c
    → let served = valid_db_keys now later ttl (table later) (serve table ttl requests c) in
      (s : ℕ) × (table s ≡ some served.db_keys) × (s ≤ later) × (now ≤ s + ttl)
valid_db_keys-Fresh table ttl t now later [] c works order h g reads =
    let (s, r, young) = valid_db_keys-ReadAt table ttl t now later c works h g reads in
    (s, r.found, r.past, young)
valid_db_keys-Fresh table ttl t now later ((a, b) ∷ requests) c works order h g reads =
    let (s, r, young) = valid_db_keys-ReadAt table ttl t a b c works order.0 order.1 reads in
    valid_db_keys-Fresh table ttl b now later requests (valid_db_keys a b ttl (table b) c) works
      order.2 h g (inr (s, r))
