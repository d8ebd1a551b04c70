-- ===== src/RateLimit/Ideal.antt =====
-- `RateLimitMiddleware.dispatch` of api/main.py against a limiter that never forgets.
use topicstreams.RateLimit.{RateLimiter, is_recent, is_stale, evict_stale, hits_of}
use topicstreams.RateLimit.Window.{times, Hits, filter-Ascending, stale_none}
use native.Mathlib.Nat.{le_trans}
use topicstreams.Base.{
  ℕ, ◌≤◌, String, ◌≡◌, refl, sym, ap, subst, ◌∙◌, inl, inr, Bool, true, false, not, none, some,
  List, [], ◌∷◌, ◌++◌, arith, eq_iff, str_eq, if◌then◌else◌, Bool-cases, filter, member, get, put,
  keys, get-put, All-filter, All-imp, DistinctKeys, put-DistinctKeys,
}

-- The hits that are stored for an address.
abbrev pub stored : String → RateLimiter → List ℕ
stored ip l = hits_of (get ip l.requests)

-- The limiter remembers of the log what a request at `until` or later can ask for.
pub record Remembers (until : ℕ) (log : List (String × ℕ)) (l : RateLimiter) : Type 0 where
  pub distinct : DistinctKeys l.requests
  pub hits : (ip : String) → Hits until (stored ip l)
  pub same :
      (ip : String) (later : ℕ)
      → until ≤ later
      → filter (is_recent later l.period) (stored ip l)
        ≡ filter (is_recent later l.period) (times ip log)

absent-filter :
    (p : List ℕ → Bool) (ip : String) (d : List (String × List ℕ))
    → member ip (keys d) ≡ false
    → (member ip (keys (filter (λ e. p e.1) d)) ≡ false) × (get ip (filter (λ e. p e.1) d) ≡ none)
unfolding get member
absent-filter p ip [] h = (refl, refl)
absent-filter p ip (e ∷ d) h =
    let rest = absent-filter p ip d (ground arith) in
    (ground (arith, h, rest.0), ground (arith, h, rest.1))

filter-DistinctKeys :
    (p : List ℕ → Bool) (d : List (String × List ℕ))
    → DistinctKeys d
    → DistinctKeys (filter (λ e. p e.1) d)
filter-DistinctKeys p [] k = tt
filter-DistinctKeys p (e ∷ d) k = elim (Bool-cases (p e.1)) [
  | inl kept ↦ rw kept ((absent-filter p e.0 d k.0).0, filter-DistinctKeys p d k.1)
  | inr dropped ↦ rw dropped (filter-DistinctKeys p d k.1)
]

get-filter :
    (p : List ℕ → Bool) (ip : String) (d : List (String × List ℕ))
    → DistinctKeys d
    → hits_of (get ip (filter (λ e. p e.1) d))
      ≡ (if p (hits_of (get ip d)) then hits_of (get ip d) else [])
unfolding get
get-filter p ip [] k = elim (Bool-cases (p [])) [ inl h ↦ rw h refl | inr h ↦ rw h refl ]
get-filter p ip (e ∷ d) k = elim (Bool-cases (str_eq e.0 ip)) [
  | inr other ↦ elim (Bool-cases (p e.1)) [
    | inl kept ↦ rw (kept, other) (get-filter p ip d k.1)
    | inr dropped ↦ rw (dropped, other) (get-filter p ip d k.1)
  ]
  | inl here ↦ elim (Bool-cases (p e.1)) [
    | inl kept ↦ rw (kept, here) (rw kept refl)
    | inr dropped ↦
        let name : e.0 ≡ ip = (eq_iff e.0 ip).0 here in
        rw (dropped, here)
          (rw dropped
            (ap hits_of (absent-filter p ip d (subst (λ n. member n (keys d) ≡ false) name k.0)).1))
  ]
]

if-Hits : (b : Bool) (until : ℕ) (ts : List ℕ) → Hits until ts → Hits until (if b then ts else [])
if-Hits true until ts h = h
if-Hits false until ts h = (tt, tt)

pub evict-Remembers :
    (now : ℕ) (log : List (String × ℕ)) (l : RateLimiter)
    → Remembers now log l
    → Remembers now log (evict_stale now l)
unfolding evict_stale
evict-Remembers now log l r = record {
  distinct = filter-DistinctKeys (λ ts. not (is_stale now l.period ts)) l.requests r.distinct;
  hits = λ ip.
      subst (Hits now) (sym (kept ip))
        (if-Hits (not (is_stale now l.period (stored ip l))) now (stored ip l) (r.hits ip));
  same = λ ip later le. ap (filter (is_recent later l.period)) (kept ip) ∙ survives ip later le;
}
  where
    kept :
        (ip : String)
        → stored ip
            (record l { requests = filter (λ e. not (is_stale now l.period e.1)) l.requests })
          ≡ (if not (is_stale now l.period (stored ip l)) then stored ip l else [])
    kept ip = get-filter (λ ts. not (is_stale now l.period ts)) ip l.requests r.distinct

    survives :
        (ip : String) (later : ℕ)
        → now ≤ later
        → filter
            (is_recent later l.period)
            (if not (is_stale now l.period (stored ip l)) then stored ip l else [])
          ≡ filter (is_recent later l.period) (times ip log)
    survives ip later le = elim (Bool-cases (is_stale now l.period (stored ip l))) [
      | inr fresh ↦ rw fresh (r.same ip later le)
      | inl stale ↦ rw stale (
          sym (stale_none now later l.period (stored ip l) le (r.hits ip).0 stale)
          ∙ r.same ip later le)
    ]

stored-put :
    (ip j : String) (hits : List ℕ) (l : RateLimiter)
    → stored j (record l { requests = put ip hits l.requests })
      ≡ (if str_eq ip j then hits else stored j l)
stored-put ip j hits l = ap hits_of (get-put ip j hits l.requests) ∙ cases (str_eq ip j)
  where
    cases :
        (b : Bool)
        → hits_of (if b then some hits else get j l.requests) ≡ (if b then hits else stored j l)
    cases true = refl
    cases false = refl

pub times-append :
    (ip j : String) (now : ℕ) (log : List (String × ℕ))
    → times j (log ++ (ip, now) ∷ [])
      ≡ (if str_eq ip j then times j log ++ now ∷ [] else times j log)
times-append ip j now [] = elim (Bool-cases (str_eq ip j)) [
  | inl here ↦ rw here refl
  | inr other ↦ rw other refl
]
times-append ip j now (e ∷ log) = elim (Bool-cases (str_eq e.0 j)) [
  | inl own ↦ rw own (ap (λ ts. e.1 ∷ ts) (times-append ip j now log) ∙ moved (str_eq ip j))
  | inr foreign ↦ rw foreign (times-append ip j now log)
]
  where
    moved :
        (b : Bool)
        → e.1 ∷ (if b then times j log ++ now ∷ [] else times j log)
          ≡ (if b then e.1 ∷ (times j log ++ now ∷ []) else e.1 ∷ times j log)
    moved true = refl
    moved false = refl

Hits-later : (until now : ℕ) (ts : List ℕ) → until ≤ now → Hits until ts → Hits now ts
Hits-later until now ts le h =
    (h.0, All-imp (λ t. t ≤ until) (λ t. t ≤ now) ts (λ t u. le_trans u le) h.1)

pub recent-Hits :
    (until now period : ℕ) (ts : List ℕ)
    → until ≤ now
    → Hits until ts
    → Hits now (filter (is_recent now period) ts)
recent-Hits until now period ts le h = (
  filter-Ascending (is_recent now period) ts h.0,
  All-filter (λ t. t ≤ now) (is_recent now period) ts (Hits-later until now ts le h).1,
)

-- A list stored for an address, that agrees with the new log on what is recent, is remembered.
pub put-Remembers :
    (until now : ℕ) (log log' : List (String × ℕ)) (ip : String) (ts : List ℕ) (l : RateLimiter)
    → until ≤ now
    → Hits now ts
    → ((later : ℕ)
        → now ≤ later
        → filter (is_recent later l.period) ts ≡ filter (is_recent later l.period) (times ip log'))
    → ((j : String) → str_eq ip j ≡ false → times j log' ≡ times j log)
    → Remembers until log l
    → Remembers now log' (record l { requests = put ip ts l.requests })
put-Remembers until now log log' ip ts l le h agrees others r = record {
  distinct = put-DistinctKeys ip ts l.requests r.distinct;
  hits = λ j. subst (Hits now) (sym (stored-put ip j ts l)) (chosen j (str_eq ip j));
  same = λ j later le'.
      ap (filter (is_recent later l.period)) (stored-put ip j ts l) ∙ matches j later le';
}
  where
    chosen : (j : String) (b : Bool) → Hits now (if b then ts else stored j l)
    chosen j true = h
    chosen j false = Hits-later until now (stored j l) le (r.hits j)

    matches :
        (j : String) (later : ℕ)
        → now ≤ later
        → filter (is_recent later l.period) (if str_eq ip j then ts else stored j l)
          ≡ filter (is_recent later l.period) (times j log')
    matches j later le' = elim (Bool-cases (str_eq ip j)) [
      | inl here ↦
          let name : ip ≡ j = (eq_iff ip j).0 here in
          rw here
            (agrees later le' ∙ ap (λ n. filter (is_recent later l.period) (times n log')) name)
      | inr other ↦ rw other (
          r.same j later (le_trans le le')
          ∙ ap (filter (is_recent later l.period)) (sym (others j other)))
    ]
