-- ===== src/RateLimit.antt =====
-- api/main.py: `RateLimitMiddleware`, with the client's address taken from the header. The list of
-- an address holds the times of its accepted requests, oldest first. Times are ticks, and one
-- request reads the clock once.
pub mod Window
pub mod Ideal
pub mod Decisions
pub mod Proxies
mod Tests
use topicstreams.Text.{codes, strip}
use topicstreams.Base.{
  ℕ, zero, suc, ◌+◌, ◌-◌, ◌*◌, ◌/◌, ◌%◌, ◌^◌, ◌≤◌, ◌<◌, min, max, String, ◌≡◌, refl, sym, ap, ap₂,
  subst, ◌∙◌, ◌≢◌, ◌↔◌, ◌⊎◌, inl, inr, Bool, true, false, not, ◌&&◌, ◌||◌, Option, none, some, List,
  [], ◌∷◌, ◌++◌, map, reverse, arith, eq_iff, ltb, leb, ◌==◌, str_eq, if◌then◌else◌, ltb→lt, lt→ltb,
  leb→le, le→leb, ==_iff, tests, Bool-cases, Option-cases, length, take, any, all, cons_if, filter,
  is_empty, All, length-append, length-take, length-filter-le, length-cons_if-le, any-append,
  filter-append, length-map, member, add, discard, str_eq_self, member-add, member-discard,
  member-filter, get, put, keys, values, get-put, get-put_self, get-put_ne, get_elem?,
  get_elem?-middle, get_elem?_total, append_assoc, append-nil, stretch, stretch-ge, stretch_mono,
  All-filter, All-map, All-imp, drop, DistinctKeys, get_absent, member-put, put-DistinctKeys,
}

pub record RateLimiter : Type 0 where
  pub calls : ℕ
  pub period : ℕ
  pub trusted_proxies : ℕ
  pub max_tracked : ℕ
  pub requests : List (String × List ℕ)

-- A request's `X-Forwarded-For`, split at its commas, and the address of its peer.
pub record Request : Type 0 where
  pub forwarded_for : Option (List String)
  pub peer : Option String

abbrev pub or_unknown : Option String → String
or_unknown none = "unknown"
or_unknown (some host) = host

-- `[p.strip() for p in forwarded.split(",") if p.strip()]`
unfoldable pub parts : List String → List String
parts [] = []
parts (p ∷ ps) = cons_if (not (str_eq (strip p) "")) (strip p) (parts ps)

abbrev pub parts_of : Option (List String) → List String
parts_of none = []
parts_of (some pieces) = parts pieces

-- `_client_ip`
unfoldable pub nth_from_right : ℕ → List String → Option String
nth_from_right n ps = get_elem? ps (length ps - min n (length ps))

unfoldable pub client_ip : RateLimiter → Request → String
client_ip l r =
    let ps = parts_of r.forwarded_for in
    if ltb 0 l.trusted_proxies && not (is_empty ps)
    then or_unknown (nth_from_right l.trusted_proxies ps)
    else or_unknown r.peer

-- `t > now - period`
abbrev pub is_recent : ℕ → ℕ → ℕ → Bool
is_recent now period t = ltb now (t + period)

-- The address has no hit in the window: `not hits or hits[-1] <= window_start`.
unfoldable pub is_stale : ℕ → ℕ → List ℕ → Bool
is_stale now period [] = true
is_stale now period (t ∷ []) = not (is_recent now period t)
is_stale now period (t ∷ u ∷ hits) = is_stale now period (u ∷ hits)

-- `_evict_stale`
unfoldable pub evict_stale : ℕ → RateLimiter → RateLimiter
evict_stale now l = record l { requests = filter (λ e. not (is_stale now l.period e.1)) l.requests }

abbrev pub hits_of : Option (List ℕ) → List ℕ
hits_of none = []
hits_of (some hits) = hits

unfoldable pub recent_hits : ℕ → String → RateLimiter → List ℕ
recent_hits now ip l = filter (is_recent now l.period) (hits_of (get ip l.requests))

unfoldable pub evict_over : ℕ → RateLimiter → RateLimiter
evict_over now l = if ltb l.max_tracked (length l.requests) then evict_stale now l else l

-- `dispatch`: whether the request is passed on (else it is answered with 429), and the limiter.
unfoldable pub dispatch : ℕ → Request → RateLimiter → Bool × RateLimiter
dispatch now r l =
    let ip = client_ip l r in
    let recent = recent_hits now ip l in
    if leb l.calls (length recent)
    then (false, record l { requests = put ip recent l.requests })
    else (true, evict_over now (record l { requests = put ip (recent ++ now ∷ []) l.requests }))
