-- ===== src/Heartbeat.antt =====
-- scraper/keepalive.py: `KeepAliveHeartbeat`. Times are whole ticks, ratios thousandths;
-- `uniform b` stands for `rng.uniform(0, b)`, and `shuffled` for what `rng.shuffle` makes of the
-- queries.
pub mod Rotation
pub mod Timer
mod Tests
use topicstreams.Base.{
  stretch, ℕ, zero, suc, ◌+◌, ◌-◌, ◌*◌, ◌/◌, ◌%◌, ◌^◌, ◌≤◌, ◌<◌, min, max, String, ◌≡◌, refl, sym,
  ap, ap₂, subst, ◌∙◌, ◌≢◌, ◌↔◌, ◌⊎◌, inl, inr, Bool, true, false, not, ◌&&◌, ◌||◌, Option, none,
  some, List, [], ◌∷◌, ◌++◌, map, reverse, arith, eq_iff, ltb, leb, ◌==◌, str_eq, if◌then◌else◌,
  ltb→lt, lt→ltb, leb→le, le→leb, ==_iff, tests, Bool-cases, Option-cases, length, take, any, all,
  cons_if, filter, is_empty, All, length-append, length-take, length-filter-le, length-cons_if-le,
  any-append, filter-append, length-map, member, add, discard, str_eq_self, member-add,
  member-discard, get, put, keys, values, get-put, get-put_self, get-put_ne, get_elem?,
  get_elem?-middle, get_elem?_total, append_assoc, append-nil,
}

pub record Heartbeat : Type 0 where
  pub interval : ℕ
  pub jitter_ratio : ℕ
  pub queries : List String
  pub cursor : ℕ
  pub next_fire : ℕ

-- `__init__`: none is the `ValueError` for no queries.
unfoldable pub init : (List String → List String) → ℕ → ℕ → ℕ → List String → Option Heartbeat
init shuffled now interval jitter_ratio [] = none
init shuffled now interval jitter_ratio (q ∷ qs) = some (record {
  interval = interval;
  jitter_ratio = jitter_ratio;
  queries = shuffled (q ∷ qs);
  cursor = 0;
  next_fire = now;
})

unfoldable pub due : ℕ → Heartbeat → Bool
due now h = leb h.next_fire now

unfoldable pub seconds_until_due : ℕ → Heartbeat → ℕ
seconds_until_due now h = h.next_fire - now

-- `next_query`: none is the error of a cursor modulo zero, on no queries.
unfoldable pub next_query : Heartbeat → Option String × Heartbeat
next_query h =
    (get_elem? h.queries (h.cursor % length h.queries), record h { cursor = h.cursor + 1 })

unfoldable pub record_activity : (ℕ → ℕ) → ℕ → Heartbeat → Heartbeat
record_activity uniform now h = record h {
  next_fire = now + stretch h.interval (uniform h.jitter_ratio);
}
