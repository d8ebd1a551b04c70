-- ===== src/EngineTable.antt =====
-- The table `engine_cooldowns` and its statements, in common/database.py: one row for each engine,
-- written by the scraper and read by the API. `now` is the database's clock in ticks.
pub mod Published
mod Tests
use topicstreams.Base.{
  ℕ, zero, suc, ◌+◌, ◌-◌, ◌*◌, ◌/◌, ◌%◌, ◌^◌, ◌≤◌, ◌<◌, min, max, String, ◌≡◌, refl, sym, ap, ap₂,
  subst, ◌∙◌, ◌≢◌, ◌↔◌, ◌⊎◌, inl, inr, Bool, true, false, not, ◌&&◌, ◌||◌, Option, none, some, List,
  [], ◌∷◌, ◌++◌, map, reverse, arith, eq_iff, ltb, leb, ◌==◌, str_eq, if◌then◌else◌, ltb→lt, lt→ltb,
  leb→le, le→leb, ==_iff, tests, Bool-cases, Option-cases, length, take, any, all, cons_if, filter,
  is_empty, All, length-append, length-take, length-filter-le, length-cons_if-le, any-append,
  filter-append, length-map, member, add, discard, str_eq_self, member-add, member-discard, get,
  put, keys, values, get-put, get-put_self, get-put_ne, get_elem?, get_elem?-middle,
  get_elem?_total, append_assoc, append-nil, stretch, stretch-ge, stretch_mono, All-filter, All-map,
  All-imp, drop,
}

pub record EngineRow : Type 0 where
  pub failures : ℕ
  pub next_probe_at : Option ℕ
  pub overdue_count : ℕ
  pub max_lateness : ℕ
  pub updated_at : ℕ

abbrev pub EngineTable : Type 0
EngineTable = List (String × EngineRow)

-- `NOW() + remaining` for an engine that is cooling, else NULL. The `max(0.0, r)` of the source
-- changes nothing on a number of ticks.
abbrev pub probe_time : ℕ → ℕ → ℕ → Option ℕ
probe_time now failures remaining = if ltb 0 failures then some (now + remaining) else none

-- The row that the upsert of a cooldown leaves; a new row has no backlog.
unfoldable pub with_cooldown : ℕ → ℕ → ℕ → Option EngineRow → EngineRow
with_cooldown now failures remaining none = record {
  failures = failures;
  next_probe_at = probe_time now failures remaining;
  overdue_count = 0;
  max_lateness = 0;
  updated_at = now;
}
with_cooldown now failures remaining (some r) = record r {
  failures = failures;
  next_probe_at = probe_time now failures remaining;
  updated_at = now;
}

unfoldable pub with_backlog : ℕ → ℕ → ℕ → Option EngineRow → EngineRow
with_backlog now overdue lateness none = record {
  failures = 0;
  next_probe_at = none;
  overdue_count = overdue;
  max_lateness = lateness;
  updated_at = now;
}
with_backlog now overdue lateness (some r) = record r {
  overdue_count = overdue;
  max_lateness = lateness;
  updated_at = now;
}

-- `upsert_engine_cooldowns`, for states `(engine, failures, remaining)`.
unfoldable pub upsert_cooldowns : ℕ → List (String × ℕ × ℕ) → EngineTable → EngineTable
upsert_cooldowns now [] t = t
upsert_cooldowns now ((engine, failures, remaining) ∷ states) t =
    upsert_cooldowns now states (put engine (with_cooldown now failures remaining (get engine t)) t)

-- `upsert_engine_backlog`, for states `(engine, overdue, lateness)`.
unfoldable pub upsert_backlog : ℕ → List (String × ℕ × ℕ) → EngineTable → EngineTable
upsert_backlog now [] t = t
upsert_backlog now ((engine, overdue, lateness) ∷ states) t =
    upsert_backlog now states (put engine (with_backlog now overdue lateness (get engine t)) t)
