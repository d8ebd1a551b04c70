-- ===== src/Cycles.antt =====
-- The metrics window of scraper/worker.py, `_CycleWindow`, and the row that a flush writes.
pub mod Counts
mod Tests
use topicstreams.Model.{NewsEntry, ScraperLog}
use topicstreams.Base.{
  ℕ, zero, suc, ◌+◌, ◌-◌, ◌*◌, ◌/◌, ◌%◌, ◌^◌, ◌≤◌, ◌<◌, min, max, String, ◌≡◌, refl, sym, ap, ap₂,
  subst, ◌∙◌, ◌≢◌, ◌↔◌, ◌⊎◌, inl, inr, Bool, true, false, not, ◌&&◌, ◌||◌, Option, none, some, List,
  [], ◌∷◌, ◌++◌, map, reverse, arith, eq_iff, ltb, leb, ◌==◌, str_eq, if◌then◌else◌, ltb→lt, lt→ltb,
  leb→le, le→leb, ==_iff, tests, Bool-cases, Option-cases, length, take, any, all, cons_if, filter,
  is_empty, All, length-append, length-take, length-filter-le, length-cons_if-le, any-append,
  filter-append, length-map, member, add, discard, str_eq_self, member-add, member-discard,
  member-filter, get, put, keys, values, get-put, get-put_self, get-put_ne, get_elem?,
  get_elem?-middle, get_elem?_total, append_assoc, append-nil, stretch, stretch-ge, stretch_mono,
  All-filter, All-map, All-imp, drop, DistinctKeys, get_absent, member-put, put-DistinctKeys,
}

-- `_CycleWindow`
pub record CycleWindow : Type 0 where
  pub topics_count : ℕ
  pub entries : List NewsEntry
  pub logs : List ScraperLog
  pub success : Bool
  pub error_text : Option String

abbrev pub new_window : CycleWindow
new_window = record { topics_count = 0; entries = []; logs = []; success = true; error_text = none }

unfoldable pub add_scrape : List NewsEntry → List ScraperLog → CycleWindow → CycleWindow
add_scrape entries logs w = record w {
  topics_count = w.topics_count + 1;
  entries = w.entries ++ entries;
  logs = w.logs ++ logs;
}

-- What comes of the writes of a window: the new events, or none if the insert of the entries
-- raised; whether that of the logs did not; and whether that of the cycle did not.
pub record Writes : Type 0 where
  pub inserted : Option ℕ
  pub logged : Bool
  pub recorded : Bool

abbrev pub or_zero : Option ℕ → ℕ
or_zero none = 0
or_zero (some n) = n

abbrev pub is_set {ℓ} : {A : Type ℓ} → Option A → Bool
is_set none = false
is_set (some x) = true

-- A row of `scraper_cycles`, without its engine and times.
pub record Cycle : Type 0 where
  pub topics_count : ℕ
  pub entries_parsed : ℕ
  pub new_events : ℕ
  pub success : Bool
  pub error_text : Option String

unfoldable pub cycle_of : CycleWindow → Writes → Cycle
cycle_of w writes = record {
  topics_count = w.topics_count;
  entries_parsed = length w.entries;
  new_events = or_zero writes.inserted;
  success = w.success && is_set writes.inserted && writes.logged;
  error_text = w.error_text;
}

-- `_flush_window`: the row that it adds, if it adds one.
unfoldable pub flush_window : CycleWindow → Writes → Option Cycle
flush_window w writes =
    if w.topics_count == 0 && not (is_set w.error_text)
    then none
    else if writes.recorded
    then some (cycle_of w writes)
    else none
