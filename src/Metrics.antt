-- ===== src/Metrics.antt =====
-- The engines of the monitor, api/v1/metrics.py. The aggregates of the scraper's logs are rows that
-- the database computes. Times are milliseconds; a rate is the fraction that the source rounds.
pub mod Rows
pub mod Benches
pub mod Engines
pub mod Labels
mod Tests
use topicstreams.BlockSignals.{is_network_block}
use topicstreams.EngineTable.{EngineRow, EngineTable}
use topicstreams.Sorting.{sorted}
use topicstreams.Base.{
  ℕ, zero, suc, ◌+◌, ◌-◌, ◌*◌, ◌/◌, ◌%◌, ◌^◌, ◌≤◌, ◌<◌, min, max, String, ◌≡◌, refl, sym, ap, ap₂,
  subst, ◌∙◌, ◌≢◌, ◌↔◌, ◌⊎◌, inl, inr, Bool, true, false, not, ◌&&◌, ◌||◌, Option, none, some, List,
  [], ◌∷◌, ◌++◌, map, reverse, arith, eq_iff, ltb, leb, ◌==◌, str_eq, if◌then◌else◌, ltb→lt, lt→ltb,
  leb→le, le→leb, ==_iff, tests, Bool-cases, Option-cases, length, take, any, all, cons_if, filter,
  is_empty, All, length-append, length-take, length-filter-le, length-cons_if-le, any-append,
  filter-append, length-map, member, add, discard, str_eq_self, member-add, member-discard,
  member-filter, get, put, keys, values, get-put, get-put_self, get-put_ne, get_elem?,
  get_elem?-middle, get_elem?_total, append_assoc, append-nil, stretch, stretch-ge, stretch_mono,
  All-filter, All-map, All-imp, drop, DistinctKeys, get_absent, member-put, put-DistinctKeys,
  sort_desc, Descending, DistinctBy, filter-sort_desc, sort_desc-Descending, All-sort_desc,
  filter-Descending, below_middle, below_twice, last, last-append, take_full, All-middle, take_all,
  filter-All, filter_keeps, All-always, last-map, length-sort_desc, filter-DistinctBy, get_present,
  All-both, map-take,
}

-- A row of the aggregates of `get_scrape_metrics`.
pub record EngineStats : Type 0 where
  pub engine : String
  pub scrapes : ℕ
  pub successes : ℕ
  pub entries_parsed : ℕ
  pub zero_parse : ℕ
  pub failures : ℕ
  pub blocked : ℕ
  pub avg_latency_ms : Option ℕ
  pub p50_latency_ms : Option ℕ
  pub p95_latency_ms : Option ℕ
  pub last_scrape_at : Option ℕ
  pub last_success : Option Bool
  pub last_http_status : Option ℕ
  pub last_error_message : Option String
  pub http_status_breakdown : List (ℕ × ℕ)

pub data EngineHealth : Type 0 where
  idle blocked parsing degraded healthy cooldown behind : EngineHealth

abbrev pub cooldown_stale : ℕ
cooldown_stale = 600000

abbrev pub behind_lateness_factor : ℕ
behind_lateness_factor = 3

unfoldable pub in_block_statuses : Option ℕ → Bool
in_block_statuses none = false
in_block_statuses (some code) = code == 429 || code == 403 || code == 503

abbrev pub is_failure : Option Bool → Bool
is_failure none = false
is_failure (some good) = not good

-- `successes / scrapes < 0.75`
unfoldable pub is_degraded : ℕ → ℕ → Bool
is_degraded successes scrapes = ltb (successes * 4) (scrapes * 3)

unfoldable pub classify_engine : EngineStats → EngineHealth
classify_engine row =
    if row.scrapes == 0
    then idle
    else if is_failure row.last_success
        && (in_block_statuses row.last_http_status || is_network_block row.last_error_message)
    then blocked
    else if ltb 0 row.successes && leb row.successes row.zero_parse && leb 3 row.scrapes
    then parsing
    else if is_degraded row.successes row.scrapes
    then degraded
    else healthy

-- `_rate`, as a fraction
unfoldable pub rate : ℕ → ℕ → Option (ℕ × ℕ)
rate successes scrapes = if scrapes == 0 then none else some (successes, scrapes)

unfoldable pub until_probe : ℕ → Option ℕ → Option ℕ
until_probe now none = none
until_probe now (some probe) = if ltb now probe then some (probe - now) else none

abbrev pub is_fresh : ℕ → EngineRow → Bool
is_fresh now r = leb (now - r.updated_at) cooldown_stale

-- `_live_cooldown_seconds` on a row that is there
unfoldable pub live_cooldown : ℕ → EngineRow → Option ℕ
live_cooldown now r =
    if r.failures == 0 || not (is_fresh now r) then none else until_probe now r.next_probe_at

unfoldable pub empty_engine_row : String → EngineStats
empty_engine_row engine = record {
  engine = engine;
  scrapes = 0;
  successes = 0;
  entries_parsed = 0;
  zero_parse = 0;
  failures = 0;
  blocked = 0;
  avg_latency_ms = none;
  p50_latency_ms = none;
  p95_latency_ms = none;
  last_scrape_at = none;
  last_success = none;
  last_http_status = none;
  last_error_message = none;
  http_status_breakdown = [];
}

-- An entry of `live`.
pub record Benched : Type 0 where
  pub remaining : ℕ
  pub failures : ℕ

pub record EngineMetrics : Type 0 where
  pub stats : EngineStats
  pub health : EngineHealth
  pub success_rate : Option (ℕ × ℕ)
  pub cooldown_remaining : Option ℕ
  pub cooldown_failures : ℕ
  pub backlog_overdue : ℕ
  pub backlog_lateness : ℕ

abbrev pub may_be_behind : EngineHealth → Bool
may_be_behind healthy = true
may_be_behind idle = true
may_be_behind blocked = false
may_be_behind parsing = false
may_be_behind degraded = false
may_be_behind cooldown = false
may_be_behind behind = false

abbrev pub overdue_of : Option EngineRow → ℕ × ℕ
overdue_of none = (0, 0)
overdue_of (some r) = (r.overdue_count, r.max_lateness)

-- `_build_engine`, whose threshold the endpoint always gives
unfoldable pub build_engine : EngineStats → Option Benched → Option EngineRow → ℕ → EngineMetrics
build_engine row none backlog threshold =
    let base = classify_engine row in
    let (overdue, lateness) = overdue_of backlog in
    record {
      stats = row;
      health = if ltb threshold lateness && may_be_behind base then behind else base;
      success_rate = rate row.successes row.scrapes;
      cooldown_remaining = none;
      cooldown_failures = 0;
      backlog_overdue = overdue;
      backlog_lateness = lateness;
    }
build_engine row (some b) backlog threshold =
    let (overdue, lateness) = overdue_of backlog in
    record {
      stats = row;
      health = cooldown;
      success_rate = rate row.successes row.scrapes;
      cooldown_remaining = some b.remaining;
      cooldown_failures = b.failures;
      backlog_overdue = overdue;
      backlog_lateness = lateness;
    }

unfoldable pub fresh_rows : ℕ → EngineTable → EngineTable
fresh_rows now cooldowns = filter (λ e. is_fresh now e.1) cooldowns

abbrev pub add_live :
    String → EngineRow → Option ℕ → List (String × Benched) → List (String × Benched)
add_live engine r none rest = rest
add_live engine r (some remaining) rest =
    (engine, record { remaining = remaining; failures = r.failures }) ∷ rest

-- `live`, over the fresh rows
unfoldable pub live_engines : ℕ → EngineTable → List (String × Benched)
live_engines now [] = []
live_engines now (e ∷ fresh) = add_live e.0 e.1 (live_cooldown now e.1) (live_engines now fresh)

-- `rows`, from the rows before
unfoldable pub rows_by_engine :
    List EngineStats → List (String × EngineStats) → List (String × EngineStats)
rows_by_engine [] rows = rows
rows_by_engine (r ∷ stats) rows = rows_by_engine stats (put r.engine r rows)

-- `rows.setdefault` for the engines that are benched
unfoldable pub with_benched :
    List (String × Benched) → List (String × EngineStats) → List (String × EngineStats)
with_benched [] rows = rows
with_benched (b ∷ live) rows =
    with_benched live (if member b.0 (keys rows) then rows else put b.0 (empty_engine_row b.0) rows)

abbrev pub row_or_empty : String → Option EngineStats → EngineStats
row_or_empty engine none = empty_engine_row engine
row_or_empty engine (some r) = r

-- The engines of `get_metrics`.
unfoldable pub get_metrics_engines : ℕ → ℕ → List EngineStats → EngineTable → List EngineMetrics
get_metrics_engines now interval stats cooldowns =
    let fresh = fresh_rows now cooldowns in
    let live = live_engines now fresh in
    let rows = with_benched live (rows_by_engine stats []) in
    map
      (λ engine.
        build_engine (row_or_empty engine (get engine rows)) (get engine live) (get engine fresh)
          (interval * behind_lateness_factor))
      (sorted (keys rows))
