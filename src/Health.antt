-- ===== src/Health.antt =====
-- The health signal of api/v1/status.py. Times are milliseconds; the texts of the explanation are
-- the data that they are made of. The difference of two times stops at zero here, where the source
-- takes the maximum with zero or compares with a threshold of at least zero.
pub mod Threshold
pub mod States
mod Tests
use topicstreams.Model.{ScraperLog}
use topicstreams.Text.{codes}
use topicstreams.Sorting.{sorted}
use topicstreams.Base.{
  ℕ, zero, suc, ◌+◌, ◌-◌, ◌*◌, ◌/◌, ◌%◌, ◌^◌, ◌≤◌, ◌<◌, min, max, String, ◌≡◌, refl, sym, ap, ap₂,
  subst, ◌∙◌, ◌≢◌, ◌↔◌, ◌⊎◌, inl, inr, Bool, true, false, not, ◌&&◌, ◌||◌, Option, none, some, List,
  [], ◌∷◌, ◌++◌, map, reverse, arith, eq_iff, ltb, leb, ◌==◌, str_eq, if◌then◌else◌, ltb→lt, lt→ltb,
  leb→le, le→leb, ==_iff, tests, Bool-cases, Option-cases, length, take, any, all, cons_if, filter,
  is_empty, All, length-append, length-take, length-filter-le, length-cons_if-le, any-append,
  filter-append, length-map, member, add, discard, str_eq_self, member-add, member-discard,
  member-filter, get, put, keys, values, get-put, get-put_self, get-put_ne, get_elem?,
  get_elem?-middle, get_elem?_total, append_assoc, append-nil, stretch, stretch-ge, stretch_mono,
  All-filter, All-map, All-imp, drop, DistinctKeys, get_absent, member-put, put-DistinctKeys,
  sort_desc, Descending, DistinctBy, filter-sort_desc, sort_desc-Descending, All-sort_desc,
  filter-Descending, below_middle, below_twice, last, last-append, take_full, All-middle, take_all,
  filter-All, filter_keeps, All-always, last-map, length-sort_desc, filter-DistinctBy, get_present,
  All-both, map-take,
}

-- The settings `health_stale_…_seconds`.
pub record Thresholds : Type 0 where
  pub stale_min : ℕ
  pub stale_max : ℕ
  pub stale_default : ℕ

unfoldable pub max_gap : List ScraperLog → ℕ
max_gap [] = 0
max_gap (newer ∷ []) = 0
max_gap (newer ∷ older ∷ logs) = max (newer.scraped_at - older.scraped_at) (max_gap (older ∷ logs))

-- `_stale_threshold_s`
unfoldable pub stale_threshold : Thresholds → List ScraperLog → ℕ
stale_threshold settings logs =
    if leb (max_gap logs) 0
    then settings.stale_default
    else min settings.stale_max (max settings.stale_min (max_gap logs * 3))

-- `_fail_reason`
pub data Reason : Type 0 where
  message : String → Reason
  http : ℕ → Reason
  scrape_failed : Reason

unfoldable pub status_reason : Option ℕ → Reason
status_reason none = scrape_failed
status_reason (some code) = if code == 0 then scrape_failed else http code

unfoldable pub fail_reason : Option String → Option ℕ → Reason
fail_reason none code = status_reason code
fail_reason (some text) code =
    if ltb 0 (length (codes text)) then message text else status_reason code

-- The answers of `compute_health`, with what their explanations name.
pub data Health : Type 0 where
  idle : Health
  stalled : ℕ → Health
  unwatched : Health
  errors : ℕ → Reason → Health
  parsing : Health
  degraded : List String → ℕ → Health
  clean : ℕ → Health

-- The field `state`.
unfoldable pub state : Health → String
state idle = "idle"
state (stalled age) = "stalled"
state unwatched = "live"
state (errors feeds reason) = "errors"
state parsing = "parsing"
state (degraded names feeds) = "degraded"
state (clean feeds) = "live"

-- The log counts: its topic is active, or there are no active topics.
unfoldable pub is_watched : List String → ScraperLog → Bool
is_watched active log = is_empty active || member log.topic active

abbrev pub same_source : ScraperLog → ScraperLog → Bool
same_source l m = str_eq l.topic m.topic && str_eq l.engine m.engine

-- `latest`, the values of the dictionary in its order.
unfoldable pub latest_from : List String → List ScraperLog → List ScraperLog → List ScraperLog
latest_from active [] latest = latest
latest_from active (log ∷ logs) latest = latest_from active logs (
    if not (is_watched active log) || any (same_source log) latest
    then latest
    else latest ++ log ∷ [])

abbrev pub or_false : Option Bool → Bool
or_false none = false
or_false (some b) = b

-- `served`
unfoldable pub served_from : List ScraperLog → List (String × Bool) → List (String × Bool)
served_from [] served = served
served_from (log ∷ latest) served =
    served_from latest (put log.topic (or_false (get log.topic served) || log.success) served)

-- `a_failure`
unfoldable pub first_failure : List ScraperLog → Option ScraperLog
first_failure [] = none
first_failure (log ∷ latest) = if log.success then first_failure latest else some log

unfoldable pub failed_topics : List (String × Bool) → List String
failed_topics served = keys (filter (λ e. not e.1) served)

abbrev pub reason_of : Option ScraperLog → Reason
reason_of none = scrape_failed
reason_of (some log) = fail_reason log.error_message log.http_status_code

unfoldable pub total_entries : List ScraperLog → ℕ
total_entries [] = 0
total_entries (log ∷ logs) = log.entry_count + total_entries logs

-- The successes parse nothing.
unfoldable pub is_quiet : List ScraperLog → Bool
is_quiet successes = not (is_empty successes) && total_entries successes == 0

-- The part of `compute_health` after the latest outcomes are known.
unfoldable pub judge : List ScraperLog → List (String × Bool) → List ScraperLog → Health
judge successes served latest =
    let failed = failed_topics served in
    if not (is_empty failed) && length failed == length served
    then errors (length served) (reason_of (first_failure latest))
    else if is_quiet successes
    then parsing
    else if not (is_empty failed)
    then degraded (sorted failed) (length served)
    else clean (length served)

abbrev pub successes_of : List String → List ScraperLog → List ScraperLog
successes_of active logs = filter (λ l. l.success && is_watched active l) logs

unfoldable pub compute_health : Thresholds → ℕ → List String → List ScraperLog → Health
compute_health settings now active [] = idle
compute_health settings now active (log ∷ logs) =
    let age = now - log.scraped_at in
    let latest = latest_from active (log ∷ logs) [] in
    if ltb (stale_threshold settings (log ∷ logs)) age
    then stalled age
    else if is_empty latest
    then unwatched
    else judge (successes_of active (log ∷ logs)) (served_from latest []) latest
