-- ===== src/Supervisor.antt =====
-- The supervisor of scraper/main.py: the purges, the publication of the workers' state, and the two
-- signals. Which of the calls of the database raise is an argument.
pub mod Rounds
mod Tests
use topicstreams.Model.{ScraperLog}
use topicstreams.Cooldown.{CooldownSnapshot}
use topicstreams.TaskQueue.{SchedulerHealth}
use topicstreams.Feed.{Database}
use topicstreams.Feed.Reading.{purge_old_news_entries}
use topicstreams.History.{CycleRow, purge_old_scraper_logs, purge_old_cycles}
use topicstreams.Jobs.{Table, purge_stale}
use topicstreams.EngineTable.{EngineTable, upsert_cooldowns, upsert_backlog}
use topicstreams.Saturation.{
  SharedEngineState, all_snapshots, health_all, SaturationVerdict, evaluate_saturation,
  BacklogVerdict, evaluate_backlog, lateness_factor,
}
use topicstreams.Base.{
  ℕ, zero, suc, ◌+◌, ◌-◌, ◌*◌, ◌/◌, ◌%◌, ◌^◌, ◌≤◌, ◌<◌, min, max, String, ◌≡◌, refl, sym, ap, ap₂,
  subst, ◌∙◌, ◌≢◌, ◌↔◌, ◌⊎◌, inl, inr, Bool, true, false, not, ◌&&◌, ◌||◌, Option, none, some, List,
  [], ◌∷◌, ◌++◌, map, reverse, arith, eq_iff, ltb, leb, ◌==◌, str_eq, if◌then◌else◌, ltb→lt, lt→ltb,
  leb→le, le→leb, ==_iff, tests, Bool-cases, Option-cases, length, take, any, all, cons_if, filter,
  is_empty, All, length-append, length-take, length-filter-le, length-cons_if-le, any-append,
  filter-append, length-map, member, add, discard, str_eq_self, member-add, member-discard,
  member-filter, get, put, keys, values, get-put, get-put_self, get-put_ne, get_elem?,
  get_elem?-middle, get_elem?_total, append_assoc, append-nil, stretch, stretch-ge, stretch_mono,
  All-filter, All-map, All-imp, drop, DistinctKeys, get_absent, member-put, put-DistinctKeys,
  sort_desc, Descending, DistinctBy, filter-sort_desc, sort_desc-Descending, All-sort_desc,
  filter-Descending, below_middle, below_twice, last, last-append, take_full, All-middle, take_all,
  filter-All, filter_keeps, All-always, last-map, length-sort_desc, filter-DistinctBy, get_present,
  All-both, map-take, All-take,
}

-- The tables that the supervisor writes.
pub record World : Type 0 where
  pub feed : Database
  pub logs : List ScraperLog
  pub cycles : List CycleRow
  pub jobs : Table
  pub engines : EngineTable

-- The settings `news_retention_days`, in ticks, and those of `scraper_config`.
pub record Settings : Type 0 where
  pub retention : ℕ
  pub web_search_enabled : Bool
  pub job_ttl : ℕ
  pub scrape_interval : ℕ
  pub canary_engines : List String
  pub robust_threshold : ℕ

-- The calls that raise.
pub record Faults : Type 0 where
  pub news : Bool
  pub logs : Bool
  pub cycles : Bool
  pub jobs : Bool
  pub cooldowns : Bool
  pub backlog : Bool

abbrev purge_jobs : ℕ → Settings → Faults → World → World
purge_jobs now s f w =
    if not s.web_search_enabled || f.jobs
    then w
    else record w { jobs = (purge_stale now s.job_ttl w.jobs).1 }

abbrev purge_cycles : ℕ → Settings → Faults → World → World
purge_cycles now s f w =
    if f.cycles
    then w
    else purge_jobs now s f (record w { cycles = (purge_old_cycles now s.retention w.cycles).1 })

abbrev purge_logs : ℕ → Settings → Faults → World → World
purge_logs now s f w =
    if f.logs
    then w
    else purge_cycles now s f
        (record w { logs = (purge_old_scraper_logs now s.retention w.logs).1 })

-- `_purge_old`: a call that raises ends the housekeeping of the round.
unfoldable pub purge_old : ℕ → Settings → Faults → World → World
purge_old now s f w =
    if f.news
    then w
    else purge_logs now s f (record w { feed = (purge_old_news_entries now s.retention w.feed).1 })

unfoldable pub publish_cooldowns : ℕ → Faults → List CooldownSnapshot → EngineTable → EngineTable
publish_cooldowns now f snapshots t =
    if is_empty snapshots || f.cooldowns
    then t
    else upsert_cooldowns now (map (λ s. (s.engine, s.failures, s.remaining_seconds)) snapshots) t

unfoldable pub publish_backlog :
    ℕ → Faults → List (String × SchedulerHealth) → EngineTable → EngineTable
publish_backlog now f healths t =
    if is_empty healths || f.backlog
    then t
    else upsert_backlog now (map (λ h. (h.0, h.1.overdue_count, h.1.max_lateness)) healths) t

-- What a round logs.
pub record Signals : Type 0 where
  pub saturation : Option SaturationVerdict
  pub backlogs : List BacklogVerdict

-- A round of the loop of `_supervise`.
unfoldable pub supervise_round : ℕ → Settings → Faults → SharedEngineState → World → Signals × World
supervise_round now s f shared world =
    let purged = purge_old now s f world in
    let snapshots = all_snapshots shared in
    let healths = health_all shared in
    let engines =
      publish_backlog now f healths (publish_cooldowns now f snapshots purged.engines) in
    (
      record {
        saturation =
            if is_empty snapshots
            then none
            else some (evaluate_saturation snapshots s.canary_engines s.robust_threshold);
        backlogs = map (λ h. evaluate_backlog h.0 h.1 s.scrape_interval lateness_factor) healths;
      },
      record purged { engines = engines },
    )
