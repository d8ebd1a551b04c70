-- ===== src/Metrics/Tests.antt =====
-- Runs of the monitor of api/v1/metrics.py.
use topicstreams.EngineTable.{EngineRow, EngineTable, with_cooldown}
use topicstreams.Dispatch.{is_healthy}
use topicstreams.Saturation.{evaluate_backlog, lateness_factor}
use topicstreams.TaskQueue.{SchedulerHealth}
use topicstreams.BlockSignals.{is_network_block}
use topicstreams.Metrics.{
  EngineStats, classify_engine, build_engine, get_metrics_engines, rows_by_engine, row_or_empty,
  empty_engine_row, is_fresh, behind_lateness_factor, may_be_behind, blocked, in_block_statuses,
  live_cooldown, until_probe,
}
use topicstreams.Metrics.Benches.{benched_of, fresh_of, is_some}
use topicstreams.Metrics.Engines.{entry_of, get_metrics_engines-Shown}
use topicstreams.Metrics.Labels.{is_cooldown, is_behind, build_engine-Labelled}
use topicstreams.Base.{
  ◌*◌, ◌≡◌, refl, true, false, not, ◌&&◌, ◌||◌, none, some, [], ◌∷◌, if◌then◌else◌, member, get,
}

abbrev bing_stats : EngineStats
bing_stats = record (empty_stats) {
  scrapes = 10;
  successes = 4;
  last_success = some false;
  last_http_status = some 429;
}
  where
    empty_stats : EngineStats
    empty_stats = empty_engine_row "bing"

bing_blocked : classify_engine bing_stats ≡ blocked
unfolding classify_engine empty_engine_row in_block_statuses is_network_block
bing_blocked = refl

-- Brave was benched at 1000 for ten minutes.
abbrev brave_row : EngineRow
brave_row = record {
  failures = 2;
  next_probe_at = some 601000;
  overdue_count = 3;
  max_lateness = 500000;
  updated_at = 1000;
}

abbrev cooldowns : EngineTable
cooldowns = ("brave", brave_row) ∷ []

brave_benched : is_some (benched_of 2000 (some brave_row)) ≡ true
unfolding live_cooldown until_probe
brave_benched = refl

get_metrics_engines-Shown_example :
    entry_of "brave" (get_metrics_engines 2000 60000 (bing_stats ∷ []) cooldowns) ≡ (
      if member "brave" ("bing" ∷ []) || is_some (benched_of 2000 (get "brave" cooldowns))
      then some (
          build_engine
            (row_or_empty "brave" (get "brave" (rows_by_engine (bing_stats ∷ []) [])))
            (benched_of 2000 (get "brave" cooldowns))
            (fresh_of 2000 (get "brave" cooldowns))
            (60000 * behind_lateness_factor))
      else none)
unfolding empty_engine_row member
get_metrics_engines-Shown_example =
    get_metrics_engines-Shown 2000 60000 (bing_stats ∷ []) cooldowns "brave" (refl, tt)

build_engine-Labelled_example :
    let r = with_cooldown 1000 0 0 (some brave_row) in
    let label =
      (build_engine bing_stats
        (benched_of 2000 (some r))
        (fresh_of 2000 (some r))
        (60000 * behind_lateness_factor)).health in
    let backlog : SchedulerHealth = record {
      overdue_count = r.overdue_count;
      max_lateness = r.max_lateness;
      pending_oneoffs = 0;
    } in
    (is_cooldown label ≡ (is_fresh 2000 r && not (is_healthy 2000 (some r))))
    × (is_behind label ≡ (
        is_fresh 2000 r
        && is_healthy 2000 (some r)
        && (evaluate_backlog "bing" backlog 60000 lateness_factor).behind
        && may_be_behind (classify_engine bing_stats)))
unfolding empty_engine_row member
build_engine-Labelled_example =
    build_engine-Labelled 1000 2000 0 0 60000 (some brave_row) bing_stats
