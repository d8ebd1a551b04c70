-- ===== src/Metrics/Labels.antt =====
-- How the monitor of api/v1/metrics.py labels an engine, next to what the dispatcher of
-- api/websearch.py and the backlog signal of scraper/saturation.py make of the same row.
use topicstreams.EngineTable.{EngineRow, with_cooldown}
use topicstreams.Dispatch.{is_healthy}
use topicstreams.Saturation.{lateness_factor, evaluate_backlog}
use topicstreams.TaskQueue.{SchedulerHealth}
use topicstreams.Metrics.{
  EngineStats, EngineHealth, idle, blocked, parsing, degraded, healthy, cooldown, behind,
  classify_engine, until_probe, is_fresh, live_cooldown, Benched, build_engine,
  behind_lateness_factor, may_be_behind, overdue_of,
}
use topicstreams.Metrics.Benches.{fresh_of, benched_of, is_some}
use topicstreams.Base.{
  ℕ, ◌+◌, ◌*◌, ◌≡◌, refl, ◌∙◌, inl, inr, Bool, true, false, not, ◌&&◌, Option, none, some, arith,
  ltb, ◌==◌, if◌then◌else◌, Bool-cases,
}

abbrev pub is_cooldown : EngineHealth → Bool
is_cooldown cooldown = true
is_cooldown idle = false
is_cooldown blocked = false
is_cooldown parsing = false
is_cooldown degraded = false
is_cooldown healthy = false
is_cooldown behind = false

abbrev pub is_behind : EngineHealth → Bool
is_behind behind = true
is_behind idle = false
is_behind blocked = false
is_behind parsing = false
is_behind degraded = false
is_behind healthy = false
is_behind cooldown = false

classify_base :
    (s : EngineStats)
    → (is_cooldown (classify_engine s) ≡ false) × (is_behind (classify_engine s) ≡ false)
unfolding classify_engine
classify_base s = (ground arith, ground arith)

label_cooldown :
    (s : EngineStats) (b : Option Benched) (o : Option EngineRow) (threshold : ℕ)
    → is_cooldown (build_engine s b o threshold).health ≡ is_some b
unfolding build_engine
label_cooldown s none o threshold = ground (arith, (classify_base s).0)
label_cooldown s (some b) o threshold = refl

label_behind :
    (s : EngineStats) (b : Option Benched) (o : Option EngineRow) (threshold : ℕ)
    → is_behind (build_engine s b o threshold).health
      ≡ (not (is_some b) && (ltb threshold (overdue_of o).1 && may_be_behind (classify_engine s)))
unfolding build_engine
label_behind s none o threshold = ground (arith, (classify_base s).1)
label_behind s (some b) o threshold = refl

-- The bench of a row whose probe is set exactly if it has failures.
bench_probe :
    (now failures : ℕ) (r : EngineRow) (probe : ℕ)
    → failures ≡ r.failures
    → r.next_probe_at ≡ (if ltb 0 failures then some probe else none)
    → is_some (benched_of now (some r)) ≡ (is_fresh now r && not (is_healthy now (some r)))
unfolding live_cooldown until_probe is_healthy
bench_probe now failures r probe same set = elim (Bool-cases (ltb 0 failures)) [
  | inl cooling ↦
      let there : r.next_probe_at ≡ some probe = set ∙ rw cooling refl in
      let counted : (r.failures == 0) ≡ false = ground (arith, cooling, same) in
      rw there (rw counted (ground arith))
  | inr calm ↦ let gone : r.next_probe_at ≡ none = set ∙ rw calm refl in rw gone (ground arith)
]

benched_row :
    (at now failures remaining : ℕ) (o : Option EngineRow)
    → let r = with_cooldown at failures remaining o in
      is_some (benched_of now (some r)) ≡ (is_fresh now r && not (is_healthy now (some r)))
unfolding with_cooldown
benched_row at now failures remaining none =
    bench_probe now failures (with_cooldown at failures remaining none) (at + remaining) refl refl
benched_row at now failures remaining (some r) =
    bench_probe now failures (with_cooldown at failures remaining (some r)) (at + remaining) refl
      refl

-- An engine whose cooldown the scraper has published is labelled `cooldown` exactly if its row is
-- fresh and the dispatcher skips it, and `behind` exactly if it is not, its fresh row is what the
-- scraper itself calls behind, and its scrapes show nothing worse.
pub build_engine-Labelled :
    (at now failures remaining interval : ℕ) (o : Option EngineRow) (s : EngineStats)
    → let r = with_cooldown at failures remaining o in
      let label =
        (build_engine s
          (benched_of now (some r))
          (fresh_of now (some r))
          (interval * behind_lateness_factor)).health in
      let backlog : SchedulerHealth = record {
        overdue_count = r.overdue_count;
        max_lateness = r.max_lateness;
        pending_oneoffs = 0;
      } in
      (is_cooldown label ≡ (is_fresh now r && not (is_healthy now (some r))))
      × (is_behind label ≡ (
          is_fresh now r
          && is_healthy now (some r)
          && (evaluate_backlog s.engine backlog interval lateness_factor).behind
          && may_be_behind (classify_engine s)))
unfolding evaluate_backlog
build_engine-Labelled at now failures remaining interval o s =
    let r : EngineRow = with_cooldown at failures remaining o in
    let benched = benched_row at now failures remaining o in
    let threshold : ℕ = interval * behind_lateness_factor in
    (
      label_cooldown s (benched_of now (some r)) (fresh_of now (some r)) threshold ∙ benched,
      label_behind s (benched_of now (some r)) (fresh_of now (some r)) threshold
          ∙ ground (arith, benched),
    )
