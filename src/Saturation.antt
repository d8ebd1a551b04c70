-- ===== src/Saturation.antt =====
-- scraper/saturation.py: the state that the workers publish, and the exit-IP and backlog signals
-- that the supervisor reads off it. The lock makes each method atomic. Ticks are milliseconds.
pub mod Verdicts
mod Tests
use topicstreams.Cooldown.{CooldownSnapshot}
use topicstreams.TaskQueue.{SchedulerHealth}
use topicstreams.Sorting.{sorted}
use topicstreams.Base.{
  ℕ, zero, suc, ◌+◌, ◌-◌, ◌*◌, ◌/◌, ◌%◌, ◌^◌, ◌≤◌, ◌<◌, min, max, String, ◌≡◌, refl, sym, ap, ap₂,
  subst, ◌∙◌, ◌≢◌, ◌↔◌, ◌⊎◌, inl, inr, Bool, true, false, not, ◌&&◌, ◌||◌, Option, none, some, List,
  [], ◌∷◌, ◌++◌, map, reverse, arith, eq_iff, ltb, leb, ◌==◌, str_eq, if◌then◌else◌, ltb→lt, lt→ltb,
  leb→le, le→leb, ==_iff, tests, Bool-cases, Option-cases, length, take, any, all, cons_if, filter,
  is_empty, All, length-append, length-take, length-filter-le, length-cons_if-le, any-append,
  filter-append, length-map, member, add, discard, str_eq_self, member-add, member-discard, get,
  put, keys, values, get-put, get-put_self, get-put_ne, get_elem?, get_elem?-middle,
  get_elem?_total, append_assoc, append-nil, stretch, stretch-ge, stretch_mono, All-filter, All-map,
  All-imp, drop,
}

pub record SharedEngineState : Type 0 where
  pub snapshots : List (String × CooldownSnapshot)
  pub health : List (String × SchedulerHealth)

abbrev pub start : SharedEngineState
start = record { snapshots = []; health = [] }

unfoldable pub update : CooldownSnapshot → SharedEngineState → SharedEngineState
update snap s = record s { snapshots = put snap.engine snap s.snapshots }

-- `all`
unfoldable pub all_snapshots : SharedEngineState → List CooldownSnapshot
all_snapshots s = values s.snapshots

unfoldable pub update_health : String → SchedulerHealth → SharedEngineState → SharedEngineState
update_health engine h s = record s { health = put engine h s.health }

unfoldable pub health_all : SharedEngineState → List (String × SchedulerHealth)
health_all s = s.health

pub record SaturationVerdict : Type 0 where
  pub saturated : Bool
  pub cooling_robust : List String
  pub cooling_canary : List String
  pub robust_threshold : ℕ

-- The engines that are cooling.
unfoldable pub cooling : List CooldownSnapshot → List String
cooling snaps = map (λ s. s.engine) (filter (λ s. ltb 0 s.failures) snaps)

unfoldable pub evaluate_saturation : List CooldownSnapshot → List String → ℕ → SaturationVerdict
evaluate_saturation snaps canary threshold =
    let robust = sorted (filter (λ e. not (member e canary)) (cooling snaps)) in
    record {
      saturated = leb threshold (length robust);
      cooling_robust = robust;
      cooling_canary = sorted (filter (λ e. member e canary) (cooling snaps));
      robust_threshold = threshold;
    }

pub record BacklogVerdict : Type 0 where
  pub engine : String
  pub overdue_count : ℕ
  pub max_lateness : ℕ
  pub behind : Bool

-- `_BACKLOG_LATENESS_FACTOR`
abbrev pub lateness_factor : ℕ
lateness_factor = 3

unfoldable pub evaluate_backlog : String → SchedulerHealth → ℕ → ℕ → BacklogVerdict
evaluate_backlog engine h interval factor = record {
  engine = engine;
  overdue_count = h.overdue_count;
  max_lateness = h.max_lateness;
  behind = ltb (factor * interval) h.max_lateness;
}
