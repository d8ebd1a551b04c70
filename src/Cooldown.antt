-- ===== src/Cooldown.antt =====
-- scraper/cooldown.py: `classify_logs` and `EngineCooldownTracker`. Times are whole ticks of the
-- monotonic clock, read once in a call.
pub mod Gate
pub mod Backoff
pub mod Streak
mod Tests
use topicstreams.Text.{codes, lower, contains}
use topicstreams.Model.{ScraperLog}
use topicstreams.BlockSignals.{is_network_block}
use topicstreams.Base.{
  ℕ, zero, suc, ◌+◌, ◌-◌, ◌*◌, ◌/◌, ◌%◌, ◌^◌, ◌≤◌, ◌<◌, min, max, String, ◌≡◌, refl, sym, ap, ap₂,
  subst, ◌∙◌, ◌≢◌, ◌↔◌, ◌⊎◌, inl, inr, Bool, true, false, not, ◌&&◌, ◌||◌, Option, none, some, List,
  [], ◌∷◌, ◌++◌, map, reverse, arith, eq_iff, ltb, leb, ◌==◌, str_eq, if◌then◌else◌, ltb→lt, lt→ltb,
  leb→le, le→leb, ==_iff, tests, Bool-cases, Option-cases, length, take, any, all, cons_if, filter,
  is_empty, All, length-append, length-take, length-filter-le, length-cons_if-le, any-append,
  filter-append, length-map, member, add, discard, str_eq_self, member-add, member-discard, get,
  put, keys, values, get-put,
}

-- `log.http_status_code in BLOCK_STATUSES`
unfoldable pub in_block_statuses : Option ℕ → Bool
in_block_statuses none = false
in_block_statuses (some code) = code == 429 || code == 403 || code == 503

pub data Outcome : Type 0 where
  block ok other : Outcome

pub data Decision : Type 0 where
  run probe skip : Decision

pub record CooldownSnapshot : Type 0 where
  pub engine : String
  pub failures : ℕ
  pub remaining_seconds : ℕ

-- `_is_block_message`: no message is the empty message.
unfoldable pub is_block_message : ScraperLog → Bool
is_block_message log = elim log.error_message [
  | none ↦ false
  | some message ↦
      contains (codes "block") (lower (codes message)) || is_network_block (some message)
]

-- The test that `classify_logs` makes of each log.
unfoldable pub is_block : ScraperLog → Bool
is_block log = in_block_statuses log.http_status_code || is_block_message log

unfoldable pub classify_logs : List ScraperLog → Outcome
classify_logs logs =
    if any is_block logs then block else if any (λ log. log.success) logs then ok else other

pub record EngineState : Type 0 where
  pub failures : ℕ
  pub next_probe : ℕ

abbrev pub fresh : EngineState
fresh = record { failures = 0; next_probe = 0 }

pub record Tracker : Type 0 where
  pub base_seconds : ℕ
  pub max_seconds : ℕ
  pub state : List (String × EngineState)

-- `_window_for`
unfoldable pub window_for : Tracker → ℕ → ℕ
window_for c failures = min c.max_seconds (c.base_seconds * 2 ^ (failures - 1))

-- `decide` and `remaining` on the state that is looked up.
unfoldable pub decide_state : ℕ → Option EngineState → Decision
decide_state now none = run
decide_state now (some s) =
    if s.failures == 0 then run else if leb s.next_probe now then probe else skip

unfoldable pub decide : ℕ → Tracker → String → Decision
unfolding decide_state
decide now c engine = decide_state now (get engine c.state)

-- `max(0.0, next_probe - now)` is the truncated difference.
unfoldable pub remaining_state : ℕ → Option EngineState → ℕ
remaining_state now none = 0
remaining_state now (some s) = if s.failures == 0 then 0 else s.next_probe - now

unfoldable pub remaining : ℕ → Tracker → String → ℕ
unfolding remaining_state
remaining now c engine = remaining_state now (get engine c.state)

-- `self._state.setdefault(engine, _EngineState())`
abbrev pub or_fresh : Option EngineState → EngineState
or_fresh none = fresh
or_fresh (some s) = s

-- The branches of `record` on the outcome.
unfoldable pub record_outcome : ℕ → Tracker → Outcome → EngineState → EngineState
record_outcome now c block s = record {
  failures = s.failures + 1;
  next_probe = now + window_for c (s.failures + 1);
}
record_outcome now c ok s = fresh
record_outcome now c other s =
    if s.failures == 0 then s else record s { next_probe = now + window_for c s.failures }

unfoldable pub record_logs : ℕ → Tracker → String → List ScraperLog → Tracker
record_logs now c engine logs = record c {
  state =
      put engine (record_outcome now c (classify_logs logs) (or_fresh (get engine c.state)))
        c.state;
}

unfoldable pub snapshot : ℕ → Tracker → List CooldownSnapshot
snapshot now c =
    map
      (λ e. record {
        engine = e.0;
        failures = e.1.failures;
        remaining_seconds = remaining now c e.0;
      })
      c.state
