-- ===== src/Dispatch.antt =====
-- api/websearch.py: `_healthy_engines`, `_await_result` and `dispatch_web_search`. The table of jobs
-- is shared with the workers, who act while the API sleeps: `others now t` is the table that they
-- make of `t` in the sleep that ends at `now`. Times are ticks, and a database call takes none.
pub mod Healthy
pub mod Awaits
pub mod Outcomes
mod Tests
use topicstreams.Text.{strip}
use topicstreams.Model.{WebResult}
use topicstreams.EngineTable.{EngineRow, EngineTable}
use topicstreams.Jobs
use topicstreams.Jobs.{Status, done, JobOutcome, Row, Table, enqueue, fetch, delete}
use topicstreams.Base.{
  ℕ, zero, suc, ◌+◌, ◌-◌, ◌*◌, ◌/◌, ◌%◌, ◌^◌, ◌≤◌, ◌<◌, min, max, String, ◌≡◌, refl, sym, ap, ap₂,
  subst, ◌∙◌, ◌≢◌, ◌↔◌, ◌⊎◌, inl, inr, Bool, true, false, not, ◌&&◌, ◌||◌, Option, none, some, List,
  [], ◌∷◌, ◌++◌, map, reverse, arith, eq_iff, ltb, leb, ◌==◌, str_eq, if◌then◌else◌, ltb→lt, lt→ltb,
  leb→le, le→leb, ==_iff, tests, Bool-cases, Option-cases, length, take, any, all, cons_if, filter,
  is_empty, All, length-append, length-take, length-filter-le, length-cons_if-le, any-append,
  filter-append, length-map, member, add, discard, str_eq_self, member-add, member-discard, get,
  put, keys, values, get-put, get-put_self, get-put_ne, get_elem?, get_elem?-middle,
  get_elem?_total, append_assoc, append-nil, stretch, stretch-ge, stretch_mono, All-filter, All-map,
  All-imp, drop, DistinctKeys, get_absent, member-put, put-DistinctKeys,
}

-- The tests of `_healthy_engines` on an engine's row: none is no snapshot.
unfoldable pub is_healthy : ℕ → Option EngineRow → Bool
is_healthy now none = true
is_healthy now (some r) = elim r.next_probe_at [ none ↦ true | some probe ↦ leb probe now ]

unfoldable pub healthy_engines : ℕ → List String → EngineTable → List String
healthy_engines now configured cooldowns = filter (λ e. is_healthy now (get e cooldowns)) configured

abbrev pub is_done : Status → Bool
is_done done = true
is_done _ = false

-- The row, if it is there and done.
unfoldable pub done_row : Option Row → Option Row
done_row none = none
done_row (some r) = if is_done r.status then some r else none

pub data SearchStatus : Type 0 where
  ok empty blocked error cooling timeout busy unavailable : SearchStatus

pub record WebSearchResult : Type 0 where
  pub query : String
  pub status : SearchStatus
  pub engine : Option String
  pub results : List WebResult
  pub attempts : List String

-- `row["outcome"] or "error"`
unfoldable pub status_of : Option JobOutcome → SearchStatus
status_of none = error
status_of (some Jobs.ok) = ok
status_of (some Jobs.empty) = empty
status_of (some Jobs.blocked) = blocked
status_of (some Jobs.error) = error
status_of (some Jobs.cooling) = cooling

abbrev pub or_nil : Option (List WebResult) → List WebResult
or_nil none = []
or_nil (some results) = results

-- The settings of a search.
pub record Settings : Type 0 where
  pub engines : List String
  pub request_timeout : ℕ
  pub poll_interval : ℕ
  pub max_engine_attempts : ℕ
  pub max_in_flight : ℕ

-- What one attempt comes to: the engine was at capacity, nothing came in time, or a row.
pub data Attempt : Type 0 where
  refused timed_out : Attempt
  answered : Row → Attempt

module _ (others : ℕ → Table → Table) (settings : Settings) where
  open settings use {engines, request_timeout, poll_interval, max_engine_attempts, max_in_flight}

  -- A round of the `while` loop of `_await_result`: the row that is done ends it, and so does the
  -- deadline.
  unfoldable pub await_round :
      Option Row → Bool → ℕ → Table → Option Row × ℕ × Table → Option Row × ℕ × Table
  await_round (some r) over now t again = (some r, now, t)
  await_round none over now t again = if over then (none, now, t) else again

  -- The loop on fuel, with the time and the table that it ends in.
  unfoldable pub await_loop : ℕ → ℕ → ℕ → ℕ → Table → Option Row × ℕ × Table
  await_loop zero deadline i now t = (none, now, t)
  await_loop (suc fuel) deadline i now t =
      let again =
        await_loop fuel deadline i (now + poll_interval) (others (now + poll_interval) t) in
      await_round (done_row (fetch i t.rows)) (leb deadline now) now t again

  -- Each round but the last sleeps, so with an interval of at least a tick this fuel is enough.
  unfoldable pub await_result : ℕ → ℕ → Table → Option Row × ℕ × Table
  await_result i now t = await_loop (suc request_timeout) (now + request_timeout) i now t

  -- The row is dropped whatever came of it.
  unfoldable pub cleaned : ℕ → Option Row × ℕ × Table → Attempt × ℕ × Table
  cleaned i (none, now, t) = (timed_out, now, delete i t)
  cleaned i (some r, now, t) = (answered r, now, delete i t)

  unfoldable pub served : ℕ → Option ℕ × Table → Attempt × ℕ × Table
  served now (none, t) = (refused, now, t)
  served now (some i, t) = cleaned i (await_result i now t)

  -- One turn of the `for` loop up to its result.
  unfoldable pub attempt : String → String → ℕ → Table → Attempt × ℕ × Table
  attempt query engine now t = served now (enqueue now query engine (some max_in_flight) t)

  abbrev pub give_up : String → SearchStatus → List String → WebSearchResult
  give_up query status attempts = record {
    query = query;
    status = status;
    engine = none;
    results = [];
    attempts = attempts;
  }

  -- What a turn does with a job's outcome: return its results, or go on with its status.
  unfoldable pub on_status :
      String
      → String
      → List String
      → List WebResult
      → SearchStatus
      → (SearchStatus → List String → WebSearchResult × Table)
      → Table
      → WebSearchResult × Table
  on_status query engine attempts results ok continue t = (
    record {
      query = query;
      status = ok;
      engine = some engine;
      results = results;
      attempts = attempts;
    },
    t,
  )
  on_status query engine attempts results other continue t = continue other attempts

  -- What a turn does with the attempt: return, or go on with the status and the attempts so far.
  unfoldable pub after_attempt :
      String
      → String
      → List String
      → Attempt
      → (SearchStatus → List String → WebSearchResult × Table)
      → Table
      → WebSearchResult × Table
  after_attempt query engine attempts refused continue t = continue busy attempts
  after_attempt query engine attempts timed_out continue t =
      continue timeout (attempts ++ engine ∷ [])
  after_attempt query engine attempts (answered r) continue t =
      on_status query engine (attempts ++ engine ∷ []) (or_nil r.results) (status_of r.outcome)
        continue t

  -- The `for` loop over the engines to try.
  unfoldable pub dispatch_loop :
      String → List String → List String → SearchStatus → ℕ → Table → WebSearchResult × Table
  dispatch_loop query [] attempts last now t = (give_up query last attempts, t)
  dispatch_loop query (engine ∷ rest) attempts last now t =
      let tried = attempt query engine now t in
      after_attempt query engine attempts tried.0
        (λ status so_far. dispatch_loop query rest so_far status tried.1 tried.2) tried.2

  -- `dispatch_web_search`, with the cooldowns read at the same time. No engine to try is the same
  -- answer as no healthy engine: `unavailable`.
  unfoldable pub dispatch_web_search : String → ℕ → EngineTable → Table → WebSearchResult × Table
  dispatch_web_search raw now cooldowns t =
      let query = strip raw in
      if str_eq query ""
      then (give_up query empty [], t)
      else dispatch_loop query (take max_engine_attempts (healthy_engines now engines cooldowns)) []
          unavailable now t
