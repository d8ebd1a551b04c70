-- ===== src/TaskQueue.antt =====
-- scraper/tasks.py: the tasks, their generators and `EngineTaskQueue`, over any backend for web
-- searches. Ticks are milliseconds. One call of the queue reads the clock once.
pub mod Priority
pub mod Waiting
pub mod Reject
mod Tests
use topicstreams.Model.{WebResult, ScraperLog}
use topicstreams.Schedule
use topicstreams.Schedule.{Schedule, Due, due, wait, idle, next_due}
use topicstreams.Heartbeat
use topicstreams.Heartbeat.{Heartbeat, next_query}
use topicstreams.WebQueue.{Backend}
use topicstreams.Base.{
  ℕ, zero, suc, ◌+◌, ◌-◌, ◌*◌, ◌/◌, ◌%◌, ◌^◌, ◌≤◌, ◌<◌, min, max, String, ◌≡◌, refl, sym, ap, ap₂,
  subst, ◌∙◌, ◌≢◌, ◌↔◌, ◌⊎◌, inl, inr, Bool, true, false, not, ◌&&◌, ◌||◌, Option, none, some, List,
  [], ◌∷◌, ◌++◌, map, reverse, arith, eq_iff, ltb, leb, ◌==◌, str_eq, if◌then◌else◌, ltb→lt, lt→ltb,
  leb→le, le→leb, ==_iff, tests, Bool-cases, Option-cases, length, take, any, all, cons_if, filter,
  is_empty, All, length-append, length-take, length-filter-le, length-cons_if-le, any-append,
  filter-append, length-map, member, add, discard, str_eq_self, member-add, member-discard, get,
  put, keys, values, get-put, get-put_self, get-put_ne, get_elem?, get_elem?-middle,
  get_elem?_total, append_assoc, append-nil, stretch, stretch-ge, stretch_mono, All-filter, All-map,
  All-imp,
}

-- `SearchVertical`
pub data Vertical : Type 0 where
  news_vertical web_vertical : Vertical

-- `NewsScrapeTask`, `WebSearchTask` and `KeepAliveTask`; the last number is `max_pages`.
pub data Task (Job : Type 0) : Type 0 where
  news : String → ℕ → Option ℕ → Task Job
  web : Job → Option ℕ → Task Job
  keepalive : String → Option ℕ → Task Job

module _ {Job : Type 0} where
  unfoldable pub vertical : Task Job → Vertical
  vertical (news topic when pages) = news_vertical
  vertical (web job pages) = web_vertical
  vertical (keepalive query pages) = news_vertical

  unfoldable pub tracked : Task Job → Bool
  tracked (news topic when pages) = true
  tracked _ = false

  -- `(class, when)`
  unfoldable pub priority : Task Job → ℕ × ℕ
  priority (web job pages) = (0, 0)
  priority (news topic when pages) = (1, when)
  priority (keepalive query pages) = (2, 0)

  unfoldable pub max_pages : Task Job → Option ℕ
  max_pages (news topic when pages) = pages
  max_pages (web job pages) = pages
  max_pages (keepalive query pages) = pages

abbrev pub web_poll_interval : ℕ
web_poll_interval = 1000

pub record SchedulerHealth : Type 0 where
  pub overdue_count : ℕ
  pub max_lateness : ℕ
  pub pending_oneoffs : ℕ

-- `EngineTaskQueue` with the state of its generators: the news schedule, the web queue if there is
-- one, and the heartbeat if there is one.
pub record Queue (State : Type 0) : Type 0 where
  pub schedule : Schedule
  pub news_pages : Option ℕ
  pub web_state : Option State
  pub web_pages : Option ℕ
  pub heartbeat : Option Heartbeat

-- The least of the waits that there are.
abbrev pub min_wait : Option ℕ → Option ℕ → Option ℕ
min_wait none b = b
min_wait (some a) none = some a
min_wait (some a) (some b) = some (min a b)

module _ (b : Backend) where
  open b use {State, Job, query, poll, pending, resolve, fail, cooling}

  -- `Task.query`
  unfoldable pub task_query : Task Job → String
  task_query (news topic when pages) = topic
  task_query (web job pages) = query job
  task_query (keepalive text pages) = text

  -- `deliver_success`, `deliver_failure` and `deliver_cooling`: only a web search has somebody who
  -- waits for it.
  unfoldable pub deliver_success : ℕ → Task Job → List WebResult → List ScraperLog → State → State
  deliver_success now (web job pages) results logs s = resolve now job results logs s
  deliver_success now _ results logs s = s

  unfoldable pub deliver_failure : ℕ → Task Job → String → State → State
  deliver_failure now (web job pages) message s = fail now job message s
  deliver_failure now _ message s = s

  unfoldable pub deliver_cooling : ℕ → Task Job → State → State
  deliver_cooling now (web job pages) s = cooling now job s
  deliver_cooling now _ s = s

  -- `NewsTaskGenerator.poll`
  unfoldable pub news_found : Option ℕ → Due → Option (Task Job) × Option ℕ
  news_found pages (due topic) = (some (news topic 0 pages), some 0)
  news_found pages (wait n) = (none, some n)
  news_found pages idle = (none, none)

  unfoldable pub news_poll : ℕ → Queue State → (Option (Task Job) × Option ℕ) × Queue State
  news_poll now q =
      let found = next_due now q.schedule in
      (news_found q.news_pages found.0, record q { schedule = found.1 })

  -- `WebSearchSource.poll`, if a source is attached.
  unfoldable pub web_claim : ℕ → Option State → Option Job × Option State
  web_claim now none = (none, none)
  web_claim now (some s) = let found = poll now s in (found.0, some found.1)

  unfoldable pub web_task : Option ℕ → Option Job → Option (Task Job)
  web_task pages none = none
  web_task pages (some job) = some (web job pages)

  unfoldable pub web_poll : ℕ → Queue State → Option (Task Job) × Queue State
  web_poll now q =
      let found = web_claim now q.web_state in
      (web_task q.web_pages found.0, record q { web_state = found.1 })

  -- `KeepAliveGenerator.poll`, if there is one: a task of one page.
  unfoldable pub keepalive_task : Option String → Option (Task Job)
  keepalive_task none = none
  keepalive_task (some text) = some (keepalive text (some 1))

  unfoldable pub keepalive_fire : ℕ → Option Heartbeat → Option (Task Job) × Option Heartbeat
  keepalive_fire now none = (none, none)
  keepalive_fire now (some h) =
      if Heartbeat.due now h
      then (keepalive_task (next_query h).0, some (next_query h).1)
      else (none, some h)

  unfoldable pub keepalive_poll : ℕ → Queue State → Option (Task Job) × Queue State
  keepalive_poll now q =
      let found = keepalive_fire now q.heartbeat in (found.0, record q { heartbeat = found.1 })

  -- `_idle_wait`
  unfoldable pub keepalive_wait : ℕ → Option Heartbeat → Option ℕ
  keepalive_wait now none = none
  keepalive_wait now (some h) = some (Heartbeat.seconds_until_due now h)

  unfoldable pub web_wait : Option State → Option ℕ
  web_wait none = none
  web_wait (some s) = some web_poll_interval

  unfoldable pub idle_wait : ℕ → Option ℕ → Queue State → Option ℕ
  idle_wait now news_wait q =
      min_wait news_wait (min_wait (keepalive_wait now q.heartbeat) (web_wait q.web_state))

  -- The task found, and else what comes after.
  unfoldable pub or_else :
      Option (Task Job)
      → Queue State
      → (Option (Task Job) × Option ℕ) × Queue State
      → (Option (Task Job) × Option ℕ) × Queue State
  or_else (some t) q later = ((some t, some 0), q)
  or_else none q later = later

  -- `pop_ready`: its end after web and news had nothing, its part after web had nothing, and all.
  unfoldable pub pop_keepalive :
      ℕ → Option ℕ → Queue State → (Option (Task Job) × Option ℕ) × Queue State
  pop_keepalive now news_wait q =
      let found = keepalive_poll now q in
      or_else found.0 found.1 ((none, idle_wait now news_wait found.1), found.1)

  unfoldable pub pop_news : ℕ → Queue State → (Option (Task Job) × Option ℕ) × Queue State
  pop_news now q =
      let found = news_poll now q in or_else found.0.0 found.1 (pop_keepalive now found.0.1 found.1)

  unfoldable pub pop_ready : ℕ → Queue State → (Option (Task Job) × Option ℕ) × Queue State
  pop_ready now q = let found = web_poll now q in or_else found.0 found.1 (pop_news now found.1)

  -- `on_completed`
  unfoldable pub rearm : (String → ℕ → ℕ) → ℕ → Task Job → Queue State → Queue State
  rearm uniform now (news topic when pages) q = record q {
    schedule = Schedule.reschedule uniform now topic q.schedule;
  }
  rearm uniform now _ q = q

  unfoldable pub warmed : (ℕ → ℕ) → ℕ → Queue State → Queue State
  warmed uniform now q = elim q.heartbeat [
    | none ↦ q
    | some h ↦ record q { heartbeat = some (Heartbeat.record_activity uniform now h) }
  ]

  unfoldable pub on_completed :
      (String → ℕ → ℕ) → (ℕ → ℕ) → ℕ → Task Job → Queue State → Queue State
  on_completed uniform uniform' now t q = warmed uniform' now (rearm uniform now t q)

  -- The `for` loop of `reject_pending_oneoffs` on the web queue: a turn, and the turns up to the
  -- limit.
  unfoldable pub reject_step : Option Job → State → (Job → ℕ × State) → ℕ × State
  reject_step none s rest = (0, s)
  reject_step (some job) s rest = let later = rest job in (suc later.0, later.1)

  unfoldable pub reject_loop : ℕ → ℕ → State → ℕ × State
  reject_loop now zero s = (0, s)
  reject_loop now (suc limit) s =
      let found = poll now s in
      reject_step found.0 found.1 (λ job. reject_loop now limit (cooling now job found.1))

  unfoldable pub reject_pending_oneoffs : ℕ → ℕ → Queue State → ℕ × Queue State
  reject_pending_oneoffs now limit q = elim q.web_state [
    | none ↦ (0, q)
    | some s ↦
        let rejected = reject_loop now limit s in
        (rejected.0, record q { web_state = some rejected.1 })
  ]

  unfoldable pub health : ℕ → Queue State → SchedulerHealth
  health now q = record {
    overdue_count = (Schedule.backlog now q.schedule).0;
    max_lateness = (Schedule.backlog now q.schedule).1;
    pending_oneoffs = elim q.web_state [ none ↦ 0 | some s ↦ pending s ];
  }

  unfoldable pub seed : (String → ℕ → ℕ) → ℕ → List String → Queue State → Queue State
  seed uniform now topics q = record q { schedule = Schedule.seed uniform now topics q.schedule }

  unfoldable pub reconcile : (String → ℕ → ℕ) → ℕ → List String → Queue State → Queue State
  reconcile uniform now topics q = record q {
    schedule = Schedule.reconcile uniform now topics q.schedule;
  }
