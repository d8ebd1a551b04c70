-- ===== src/Worker.antt =====
-- scraper/worker.py: the pacer, the metrics window and a turn of the loop of `run_engine_worker`. What
-- is outside of it is a `World`: draws, sleeps, the stop event, the browser, and the reads and writes
-- of the database that the loop makes. Each step of a turn reads the clock once.
pub mod Pace
pub mod Shutdown
pub mod Invariant
pub mod Gate
mod Tests
use topicstreams.Model.{NewsEntry, WebResult, ScraperLog}
use topicstreams.Schedule.{Schedule}
use topicstreams.Cooldown.{
  CooldownSnapshot, Decision, run, probe, skip, Tracker, decide, remaining, record_logs, snapshot,
}
use topicstreams.WebQueue.{Backend}
use topicstreams.TaskQueue.{
  Vertical, news_vertical, web_vertical, Task, news, web, keepalive, tracked, web_poll_interval,
  Queue, deliver_success, deliver_failure, pop_ready, on_completed, reject_pending_oneoffs, health,
  reconcile, min_wait,
}
use topicstreams.Saturation.{SharedEngineState, update, update_health}
use topicstreams.Scraper.{Visit, Handling, all_engines, Scraped, scrape_pages, scrape_topic}
use topicstreams.Cycles.{CycleWindow, new_window, add_scrape, Cycle, flush_window, Writes}
use topicstreams.Base.{
  ℕ, zero, suc, ◌+◌, ◌-◌, ◌*◌, ◌/◌, ◌%◌, ◌^◌, ◌≤◌, ◌<◌, min, max, String, ◌≡◌, refl, sym, ap, ap₂,
  subst, ◌∙◌, ◌≢◌, ◌↔◌, ◌⊎◌, inl, inr, Bool, true, false, not, ◌&&◌, ◌||◌, Option, none, some, List,
  [], ◌∷◌, ◌++◌, map, reverse, arith, eq_iff, ltb, leb, ◌==◌, str_eq, if◌then◌else◌, ltb→lt, lt→ltb,
  leb→le, le→leb, ==_iff, tests, Bool-cases, Option-cases, length, take, any, all, cons_if, filter,
  is_empty, All, length-append, length-take, length-filter-le, length-cons_if-le, any-append,
  filter-append, length-map, member, add, discard, str_eq_self, member-add, member-discard,
  member-filter, get, put, keys, values, get-put, get-put_self, get-put_ne, get_elem?,
  get_elem?-middle, get_elem?_total, append_assoc, append-nil, stretch, stretch-ge, stretch_mono,
  All-filter, All-map, All-imp, drop, DistinctKeys, get_absent, member-put, put-DistinctKeys,
}

-- `_Pacer`
pub record Pacer : Type 0 where
  pub min_interval : ℕ
  pub jitter_ratio : ℕ
  pub last : Option ℕ

abbrev pub is_some {ℓ} : {A : Type ℓ} → Option A → Bool
is_some none = false
is_some (some x) = true

-- What the worker meets: the draws of jitter, the time at which a sleep ends, the stop event, the
-- active topics of the database (none if the read fails), the writes of a window, an exception at
-- the opening of a page, and the pages.
pub record World : Type 0 where
  pub engine : String
  pub interval : ℕ
  pub uniform : String → ℕ → ℕ
  pub draw : ℕ → ℕ
  pub woken : ℕ → ℕ → ℕ
  pub is_stopping : ℕ → Bool
  pub active_topics : ℕ → Option (List String)
  pub writes : List NewsEntry → List ScraperLog → Writes
  pub refused_page : ℕ → Option String
  pub crawl : ℕ
  pub handling : Handling
  pub stamp_news : String → NewsEntry → NewsEntry
  pub stamp_web : String → WebResult → WebResult
  pub visit_news : String → String → Vertical → ℕ → ℕ → Visit NewsEntry
  pub visit_web : String → String → Vertical → ℕ → ℕ → Visit WebResult

-- The worker's state between two turns; the cycles are those written so far.
pub record Worker (State : Type 0) : Type 0 where
  pub queue : Queue State
  pub pacer : Pacer
  pub cooldown : Option Tracker
  pub shared : SharedEngineState
  pub window : CycleWindow
  pub cycles : List Cycle
  pub next_tick : ℕ

abbrev pub max_cooling_drain : ℕ
max_cooling_drain = 50

-- A task's run: its results and its logs, or the text of an exception.
pub data TaskOutcome : Type 0 where
  scraped : List NewsEntry → List ScraperLog → TaskOutcome
  searched : List WebResult → List ScraperLog → TaskOutcome
  raised : String → TaskOutcome

-- What a run changes besides its outcome.
pub record Ran : Type 0 where
  pub outcome : TaskOutcome
  pub pacer : Pacer
  pub cooldown : Option Tracker
  pub shared : SharedEngineState
  pub ended_at : ℕ

module _ (b : Backend) (w : World) where
  open b use {State, Job}

  -- `_Pacer.wait`, with the time at which the request starts.
  unfoldable pub pace_after : ℕ → Option ℕ → Pacer → ℕ
  pace_after now none p = now
  pace_after now (some last) p =
      let next = last + stretch p.min_interval (w.draw p.jitter_ratio) in
      if ltb now next then w.woken now (next - now) else now

  unfoldable pub pace : ℕ → Pacer → ℕ × Pacer
  pace now p = let start = pace_after now p.last p in (start, record p { last = some start })

  -- `for snap in cooldown.snapshot(): shared_state.update(snap)`
  unfoldable pub publish_all : List CooldownSnapshot → SharedEngineState → SharedEngineState
  publish_all [] s = s
  publish_all (snap ∷ snaps) s = publish_all snaps (update snap s)

  unfoldable pub publish : ℕ → Option Tracker → SharedEngineState → SharedEngineState
  publish now none s = s
  publish now (some c) s = publish_all (snapshot now c) s

  abbrev pub record_run : ℕ → List ScraperLog → Option Tracker → Option Tracker
  record_run now logs none = none
  record_run now logs (some c) = some (record_logs now c w.engine logs)

  -- A run that changed nothing but the pacer.
  abbrev pub nothing_ran : ℕ × Pacer → TaskOutcome → Worker State → Ran
  nothing_ran paced outcome k = record {
    outcome = outcome;
    pacer = paced.1;
    cooldown = k.cooldown;
    shared = k.shared;
    ended_at = paced.0;
  }

  -- The page opens, or the run ends with an exception.
  abbrev pub opened : Option String → Ran → (String → Ran) → Ran
  opened none ran raises = ran
  opened (some message) ran raises = raises message

  -- A run on the engine's page after the pace.
  abbrev pub page_run : ℕ × Pacer → TaskOutcome → Option Tracker → ℕ → Worker State → Ran
  page_run paced outcome cooldown ended_at k = record {
    outcome = outcome;
    pacer = paced.1;
    cooldown = cooldown;
    shared = publish ended_at cooldown k.shared;
    ended_at = ended_at;
  }

  -- `_serve_oneoff` after its pace, for each vertical, and `scrape_topic` on the one engine.
  unfoldable pub run_task : ℕ × Pacer → Task Job → Worker State → Ran
  run_task paced (news topic when pages) k =
      let s =
        scrape_topic w.handling w.stamp_news w.visit_news w.crawl (w.engine ∷ []) topic all_engines
          0 pages paced.0 k.cooldown in
      page_run paced (scraped s.entries s.logs) s.tracker s.ended_at k
  run_task paced (web job pages) k =
      let s =
        scrape_pages w.handling w.stamp_web w.visit_web w.crawl w.engine (b.query job) web_vertical
          pages paced.0 in
      page_run paced (searched s.0 s.1) (record_run s.2 s.1 k.cooldown) s.2 k
  run_task paced (keepalive text pages) k =
      let s =
        scrape_pages w.handling w.stamp_news w.visit_news w.crawl w.engine text news_vertical pages
          paced.0 in
      page_run paced (scraped s.0 s.1) (record_run s.2 s.1 k.cooldown) s.2 k

  -- What a stopped worker returns for a task: `[], []`.
  abbrev pub empty_outcome : Task Job → TaskOutcome
  empty_outcome (web job pages) = searched [] []
  empty_outcome _ = scraped [] []

  -- `_execute_task`. The gate of `scrape_topic` lets a page be opened, since the worker's own gate
  -- did and its window only runs out.
  unfoldable pub execute_task : ℕ → Task Job → Worker State → Ran
  execute_task now task k =
      let paced = pace now k.pacer in
      if w.is_stopping paced.0
      then nothing_ran paced (empty_outcome task) k
      else opened (w.refused_page paced.0) (run_task paced task k)
          (λ message. nothing_ran paced (raised message) k)

  -- `deliver_success` or `deliver_failure` on the web queue, if there is one.
  unfoldable pub deliver : ℕ → Task Job → TaskOutcome → Option State → Option State
  deliver now task outcome none = none
  deliver now task (scraped entries logs) (some s) = some (deliver_success b now task [] logs s)
  deliver now task (searched results logs) (some s) =
      some (deliver_success b now task results logs s)
  deliver now task (raised message) (some s) = some (deliver_failure b now task message s)

  -- What the window keeps of a tracked task.
  unfoldable pub windowed : Bool → TaskOutcome → CycleWindow → CycleWindow
  windowed false outcome window = window
  windowed true (scraped entries logs) window = add_scrape entries logs window
  windowed true (searched results logs) window = add_scrape [] logs window
  windowed true (raised message) window = record window {
    success = false;
    error_text = some message;
  }

  -- The end of a turn that ran a task: `deliver_*`, the window and `on_completed`.
  unfoldable pub finish : Task Job → Ran → Queue State → Worker State → Worker State
  finish task ran q k = record k {
    queue =
        on_completed b w.uniform w.draw ran.ended_at task
          (record q { web_state = deliver ran.ended_at task ran.outcome q.web_state });
    pacer = ran.pacer;
    cooldown = ran.cooldown;
    shared = ran.shared;
    window = windowed (tracked task) ran.outcome k.window;
  }

  abbrev pub reconciled : ℕ → Option (List String) → Queue State → Queue State
  reconciled now none q = q
  reconciled now (some topics) q = reconcile b w.uniform now topics q

  abbrev pub added : Option Cycle → List Cycle → List Cycle
  added none cycles = cycles
  added (some c) cycles = cycles ++ c ∷ []

  -- The housekeeping tick.
  unfoldable pub tick : ℕ → Worker State → Worker State
  tick now k =
      if leb k.next_tick now
      then (let q = reconciled now (w.active_topics now) k.queue in
          record k {
            queue = q;
            cycles =
                added (flush_window k.window (w.writes k.window.entries k.window.logs)) k.cycles;
            shared = update_health w.engine (health b now q) k.shared;
            window = new_window;
            next_tick = now + w.interval;
          })
      else k

  abbrev pub gate : ℕ → Option Tracker → Decision
  gate now none = run
  gate now (some c) = decide now c w.engine

  abbrev pub bench_left : ℕ → Option Tracker → ℕ
  bench_left now none = 0
  bench_left now (some c) = remaining now c w.engine

  -- The turn of a benched engine, with the length of its sleep.
  unfoldable pub benched_turn : ℕ → Worker State → Worker State × ℕ
  benched_turn now k =
      let q = (reject_pending_oneoffs b now max_cooling_drain k.queue).1 in
      let wait = min (bench_left now k.cooldown) (k.next_tick - now) in
      (record k { queue = q }, if is_some q.web_state then min wait web_poll_interval else wait)

  abbrev pub sleep_length : Option ℕ → ℕ → ℕ
  sleep_length none left = left
  sleep_length (some n) left = min left n

  -- The turn with the answer of `pop_ready`.
  unfoldable pub task_turn :
      ℕ → (Option (Task Job) × Option ℕ) × Queue State → Worker State → Worker State × ℕ
  task_turn now ((none, idle), q) k =
      (record k { queue = q }, sleep_length idle (k.next_tick - now))
  task_turn now ((some task, idle), q) k =
      let ran = execute_task now task (record k { queue = q }) in (finish task ran q k, 0)

  unfoldable pub gated_turn : ℕ → Decision → Worker State → Worker State × ℕ
  gated_turn now skip k = benched_turn now k
  gated_turn now run k = task_turn now (pop_ready b now k.queue) k
  gated_turn now probe k = task_turn now (pop_ready b now k.queue) k

  -- A turn of the `while` loop that starts at `now`: the state after it and how long it sleeps then.
  unfoldable pub worker_turn : ℕ → Worker State → Worker State × ℕ
  worker_turn now k = let ticked = tick now k in gated_turn now (gate now ticked.cooldown) ticked
