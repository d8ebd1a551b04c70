-- ===== src/Worker/Shutdown.antt =====
-- A web search that a worker of scraper/worker.py claims while it is told to stop.
use topicstreams.Jobs.{Table, complete, empty}
use topicstreams.WebQueue.{DbWebSearchJob, cross_process, classify_outcome, db_complete, db_resolve}
use topicstreams.TaskQueue.{web, Queue, deliver_success, rearm, warmed, on_completed}
use topicstreams.Worker.{World, Worker, pace, execute_task, deliver, finish}
use topicstreams.Base.{ℕ, String, ◌≡◌, Bool, true, Option, none, some, [], arith}

-- The database takes every statement.
abbrev pub up : ℕ → Bool
up now = true

module _ (w : World) (engine : String) (max_age : Option ℕ) where
  warmed_web :
      (draw : ℕ → ℕ) (now : ℕ) (q : Queue Table)
      → (warmed (cross_process up engine max_age) draw now q).web_state ≡ q.web_state
  unfolding warmed
  warmed_web draw now q = ground arith

  -- If the worker is stopped while it paces a web search that it has claimed, the search is answered
  -- with the outcome `empty`, although no page was visited.
  pub stopped_search :
      (now : ℕ) (job : DbWebSearchJob) (pages : Option ℕ) (t : Table) (q : Queue Table)
      (k : Worker Table)
      → w.is_stopping (pace (cross_process up engine max_age) w now k.pacer).0 ≡ true
      → q.web_state ≡ some t
      → let b = cross_process up engine max_age in
        (finish b w (web job pages) (execute_task b w now (web job pages) k) q k).queue.web_state
        ≡ some (complete (pace b w now k.pacer).0 job.ident empty (some []) none t)
  unfolding execute_task finish on_completed rearm deliver deliver_success db_resolve db_complete
      classify_outcome
  stopped_search now job pages t q k stopping attached =
      rw (stopping, attached) (warmed_web w.draw _ _)
