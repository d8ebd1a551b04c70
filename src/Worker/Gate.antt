-- ===== src/Worker/Gate.antt =====
-- The cooldown gate of scraper/worker.py: a turn of a benched engine.
use topicstreams.WebQueue.{Backend}
use topicstreams.Cooldown.{skip}
use topicstreams.TaskQueue.{
  Queue, web_poll_interval, reject_step, reject_loop, reject_pending_oneoffs,
}
use topicstreams.Worker.{
  World, Worker, tick, gate, gated_turn, benched_turn, bench_left, is_some, worker_turn,
}
use topicstreams.Base.{ℕ, zero, suc, ◌+◌, ◌≤◌, max, ◌≡◌, refl, Option, none, some, true, arith}

module _ (b : Backend) (w : World) where
  open b use {State, Job, poll, cooling}

  -- A number of turns of answering: each claims the next search of the web queue and answers it with
  -- `cooling`, until there is none or the number is used up.
  pub data Rejects (now : ℕ) : ℕ → State → State → Type 0 where
    full : (s : State) → Rejects now 0 s s
    drained : (n : ℕ) (s : State) → (poll now s).0 ≡ none → Rejects now (suc n) s (poll now s).1
    rejected :
        (n : ℕ) (s u : State) (job : Job)
        → (poll now s).0 ≡ some job
        → Rejects now n (cooling now job (poll now s).1) u
        → Rejects now (suc n) s u

  -- The web queue, if there is one, after the answers.
  abbrev pub Rejected : ℕ → ℕ → Option State → Option State → Type 0
  Rejected now limit none u = u ≡ none
  Rejected now limit (some s) u = (after : State) × (u ≡ some after) × Rejects now limit s after

  -- What is claimed of a turn of a benched engine, from the state after the tick: up to fifty queued
  -- searches are answered with `cooling`, and no other search is claimed; no request is made or
  -- recorded, no topic is taken, no heartbeat fires, nothing is published, and the sleep is over by the
  -- end of the bench, by the next tick, and within the poll interval if there is a web queue.
  pub record Benched (now : ℕ) (k : Worker State) (r : Worker State × ℕ) : Type 0 where
    pub searches : Rejected now 50 k.queue.web_state r.0.queue.web_state
    pub unpaced : r.0.pacer ≡ k.pacer
    pub unrecorded : r.0.cooldown ≡ k.cooldown
    pub unscheduled : r.0.queue.schedule ≡ k.queue.schedule
    pub unfired : r.0.queue.heartbeat ≡ k.queue.heartbeat
    pub unpublished : r.0.shared ≡ k.shared
    pub unwindowed :
        (r.0.window ≡ k.window) × (r.0.cycles ≡ k.cycles) × (r.0.next_tick ≡ k.next_tick)
    pub bounded : r.1 ≤ bench_left b w now k.cooldown
    pub ticking : now + r.1 ≤ max now k.next_tick
    pub polling : is_some k.queue.web_state ≡ true → r.1 ≤ web_poll_interval

  reject_step-Rejects :
      (now n : ℕ) (s : State) (o : Option Job) (rest : Job → ℕ × State)
      → (poll now s).0 ≡ o
      → ((job : Job) → Rejects now n (cooling now job (poll now s).1) (rest job).1)
      → Rejects now (suc n) s (reject_step b o (poll now s).1 rest).1
  unfolding reject_step
  reject_step-Rejects now n s none rest e each = drained n s e
  reject_step-Rejects now n s (some job) rest e each = rejected n s (rest job).1 job e (each job)

  reject_loop-Rejects :
      (now limit : ℕ) (s : State) → Rejects now limit s (reject_loop b now limit s).1
  unfolding reject_loop
  reject_loop-Rejects now zero s = full s
  reject_loop-Rejects now (suc n) s =
      reject_step-Rejects now n s (poll now s).0
        (λ job. reject_loop b now n (cooling now job (poll now s).1)) refl
        (λ job. reject_loop-Rejects now n (cooling now job (poll now s).1))

  reject-Rejected :
      (now limit : ℕ) (q : Queue State) (o : Option State)
      → q.web_state ≡ o
      → Rejected now limit o (reject_pending_oneoffs b now limit q).1.web_state
  unfolding reject_pending_oneoffs
  reject-Rejected now limit q none e = rw e refl
  reject-Rejected now limit q (some s) e =
      rw e ((reject_loop b now limit s).1, refl, reject_loop-Rejects now limit s)

  reject_heartbeat :
      (now limit : ℕ) (q : Queue State)
      → (reject_pending_oneoffs b now limit q).1.heartbeat ≡ q.heartbeat
  unfolding reject_pending_oneoffs
  reject_heartbeat now limit q = ground arith

  reject_schedule :
      (now limit : ℕ) (q : Queue State)
      → (reject_pending_oneoffs b now limit q).1.schedule ≡ q.schedule
  unfolding reject_pending_oneoffs
  reject_schedule now limit q = ground arith

  reject_attached :
      (now limit : ℕ) (q : Queue State)
      → is_some (reject_pending_oneoffs b now limit q).1.web_state ≡ is_some q.web_state
  unfolding reject_pending_oneoffs
  reject_attached now limit q = ground arith

  benched_turn-Benched : (now : ℕ) (k : Worker State) → Benched now k (benched_turn b w now k)
  unfolding benched_turn
  benched_turn-Benched now k = record {
    searches = reject-Rejected now 50 k.queue k.queue.web_state refl;
    unpaced = refl;
    unrecorded = refl;
    unscheduled = reject_schedule now _ k.queue;
    unfired = reject_heartbeat now _ k.queue;
    unpublished = refl;
    unwindowed = (refl, refl, refl);
    bounded = ground arith;
    ticking = ground arith;
    polling = λ h. ground (arith, reject_attached now 50 k.queue);
  }

  -- While the gate says skip, a turn of the loop makes no request, runs no topic and no keep-alive, and
  -- publishes nothing after its tick; of the queued searches it claims up to fifty and answers each with
  -- `cooling`, and it sleeps no longer than the bench, the next tick and the poll of the web queue allow.
  pub worker_turn-Benched :
      (now : ℕ) (k : Worker State)
      → gate b w now (tick b w now k).cooldown ≡ skip
      → Benched now (tick b w now k) (worker_turn b w now k)
  unfolding worker_turn gated_turn
  worker_turn-Benched now k e = rw e (benched_turn-Benched now (tick b w now k))
