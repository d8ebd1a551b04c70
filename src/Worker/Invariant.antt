-- ===== src/Worker/Invariant.antt =====
-- The topic schedule over the turns of the loop of scraper/worker.py.
use topicstreams.WebQueue.{Backend}
use topicstreams.Schedule.{Schedule, Due, due, wait, idle, next_due, init}
use topicstreams.Schedule.Invariant.{
  IsValid, reconcile-IsValid, next_due-IsValid, next_due_pops, AllNew, init-IsValid, seed-IsValid,
}
use topicstreams.Schedule.Cadence.{reschedule-IsValid}
use topicstreams.Heartbeat
use topicstreams.Heartbeat.{Heartbeat}
use topicstreams.Cooldown.{Decision, run, probe, skip}
use topicstreams.TaskQueue.{
  Task, news, web, keepalive, Queue, news_found, news_poll, web_task, web_poll, keepalive_task,
  keepalive_fire, keepalive_poll, or_else, pop_keepalive, pop_news, pop_ready, rearm, warmed,
  on_completed, reject_pending_oneoffs, reconcile, seed,
}
use topicstreams.Worker.{
  World, Worker, finish, tick, gated_turn, benched_turn, task_turn, worker_turn, reconciled,
}
use topicstreams.Worker.Pace.{Turns, start, turn}
use topicstreams.Schedule
use topicstreams.Base.{
  ℕ, String, ◌≡◌, refl, sym, subst, inl, inr, false, Option, none, some, List, [], arith, leb,
  Bool-cases, member,
}

module _ (b : Backend) (w : World) where
  open b use {State, Job}

  -- A topic that was handed out is not scheduled.
  abbrev Fresh : Option (Task Job) → Schedule → Type 0
  Fresh (some (news topic when pages)) s = member topic s.scheduled ≡ false
  Fresh _ s = Unit

  abbrev Popped : (Option (Task Job) × Option ℕ) × Queue State → Type 0
  Popped r = IsValid r.1.schedule × Fresh r.0.0 r.1.schedule

  web-Fresh : (pages : Option ℕ) (o : Option Job) (s : Schedule) → Fresh (web_task b pages o) s
  unfolding web_task
  web-Fresh pages none s = tt
  web-Fresh pages (some job) s = tt

  keepalive-Fresh : (o : Option String) (s : Schedule) → Fresh (keepalive_task b o) s
  unfolding keepalive_task
  keepalive-Fresh none s = tt
  keepalive-Fresh (some text) s = tt

  fire-Fresh : (now : ℕ) (h : Option Heartbeat) (s : Schedule) → Fresh (keepalive_fire b now h).0 s
  unfolding keepalive_fire
  fire-Fresh now none s = tt
  fire-Fresh now (some h) s = elim (Bool-cases (Heartbeat.due now h)) [
    | inl e ↦ rw e (keepalive-Fresh _ s)
    | inr e ↦ rw e tt
  ]

  news-Fresh :
      (pages : Option ℕ) (d : Due) (s : Schedule)
      → ((t : String) → d ≡ due t → member t s.scheduled ≡ false)
      → Fresh (news_found b pages d).0 s
  unfolding news_found
  news-Fresh pages (due t) s h = h t refl
  news-Fresh pages (wait n) s h = tt
  news-Fresh pages idle s h = tt

  or_else-Popped :
      (m : Option (Task Job)) (q : Queue State)
      (later : (Option (Task Job) × Option ℕ) × Queue State)
      → IsValid q.schedule
      → Fresh m q.schedule
      → Popped later
      → Popped (or_else b m q later)
  unfolding or_else
  or_else-Popped none q later v f p = p
  or_else-Popped (some t) q later v f p = (v, f)

  pop_keepalive-Popped :
      (now : ℕ) (news_wait : Option ℕ) (q : Queue State)
      → IsValid q.schedule
      → Popped (pop_keepalive b now news_wait q)
  unfolding pop_keepalive keepalive_poll
  pop_keepalive-Popped now news_wait q v =
      or_else-Popped _ _ _ v (fire-Fresh now q.heartbeat q.schedule) (v, tt)

  pop_news-Popped : (now : ℕ) (q : Queue State) → IsValid q.schedule → Popped (pop_news b now q)
  unfolding pop_news news_poll
  pop_news-Popped now q v =
      let popped = next_due-IsValid now q.schedule v in
      or_else-Popped _ _ _ popped
        (news-Fresh q.news_pages (next_due now q.schedule).0 (next_due now q.schedule).1
          (next_due_pops now q.schedule))
        (pop_keepalive-Popped now _ (record q { schedule = (next_due now q.schedule).1 }) popped)

  pop_ready-Popped : (now : ℕ) (q : Queue State) → IsValid q.schedule → Popped (pop_ready b now q)
  unfolding pop_ready web_poll
  pop_ready-Popped now q v =
      or_else-Popped _ _ _ v (web-Fresh q.web_pages _ q.schedule)
        (pop_news-Popped now (record q { web_state = _ }) v)

  warmed_schedule :
      (draw : ℕ → ℕ) (now : ℕ) (q : Queue State) → (warmed b draw now q).schedule ≡ q.schedule
  unfolding warmed
  warmed_schedule draw now q = ground arith

  completed-IsValid :
      (now : ℕ) (t : Task Job) (q : Queue State)
      → IsValid q.schedule
      → Fresh (some t) q.schedule
      → IsValid (on_completed b w.uniform w.draw now t q).schedule
  unfolding on_completed rearm
  completed-IsValid now (news topic when pages) q v f =
      subst IsValid (sym (warmed_schedule w.draw now _))
        (reschedule-IsValid w.uniform now topic q.schedule v f)
  completed-IsValid now (web job pages) q v f = subst IsValid (sym (warmed_schedule w.draw now q)) v
  completed-IsValid now (keepalive text pages) q v f =
      subst IsValid (sym (warmed_schedule w.draw now q)) v

  task_turn-IsValid :
      (now : ℕ) (r : (Option (Task Job) × Option ℕ) × Queue State) (k : Worker State)
      → Popped r
      → IsValid (task_turn b w now r k).0.queue.schedule
  unfolding task_turn finish
  task_turn-IsValid now ((none, rest), q) k p = p.0
  task_turn-IsValid now ((some t, rest), q) k p = completed-IsValid _ t _ p.0 p.1

  reject_schedule :
      (now limit : ℕ) (q : Queue State)
      → (reject_pending_oneoffs b now limit q).1.schedule ≡ q.schedule
  unfolding reject_pending_oneoffs
  reject_schedule now limit q = ground arith

  gated-IsValid :
      (now : ℕ) (d : Decision) (k : Worker State)
      → IsValid k.queue.schedule
      → IsValid (gated_turn b w now d k).0.queue.schedule
  unfolding gated_turn benched_turn
  gated-IsValid now skip k v = subst IsValid (sym (reject_schedule now _ k.queue)) v
  gated-IsValid now run k v = task_turn-IsValid now _ k (pop_ready-Popped now k.queue v)
  gated-IsValid now probe k v = task_turn-IsValid now _ k (pop_ready-Popped now k.queue v)

  reconciled-IsValid :
      (now : ℕ) (topics : Option (List String)) (q : Queue State)
      → IsValid q.schedule
      → IsValid (reconciled b w now topics q).schedule
  unfolding reconcile
  reconciled-IsValid now none q v = v
  reconciled-IsValid now (some topics) q v = reconcile-IsValid w.uniform now topics q.schedule v

  tick-IsValid :
      (now : ℕ) (k : Worker State)
      → IsValid k.queue.schedule
      → IsValid (tick b w now k).queue.schedule
  unfolding tick
  tick-IsValid now k v = elim (Bool-cases (leb k.next_tick now)) [
    | inl e ↦ rw e (reconciled-IsValid now (w.active_topics now) k.queue v)
    | inr e ↦ rw e v
  ]

  turns-IsValid :
      (k m : Worker State) → IsValid k.queue.schedule → Turns b w k m → IsValid m.queue.schedule
  unfolding worker_turn
  turns-IsValid k m v start = v
  turns-IsValid k m v (turn {m = n} ts now) =
      gated-IsValid now _ (tick b w now n) (tick-IsValid now n (turns-IsValid k n v ts))

  -- From a boot with distinct topics, whatever comes of the tasks, of the reads of the database and
  -- of the cooldown, the loop keeps its schedule valid: the heap in order, with one entry of each
  -- scheduled topic and none of another.
  pub loop-IsValid :
      (interval jitter now : ℕ) (topics : List String) (q : Queue State) (k m : Worker State)
      → AllNew [] topics
      → q.schedule ≡ init interval jitter
      → k.queue ≡ seed b w.uniform now topics q
      → Turns b w k m
      → IsValid m.queue.schedule
  unfolding seed init
  loop-IsValid interval jitter now topics q k m distinct empty_start boot = turns-IsValid k m (
      subst (λ r. IsValid r.schedule) (sym boot)
        (subst (λ s. IsValid (Schedule.seed w.uniform now topics s)) (sym empty_start)
          (seed-IsValid w.uniform now topics (init interval jitter) distinct
            (init-IsValid interval jitter))))
