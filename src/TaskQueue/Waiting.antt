-- ===== src/TaskQueue/Waiting.antt =====
-- The idle wait of `pop_ready` in scraper/tasks.py sleeps through no scheduled work.
use topicstreams.Schedule.{Entry, Schedule, Due, due, wait, idle, due_loop, next_due}
use topicstreams.Schedule.Heap.{has}
use topicstreams.Schedule.Invariant.{IsValid}
use topicstreams.Schedule.NextDue.{Answers, NoneBefore, next_due-Answers}
use topicstreams.Heartbeat
use topicstreams.Heartbeat.{Heartbeat, next_query}
use topicstreams.WebQueue.{Backend}
use topicstreams.TaskQueue.{
  Task, Queue, min_wait, news_found, news_poll, web_claim, web_poll, keepalive_fire, keepalive_poll,
  keepalive_wait, idle_wait, or_else, pop_keepalive, pop_news, pop_ready,
}
use topicstreams.TaskQueue.Priority.{quiet, NothingDue, no_due}
use topicstreams.Base.{
  ℕ, ◌+◌, ◌-◌, ◌≤◌, ◌<◌, String, ◌≡◌, refl, sym, ap, ◌∙◌, ◌≢◌, inl, inr, Bool, true, false, Option,
  none, some, List, [], ◌∷◌, arith, eq_iff, ltb, Bool-cases, All, member, discard,
}

-- The wait ends before the time, or there is none to end it.
abbrev pub ends_after : ℕ → Option ℕ → Bool
ends_after d none = true
ends_after d (some w) = ltb d w

live_entry :
    (active : List String) (w later : ℕ) (t : String) (v : ℕ) (h : List Entry)
    → NoneBefore active w h
    → member t active ≡ true
    → has v t h ≡ true
    → w ≤ v
live_entry active w later t v [] n live here = absurd (cc)
live_entry active w later t v (e ∷ h) n live here = elim (Bool-cases (has v t h)) [
  | inl further ↦ live_entry active w later t v h n.1 live further
  | inr first ↦
      let same : e.topic ≡ t = ground (arith, eq_iff e.topic t, here) in
      let at : e.when ≡ v = ground (arith, here) in
      let le : w ≤ e.when = n.0 (ap (λ x. member x active) same ∙ live) in omega arith
]

no_live :
    (active : List String) (t : String) (v : ℕ) (h : List Entry)
    → All (λ e. member e.topic active ≡ false) h
    → member t active ≡ true
    → has v t h ≡ false
no_live active t v [] a live = refl
no_live active t v (e ∷ h) a live = ground (
  arith,
  no_live active t v h a.1 live,
  eq_iff e.topic t,
  ap (λ x. member x active) {x = e.topic} {y = t},
  a.0,
)

-- What `next_due` says to wait is too short for no topic.
sleeps :
    (active : List String) (now later : ℕ) (h : List Entry) (d e : Due) (t : String)
    → Answers active now h d
    → Answers active later h e
    → ((x : String) → d ≢ due x)
    → ((n : ℕ) → d ≡ wait n → later < now + n)
    → e ≢ due t
sleeps active now later h (due x) e t a b none_due short at = none_due x refl
sleeps active now later h (wait n) (due x) t (y, f, pos) (v, g, le) none_due short at =
    let le' = live_entry active (now + n) later x v h f.least g.live g.there in
    let lt = short n refl in absurd (omega arith)
sleeps active now later h idle (due x) t a (v, g, le) none_due short at =
    cc (no_live active x v h a g.live, g.there)
sleeps active now later h d (wait n) t a b none_due short at = cc
sleeps active now later h d idle t a b none_due short at = cc

-- What a poll dropped changes no later poll.
scheduled_free :
    (active : List String) (now : ℕ) (h : List Entry) (s s' : List String)
    → (due_loop active now h s).0 ≡ (due_loop active now h s').0
unfolding due_loop
scheduled_free active now [] s s' = refl
scheduled_free active now (e ∷ h) s s' =
    ground (arith, scheduled_free active now h (discard e.topic s) (discard e.topic s'))

later_poll :
    (active : List String) (now later : ℕ) (h : List Entry) (s s' : List String)
    → ((t : String) → (due_loop active now h s).0 ≢ due t)
    → (due_loop active later (due_loop active now h s).1 s').0 ≡ (due_loop active later h s').0
unfolding due_loop
later_poll active now later [] s s' none_due = refl
later_poll active now later (e ∷ h) s s' none_due = elim (Bool-cases (member e.topic active)) [
  | inr gone ↦ rw gone (
      later_poll active now later h (discard e.topic s) s' (λ t at. none_due t (rw gone at))
      ∙ scheduled_free active later h s' (discard e.topic s'))
  | inl live ↦ elim (Bool-cases (ltb now e.when)) [
    | inl early ↦ rw (live, early) (rw live)
    | inr late ↦ absurd (none_due e.topic (rw (live, late)))
  ]
]

-- A wait that the schedule answers is slept through by no due topic.
schedule_sleeps :
    (now later : ℕ) (s : Schedule)
    → IsValid s
    → NothingDue now s
    → ((n : ℕ) → (next_due now s).0 ≡ wait n → later < now + n)
    → NothingDue later (next_due now s).1
unfolding next_due
schedule_sleeps now later s v none_due short t at =
    sleeps s.active now later s.heap _ _ t (next_due-Answers now s v) (next_due-Answers later s v)
      none_due short
      (scheduled_free s.active later s.heap s.scheduled _
        ∙ sym (later_poll s.active now later s.heap s.scheduled _ none_due)
        ∙ at)

ends_after_min :
    (d : ℕ) (a c : Option ℕ)
    → ends_after d (min_wait a c) ≡ true
    → (ends_after d a ≡ true) × (ends_after d c ≡ true)
ends_after_min d none c h = (refl, h)
ends_after_min d (some a) none h = (h, refl)
ends_after_min d (some a) (some c) h = ground arith

module _ (b : Backend) where
  open b use {State, Job}

  -- A queue that answered that nothing is ready has nothing scheduled before the wait is over.
  abbrev pub Rests : ℕ → ℕ → (Option (Task Job) × Option ℕ) × Queue State → Type 0
  Rests now later r =
      r.0.0 ≡ none
      → ends_after (later - now) r.0.1 ≡ true
      → NothingDue later r.1.schedule × (quiet later r.1.heartbeat ≡ true)

  or_else-Rests :
      (now later : ℕ) (m : Option (Task Job)) (q : Queue State)
      (rest : (Option (Task Job) × Option ℕ) × Queue State)
      → (m ≡ none → Rests now later rest)
      → Rests now later (or_else b m q rest)
  unfolding or_else
  or_else-Rests now later none q rest h = h refl
  or_else-Rests now later (some t) q rest h = λ e. absurd (cc e)

  heartbeat_rests :
      (now later : ℕ) (h : Option Heartbeat)
      → now ≤ later
      → ends_after (later - now) (keepalive_wait b now (keepalive_fire b now h).1) ≡ true
      → (keepalive_fire b now h).0 ≡ none
      → quiet later (keepalive_fire b now h).1 ≡ true
  unfolding keepalive_fire keepalive_wait Heartbeat.due Heartbeat.seconds_until_due next_query
  heartbeat_rests now later none le ends e = refl
  heartbeat_rests now later (some h) le ends e = ground arith

  news_wait :
      (now later : ℕ) (pages : Option ℕ) (d : Due)
      → now ≤ later
      → ends_after (later - now) (news_found b pages d).1 ≡ true
      → (n : ℕ) → d ≡ wait n
      → later < now + n
  unfolding news_found
  news_wait now later pages (due t) le ends n e = absurd (cc)
  news_wait now later pages (wait m) le ends n e = ground arith
  news_wait now later pages idle le ends n e = absurd (cc)

  pop_news-Rests :
      (now later : ℕ) (q : Queue State)
      → now ≤ later
      → IsValid q.schedule
      → Rests now later (pop_news b now q)
  unfolding pop_news pop_keepalive news_poll keepalive_poll idle_wait
  pop_news-Rests now later q le v = or_else-Rests now later _ _ _ λ no_news.
      or_else-Rests now later _ _ _ λ no_warmup _ ends.
        let (news_ends, others) = ends_after_min (later - now) _ _ ends in
        let (heart_ends, _) = ends_after_min (later - now) _ _ others in
        (
          schedule_sleeps now later q.schedule v (no_due b q.news_pages _ no_news)
              (news_wait now later q.news_pages _ le news_ends),
          heartbeat_rests now later q.heartbeat le heart_ends no_warmup,
        )

  -- When `pop_ready` has no task and says how long to wait, no topic comes due and no heartbeat
  -- fires before that wait is over; with no wait, never until the queue is changed.
  pub pop_ready-Rests :
      (now later : ℕ) (q : Queue State)
      → now ≤ later
      → IsValid q.schedule
      → Rests now later (pop_ready b now q)
  unfolding pop_ready web_poll
  pop_ready-Rests now later q le v = or_else-Rests now later _ _ _ λ no_web.
      pop_news-Rests now later (record q { web_state = (web_claim b now q.web_state).1 }) le v
