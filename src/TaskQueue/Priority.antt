-- ===== src/TaskQueue/Priority.antt =====
-- The order of `pop_ready` in scraper/tasks.py: a claimed web search, then a due news topic, then a
-- keep-alive.
use topicstreams.Schedule.{Schedule, Due, due, wait, idle, next_due}
use topicstreams.Heartbeat
use topicstreams.Heartbeat.{Heartbeat, next_query}
use topicstreams.WebQueue.{Backend}
use topicstreams.TaskQueue.{
  or_else, keepalive_fire, keepalive_task, news_found, web_task, web_claim, or_else, keepalive_fire,
  Task, news, web, keepalive, Queue, news_poll, web_poll, keepalive_poll, pop_keepalive, pop_news,
  pop_ready,
}
use topicstreams.Base.{
  ℕ, String, ◌≡◌, refl, sym, ap, ◌∙◌, ◌≢◌, Bool, true, false, not, Option, none, some, arith,
  if◌then◌else◌,
}

-- The heartbeat has no query to send: there is none, or it is not due.
abbrev pub quiet : ℕ → Option Heartbeat → Bool
quiet now none = true
quiet now (some h) = not (Heartbeat.due now h)

-- The query that the heartbeat sends now: the next of its rotation, if it is due.
abbrev pub beat : ℕ → Option Heartbeat → Option String
beat now none = none
beat now (some h) = if Heartbeat.due now h then (next_query h).0 else none

-- No topic is due.
abbrev pub NothingDue : ℕ → Schedule → Type 0
NothingDue now s = (t : String) → (next_due now s).0 ≢ due t

module _ (b : Backend) where
  open b use {State, Job, poll}

  -- The web source has a task to give, or none.
  abbrev pub offer : ℕ → Option State → Option Job
  offer now none = none
  offer now (some s) = (poll now s).0

  abbrev pub Chosen : ℕ → Queue State → Option (Task Job) → Type 0
  Chosen now q (some (web job pages)) = (offer now q.web_state ≡ some job) × (pages ≡ q.web_pages)
  Chosen now q (some (news topic when pages)) =
      (offer now q.web_state ≡ none)
      × ((next_due now q.schedule).0 ≡ due topic)
      × (pages ≡ q.news_pages)
  Chosen now q (some (keepalive text pages)) =
      (offer now q.web_state ≡ none)
      × NothingDue now q.schedule
      × (quiet now q.heartbeat ≡ false)
      × (beat now q.heartbeat ≡ some text)
      × (pages ≡ some 1)
  Chosen now q none =
      (offer now q.web_state ≡ none) × NothingDue now q.schedule × (beat now q.heartbeat ≡ none)

  or_else_ind {ℓ} :
      (P : Option (Task Job) → Type ℓ) (m : Option (Task Job)) (q : Queue State)
      (later : (Option (Task Job) × Option ℕ) × Queue State)
      → ((t : Task Job) → m ≡ some t → P (some t))
      → (m ≡ none → P later.0.0)
      → P (or_else b m q later).0.0
  unfolding or_else
  or_else_ind P none q later found nothing = nothing refl
  or_else_ind P (some t) q later found nothing = found t refl

  fired :
      (now : ℕ) (h : Option Heartbeat) (t : Task Job)
      → (keepalive_fire b now h).0 ≡ some t
      → (text : String) × (t ≡ keepalive text (some 1))
        × (quiet now h ≡ false)
        × (beat now h ≡ some text)
  unfolding keepalive_fire keepalive_task
  fired now none t e = absurd (cc)
  fired now (some h) t e = ground arith

  unfired : (now : ℕ) (h : Option Heartbeat) → (keepalive_fire b now h).0 ≡ none → beat now h ≡ none
  unfolding keepalive_fire keepalive_task
  unfired now none e = refl
  unfired now (some h) e = ground (arith, e)

  pop_keepalive-Chosen :
      (now : ℕ) (news_wait : Option ℕ) (q q' : Queue State)
      → offer now q.web_state ≡ none
      → NothingDue now q.schedule
      → q'.heartbeat ≡ q.heartbeat
      → Chosen now q (pop_keepalive b now news_wait q').0.0
  unfolding pop_keepalive keepalive_poll
  pop_keepalive-Chosen now news_wait q q' none_web none_due e =
      or_else_ind (Chosen now q) (keepalive_fire b now q'.heartbeat).0 _ _
        (λ t found.
          let (text, shape, noisy, sent) = fired now q'.heartbeat t found in
          rw shape (
            none_web,
            none_due,
            ap (quiet now) (sym e) ∙ noisy,
            ap (beat now) (sym e) ∙ sent,
            refl,
          ))
        (λ nothing. (none_web, none_due, ap (beat now) (sym e) ∙ unfired now q'.heartbeat nothing))

  due_task :
      (pages : Option ℕ) (d : Due) (t : Task Job)
      → (news_found b pages d).0 ≡ some t
      → (topic : String) × (t ≡ news topic 0 pages) × (d ≡ due topic)
  unfolding news_found
  due_task pages (due topic) t e = (topic, ground (arith, e), refl)
  due_task pages (wait n) t e = absurd (cc)
  due_task pages idle t e = absurd (cc)

  pub no_due :
      (pages : Option ℕ) (d : Due) → (news_found b pages d).0 ≡ none → (t : String) → d ≢ due t
  unfolding news_found
  no_due pages (due topic) e t = λ _. cc (e)
  no_due pages (wait n) e t = cc
  no_due pages idle e t = cc

  pop_news-Chosen :
      (now : ℕ) (q q' : Queue State)
      → offer now q.web_state ≡ none
      → q'.schedule ≡ q.schedule
      → q'.heartbeat ≡ q.heartbeat
      → q'.news_pages ≡ q.news_pages
      → Chosen now q (pop_news b now q').0.0
  unfolding pop_news news_poll
  pop_news-Chosen now q q' none_web e f g =
      let same : (next_due now q'.schedule).0 ≡ (next_due now q.schedule).0 =
        ap (λ s. (next_due now s).0) e in
      or_else_ind (Chosen now q) (news_found b q'.news_pages (next_due now q'.schedule).0).0 _ _
        (λ t found.
          let (topic, shape, at) = due_task q'.news_pages _ t found in
          rw shape (none_web, sym same ∙ at, g))
        (λ nothing.
          pop_keepalive-Chosen now _ q _ none_web
            (λ t at. no_due q'.news_pages _ nothing t (same ∙ at)) f)

  web_shape :
      (pages : Option ℕ) (o : Option Job) (t : Task Job)
      → web_task b pages o ≡ some t
      → (job : Job) × (t ≡ web job pages) × (o ≡ some job)
  unfolding web_task
  web_shape pages none t e = absurd (cc)
  web_shape pages (some job) t e = (job, ground (arith, e), refl)

  no_web : (pages : Option ℕ) (o : Option Job) → web_task b pages o ≡ none → o ≡ none
  unfolding web_task
  no_web pages none e = refl
  no_web pages (some job) e = absurd (cc)

  offer-claim : (now : ℕ) (w : Option State) → (web_claim b now w).0 ≡ offer now w
  unfolding web_claim
  offer-claim now none = refl
  offer-claim now (some s) = refl

  -- `pop_ready` gives a web search if the web queue has one; else the due topic, if one is due; else a
  -- keep-alive of one page with the next query of the heartbeat, if it is due; and no task only if the
  -- web queue has none, no topic is due, and the heartbeat is not due or has no query.
  pub pop_ready-Chosen : (now : ℕ) (q : Queue State) → Chosen now q (pop_ready b now q).0.0
  unfolding pop_ready web_poll
  pop_ready-Chosen now q =
      or_else_ind (Chosen now q) (web_task b q.web_pages (web_claim b now q.web_state).0) _ _
        (λ t found.
          let (job, shape, at) = web_shape q.web_pages _ t found in
          rw shape (sym (offer-claim now q.web_state) ∙ at, refl))
        (λ nothing.
          pop_news-Chosen now q _ (sym (offer-claim now q.web_state) ∙ no_web q.web_pages _ nothing)
            refl refl refl)
