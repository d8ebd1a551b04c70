-- ===== src/WebQueue.antt =====
-- scraper/webqueue.py: how a served web search is classified and handed back. `WebSearchQueue` hands
-- it over in the process, by futures; `DbWebSearchQueue` through the table of jobs. Both give
-- what the worker uses, `Backend`. The threads' interleavings are those of the calls, since
-- `queue.Queue`, the futures and the statements are atomic.
pub mod Futures
pub mod Delivery
mod Tests
use topicstreams.Model.{WebResult, ScraperLog}
use topicstreams.Jobs.{JobOutcome, ok, empty, blocked, error, cooling, Table, claim, complete}
use topicstreams.Base.{
  ℕ, zero, suc, ◌+◌, ◌-◌, ◌*◌, ◌/◌, ◌%◌, ◌^◌, ◌≤◌, ◌<◌, min, max, String, ◌≡◌, refl, sym, ap, ap₂,
  subst, ◌∙◌, ◌≢◌, ◌↔◌, ◌⊎◌, inl, inr, Bool, true, false, not, ◌&&◌, ◌||◌, Option, none, some, List,
  [], ◌∷◌, ◌++◌, map, reverse, arith, eq_iff, ltb, leb, ◌==◌, str_eq, if◌then◌else◌, ltb→lt, lt→ltb,
  leb→le, le→leb, ==_iff, tests, Bool-cases, Option-cases, length, take, any, all, cons_if, filter,
  is_empty, All, length-append, length-take, length-filter-le, length-cons_if-le, any-append,
  filter-append, length-map, member, add, discard, str_eq_self, member-add, member-discard, get,
  put, keys, values, get-put, get-put_self, get-put_ne, get_elem?, get_elem?-middle,
  get_elem?_total, append_assoc, append-nil, stretch, stretch-ge, stretch_mono, All-filter, All-map,
  All-imp,
}

unfoldable pub classify_outcome : List WebResult → List ScraperLog → JobOutcome
classify_outcome results logs =
    if any (λ log. not log.success) logs then blocked else if is_empty results then empty else ok

-- What a task calls of its job, and the worker of its queue. The state is the queue's, the
-- futures' or the table's; `now` is the time of the call.
pub record Backend : Type 1 where
  pub State : Type 0
  pub Job : Type 0
  pub query : Job → String
  pub poll : ℕ → State → Option Job × State
  pub pending : State → ℕ
  pub resolve : ℕ → Job → List WebResult → List ScraperLog → State → State
  pub fail : ℕ → Job → String → State → State
  pub cooling : ℕ → Job → State → State

-- A future that the producer holds: a result and an exception are set once, and a cancelled future
-- takes neither.
pub data Future : Type 0 where
  waiting cancelled : Future
  result : List WebResult → Future
  exception : String → Future

-- `WebSearchJob`: the future is named by its place in the store.
pub record WebSearchJob : Type 0 where
  pub text : String
  pub future : ℕ

-- The queue with the futures that it handed out, newest first.
pub record WebSearchQueue : Type 0 where
  pub jobs : List WebSearchJob
  pub next_future : ℕ
  pub futures : List (ℕ × Future)

unfoldable pub future_of : ℕ → List (ℕ × Future) → Option Future
future_of i [] = none
future_of i (e ∷ fs) = if e.0 == i then some e.1 else future_of i fs

-- `set_result` and `set_exception`; the `InvalidStateError` of a future that is no longer waiting
-- is dropped.
abbrev pub set_future : Future → Future → Future
set_future waiting f = f
set_future old f = old

unfoldable pub settle : ℕ → Future → List (ℕ × Future) → List (ℕ × Future)
settle i f [] = []
settle i f (e ∷ fs) =
    let rest = settle i f fs in if e.0 == i then (e.0, set_future e.1 f) ∷ fs else e ∷ rest

-- `submit` returns the future of the job that it puts at the back.
unfoldable pub submit : String → WebSearchQueue → ℕ × WebSearchQueue
submit text q = (
  q.next_future,
  record {
    jobs = q.jobs ++ record { text = text; future = q.next_future } ∷ [];
    next_future = suc q.next_future;
    futures = (q.next_future, waiting) ∷ q.futures;
  },
)

unfoldable pub poll_queue : WebSearchQueue → Option WebSearchJob × WebSearchQueue
poll_queue q = elim q.jobs [ [] ↦ (none, q) | j ∷ js ↦ (some j, record q { jobs = js }) ]

unfoldable pub resolve_job : WebSearchJob → List WebResult → WebSearchQueue → WebSearchQueue
resolve_job j results q = record q { futures = settle j.future (result results) q.futures }

unfoldable pub fail_job : WebSearchJob → String → WebSearchQueue → WebSearchQueue
fail_job j message q = record q { futures = settle j.future (exception message) q.futures }

abbrev pub cooling_text : String
cooling_text = "engine cooling down"

unfoldable pub cooling_job : WebSearchJob → WebSearchQueue → WebSearchQueue
cooling_job j q = fail_job j cooling_text q

abbrev pub in_process : Backend
in_process = record {
  State = WebSearchQueue;
  Job = WebSearchJob;
  query = λ j. j.text;
  poll = λ now q. poll_queue q;
  pending = λ q. length q.jobs;
  resolve = λ now j results logs q. resolve_job j results q;
  fail = λ now j message q. fail_job j message q;
  cooling = λ now j q. cooling_job j q;
}

-- `DbWebSearchJob`. A write that fails is logged and dropped: `written` says whether it goes
-- through.
pub record DbWebSearchJob : Type 0 where
  pub ident : ℕ
  pub text : String

module _ (written : ℕ → Bool) where
  unfoldable pub db_complete :
      ℕ → DbWebSearchJob → JobOutcome → Option (List WebResult) → Option String → Table → Table
  db_complete now j o results message t =
      if written now then complete now j.ident o results message t else t

  unfoldable pub db_resolve : ℕ → DbWebSearchJob → List WebResult → List ScraperLog → Table → Table
  db_resolve now j results logs t =
      db_complete now j (classify_outcome results logs) (some results) none t

  unfoldable pub db_fail : ℕ → DbWebSearchJob → String → Table → Table
  db_fail now j message t = db_complete now j error none (some message) t

  unfoldable pub db_cooling : ℕ → DbWebSearchJob → Table → Table
  db_cooling now j t = db_complete now j cooling none (some cooling_text) t

-- `DbWebSearchQueue.poll`; a failed claim is swallowed, and the job stays pending.
unfoldable pub as_job : Option (ℕ × String) → Option DbWebSearchJob
as_job none = none
as_job (some (i, text)) = some (record { ident = i; text = text })

unfoldable pub db_poll : (ℕ → Bool) → String → Option ℕ → ℕ → Table → Option DbWebSearchJob × Table
db_poll reached engine max_age now t =
    let claimed = claim now engine max_age t in
    if reached now then (as_job claimed.0, claimed.1) else (none, t)

-- The queue of an engine; it has no `pending`, so its count is 0.
abbrev pub cross_process : (ℕ → Bool) → String → Option ℕ → Backend
cross_process reached engine max_age = record {
  State = Table;
  Job = DbWebSearchJob;
  query = λ j. j.text;
  poll = λ now t. db_poll reached engine max_age now t;
  pending = λ t. 0;
  resolve = λ now j results logs t. db_resolve reached now j results logs t;
  fail = λ now j message t. db_fail reached now j message t;
  cooling = λ now j t. db_cooling reached now j t;
}
