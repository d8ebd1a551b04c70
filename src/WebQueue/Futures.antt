-- ===== src/WebQueue/Futures.antt =====
-- The in-process hand-off of scraper/webqueue.py: first come, first served, and a future is settled
-- once.
use topicstreams.Model.{WebResult}
use topicstreams.WebQueue.{
  Future, waiting, result, exception, WebSearchJob, WebSearchQueue, future_of, set_future, settle,
  submit, poll_queue, resolve_job, fail_job, cooling_job, cooling_text,
}
use topicstreams.Base.{
  ℕ, zero, suc, ◌+◌, String, ◌≡◌, refl, sym, ap, ◌∙◌, Option, none, some, List, [], ◌∷◌, ◌++◌, map,
  arith, ◌==◌, if◌then◌else◌, length, length-append, length-map, append_assoc, append-nil,
}

-- The future with a value that it takes only if it is waiting.
abbrev pub taken : Future → Option Future → Option Future
taken f none = none
taken f (some old) = some (set_future old f)

pub future_of-settle :
    (i j : ℕ) (f : Future) (fs : List (ℕ × Future))
    → future_of j (settle i f fs) ≡ (if i == j then taken f (future_of j fs) else future_of j fs)
unfolding future_of settle
future_of-settle i j f [] = ground arith
future_of-settle i j f (e ∷ fs) = ground (arith, future_of-settle i j f fs)

-- The first answer to a job is the one that its producer gets; a later answer, whatever it is, and
-- any answer to a cancelled future, changes nothing.
resolve_first :
    (j : WebSearchJob) (results : List WebResult) (message : String) (q : WebSearchQueue)
    → future_of j.future q.futures ≡ some waiting
    → (future_of j.future (fail_job j message (resolve_job j results q)).futures
        ≡ some (result results))
      × (future_of j.future (resolve_job j results (cooling_job j q)).futures
          ≡ some (exception cooling_text))
unfolding resolve_job fail_job cooling_job
resolve_first j results message q h = (
  ground (
    arith,
    future_of-settle j.future j.future (exception message)
        (settle j.future (result results) q.futures),
    future_of-settle j.future j.future (result results) q.futures,
  ),
  ground (
    arith,
    future_of-settle j.future j.future (result results)
        (settle j.future (exception cooling_text) q.futures),
    future_of-settle j.future j.future (exception cooling_text) q.futures,
  ),
)

-- The queue after a number of submissions.
abbrev pub submit_all : List String → WebSearchQueue → WebSearchQueue
submit_all [] q = q
submit_all (t ∷ ts) q = submit_all ts (submit t q).1

abbrev pub text_of : Option WebSearchJob → Option String
text_of none = none
text_of (some j) = some j.text

abbrev pub texts : List WebSearchJob → List String
texts jobs = map (λ j. j.text) jobs

-- The texts of the jobs that so many polls give.
abbrev pub served : ℕ → WebSearchQueue → List (Option String)
served zero q = []
served (suc n) q = text_of (poll_queue q).0 ∷ served n (poll_queue q).1

texts-append : (xs ys : List WebSearchJob) → texts (xs ++ ys) ≡ texts xs ++ texts ys
texts-append [] ys = refl
texts-append (x ∷ xs) ys = ap (◌∷◌ x.text) (texts-append xs ys)

texts-submit_all :
    (ts : List String) (q : WebSearchQueue) → texts (submit_all ts q).jobs ≡ texts q.jobs ++ ts
unfolding submit
texts-submit_all [] q = sym (append-nil (texts q.jobs))
texts-submit_all (t ∷ ts) q =
    texts-submit_all ts (submit t q).1
    ∙ ap (λ xs. xs ++ ts) (texts-append q.jobs _)
    ∙ append_assoc (texts q.jobs) (t ∷ []) ts

served-jobs :
    (jobs : List WebSearchJob) (q : WebSearchQueue)
    → q.jobs ≡ jobs
    → served (length jobs) q ≡ map some (texts jobs)
unfolding poll_queue
served-jobs [] q e = refl
served-jobs (j ∷ jobs) q e = rw (e) (ap (◌∷◌ (some j.text)) (served-jobs jobs _ refl))

-- Searches are served in the order in which they were submitted, behind those that waited already.
served-submit_all :
    (ts : List String) (q : WebSearchQueue)
    → served (length q.jobs + length ts) (submit_all ts q) ≡ map some (texts q.jobs ++ ts)
served-submit_all ts q =
    let all = texts-submit_all ts q in
    let n : length (submit_all ts q).jobs ≡ length q.jobs + length ts = omega (
      arith,
      ap length all,
      length-map (λ (j : WebSearchJob). j.text) (submit_all ts q).jobs,
      length-append (texts q.jobs) ts,
      length-map (λ (j : WebSearchJob). j.text) q.jobs,
    ) in
    ap (λ k. served k (submit_all ts q)) (sym n)
    ∙ served-jobs (submit_all ts q).jobs (submit_all ts q) refl
    ∙ ap (map some) all
