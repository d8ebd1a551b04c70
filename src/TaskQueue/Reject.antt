-- ===== src/TaskQueue/Reject.antt =====
-- Rejecting queued web searches while the engine is benched, in scraper/tasks.py.
use topicstreams.WebQueue.{
  waiting, exception, WebSearchJob, WebSearchQueue, future_of, poll_queue, cooling_job, fail_job,
  cooling_text, in_process,
}
use topicstreams.WebQueue.Futures.{future_of-settle}
use topicstreams.TaskQueue.{reject_step, reject_loop}
use topicstreams.Base.{
  ℕ, zero, suc, min, ◌≡◌, refl, sym, subst, ◌⊎◌, inl, some, List, [], ◌∷◌, arith, length, take, All,
  All-imp, drop,
}

-- The future of a search that was told that the engine is cooling down.
abbrev pub Told : ℕ → WebSearchQueue → Type 0
Told f q = future_of f q.futures ≡ some (exception cooling_text)

abbrev Open : ℕ → WebSearchQueue → Type 0
Open f q = (future_of f q.futures ≡ some waiting) ⊎ Told f q

cooling_job-keeps :
    (f : ℕ) (j : WebSearchJob) (q : WebSearchQueue) → Told f q → Told f (cooling_job j q)
unfolding cooling_job fail_job
cooling_job-keeps f j q t =
    ground (arith, future_of-settle j.future f (exception cooling_text) q.futures)

cooling_job-tells :
    (j : WebSearchJob) (q : WebSearchQueue) → Open j.future q → Told j.future (cooling_job j q)
unfolding cooling_job fail_job
cooling_job-tells j q o =
    ground (arith, future_of-settle j.future j.future (exception cooling_text) q.futures)

cooling_job-Open :
    (f : ℕ) (j : WebSearchJob) (q : WebSearchQueue) → Open f q → Open f (cooling_job j q)
unfolding cooling_job fail_job
cooling_job-Open f j q o =
    ground (arith, future_of-settle j.future f (exception cooling_text) q.futures)

-- One turn of the loop on a queue whose jobs are known.
reject_turn :
    (now limit : ℕ) (j : WebSearchJob) (js : List WebSearchJob) (q : WebSearchQueue)
    → q.jobs ≡ j ∷ js
    → reject_loop in_process now (suc limit) q ≡ (
        let rest = reject_loop in_process now limit (cooling_job j (record q { jobs = js })) in
        (suc rest.0, rest.1))
unfolding reject_loop reject_step poll_queue
reject_turn now limit j js q e = rw e

reject_end :
    (now limit : ℕ) (q : WebSearchQueue) → q.jobs ≡ [] → reject_loop in_process now limit q ≡ (0, q)
unfolding reject_loop reject_step poll_queue
reject_end now zero q e = refl
reject_end now (suc limit) q e = rw e

reject_zero : (now : ℕ) (q : WebSearchQueue) → reject_loop in_process now zero q ≡ (0, q)
unfolding reject_loop
reject_zero now q = refl

reject_loop-keeps :
    (now limit f : ℕ) (js : List WebSearchJob) (q : WebSearchQueue)
    → q.jobs ≡ js
    → Told f q
    → Told f (reject_loop in_process now limit q).1
unfolding cooling_job fail_job
reject_loop-keeps now zero f js q e t = subst (λ r. Told f r.1) (sym (reject_zero now q)) t
reject_loop-keeps now (suc limit) f [] q e t = rw (reject_end now (suc limit) q e) t
reject_loop-keeps now (suc limit) f (j ∷ js) q e t = rw (reject_turn now limit j js q e) (
    reject_loop-keeps now limit f js (cooling_job j (record q { jobs = js })) refl
      (cooling_job-keeps f j (record q { jobs = js }) t))

-- The first searches up to the limit are told, and the others stay.
abbrev pub Rejects : ℕ → List WebSearchJob → ℕ × WebSearchQueue → Type 0
Rejects limit js r =
    (r.0 ≡ min limit (length js))
    × (r.1.jobs ≡ drop limit js)
    × All (λ j. Told j.future r.1) (take limit js)

reject-Open :
    (now limit : ℕ) (js : List WebSearchJob) (q : WebSearchQueue)
    → q.jobs ≡ js
    → All (λ j. Open j.future q) js
    → Rejects limit js (reject_loop in_process now limit q)
unfolding cooling_job fail_job
reject-Open now zero js q e a =
    subst (Rejects zero js) (sym (reject_zero now q)) (omega arith, e, tt)
reject-Open now (suc limit) [] q e a =
    subst (Rejects (suc limit) []) (sym (reject_end now (suc limit) q e)) (omega arith, e, tt)
reject-Open now (suc limit) (j ∷ js) q e a =
    let q' : WebSearchQueue = record q { jobs = js } in
    let (n, left, told) = reject-Open now limit js (cooling_job j q') refl (
      All-imp (λ x. Open x.future q) (λ x. Open x.future (cooling_job j q')) js
        (λ x o. cooling_job-Open x.future j q' o) a.1) in
    subst (Rejects (suc limit) (j ∷ js)) (sym (reject_turn now limit j js q e)) (
      omega (arith, n),
      left,
      (
        reject_loop-keeps now limit j.future js (cooling_job j q') refl
            (cooling_job-tells j q' a.0),
        told,
      ),
    )

-- In the process, rejecting takes the first searches of the queue, up to the limit, tells each of
-- their producers that the engine is cooling down, and leaves the others queued in order.
reject_in_process :
    (now limit : ℕ) (q : WebSearchQueue)
    → All (λ j. future_of j.future q.futures ≡ some waiting) q.jobs
    → Rejects limit q.jobs (reject_loop in_process now limit q)
reject_in_process now limit q a = reject-Open now limit q.jobs q refl (
    All-imp (λ j. future_of j.future q.futures ≡ some waiting) (λ j. Open j.future q) q.jobs
      (λ j h. inl h) a)
