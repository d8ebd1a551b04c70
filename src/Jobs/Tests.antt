-- ===== src/Jobs/Tests.antt =====
-- Runs of the statements on `web_search_jobs` of common/database.py.
use topicstreams.Jobs.{
  Status, ok, Table, in_flight, enqueue, enqueue_seen, insert_job, claim, claim_found, claimable,
  oldest, complete,
}
use topicstreams.Jobs.Rows.{IsValid}
use topicstreams.Jobs.Once.{completes, Statements, finish, next, claim_once}
use topicstreams.Jobs.Capacity.{Enqueued, enqueue-Enqueued}
use topicstreams.Base.{◌+◌, ◌-◌, max, ◌≤◌, ◌≡◌, refl, ◌≢◌, ◌↔◌, none, some, [], ◌∷◌, arith}

abbrev no_jobs : Table
no_jobs = record { next_id = 1; rows = [] }

abbrev one_job : Table
one_job = record {
  next_id = 2;
  rows =
      record {
        ident = 1;
        query = "cubical";
        engine = "bing";
        status = Status.pending;
        outcome = none;
        results = none;
        error_text = none;
        created_at = 10;
        claimed_at = none;
        finished_at = none;
      }
      ∷ [];
}

enqueued : enqueue 10 "cubical" "bing" (some 4) no_jobs ≡ (some 1, one_job)
unfolding enqueue enqueue_seen insert_job in_flight
enqueued = refl

claimed_once : (claim 20 "bing" (some 60) one_job).0 ≡ some (1, "cubical")
unfolding claim claim_found claimable oldest
claimed_once = refl

one_job-IsValid : IsValid one_job
one_job-IsValid = record { below = (omega arith, tt); distinct = (tt, tt) }

-- The job is answered after the claim, and another one is enqueued.
abbrev answered_job : Table
answered_job = complete 30 1 ok (some []) none (claim 20 "bing" (some 60) one_job).1

answered_later : Statements (claim 20 "bing" (some 60) one_job).1 answered_job
answered_later = next finish (completes 30 1 ok (some []) none)

claim_once_example : (claim 40 "bing" none answered_job).0 ≢ some (1, "cubical")
claim_once_example =
    claim_once 20 40 1 "bing" "bing" "cubical" "cubical" (some 60) none one_job answered_job
      (omega arith, tt) claimed_once answered_later

enqueue-Enqueued_example :
    Enqueued 20 "agda" "bing" one_job (enqueue_seen [] 20 "agda" "bing" (some 1) one_job)
    × (((enqueue_seen [] 20 "agda" "bing" (some 1) one_job).0 ≡ none) ↔ (1 ≤ in_flight "bing" []))
    × (in_flight "bing" (enqueue_seen [] 20 "agda" "bing" (some 1) one_job).1.rows
        ≤ max
            (in_flight "bing" one_job.rows)
            (1 + (in_flight "bing" one_job.rows - in_flight "bing" [])))
    × (in_flight "bing" (enqueue 20 "agda" "bing" (some 1) one_job).1.rows
        ≤ max (in_flight "bing" one_job.rows) 1)
enqueue-Enqueued_example = enqueue-Enqueued [] 20 1 "agda" "bing" one_job one_job-IsValid
