-- ===== src/WebQueue/Delivery.antt =====
-- The cross-process hand-off of scraper/webqueue.py: what the API reads of a job that a worker
-- answered.
use topicstreams.Model.{WebResult, ScraperLog}
use topicstreams.Jobs.{ok, empty, blocked, error, cooling, Row, Table, finish_row}
use topicstreams.WebQueue.{
  classify_outcome, DbWebSearchJob, db_resolve, db_fail, db_cooling, cooling_text,
}
use topicstreams.Base.{
  ℕ, String, ◌≡◌, refl, ◌↔◌, Bool, true, false, not, none, some, List, [], ◌∷◌, arith, any, all,
  is_empty,
}

any-all :
    (logs : List ScraperLog)
    → any (λ log. not log.success) logs ≡ not (all (λ log. log.success) logs)
any-all [] = refl
any-all (x ∷ logs) = ground (arith, any-all logs)

-- A served search is `ok` exactly when every page succeeded and there is a result, `blocked` exactly
-- when a page failed, and `empty` otherwise; no other outcome is given.
classify_outcome_iff :
    (results : List WebResult) (logs : List ScraperLog)
    → ((classify_outcome results logs ≡ ok)
        ↔ ((all (λ log. log.success) logs ≡ true) × (is_empty results ≡ false)))
      × ((classify_outcome results logs ≡ blocked) ↔ (all (λ log. log.success) logs ≡ false))
      × ((classify_outcome results logs ≡ empty)
          ↔ ((all (λ log. log.success) logs ≡ true) × (is_empty results ≡ true)))
unfolding classify_outcome
classify_outcome_iff results logs = ground (arith, any-all logs)

-- The answers that a worker gives to a job.
pub data Answer : Type 0 where
  resolves : List WebResult → List ScraperLog → Answer
  fails : String → Answer
  cools : Answer

module _ (written : ℕ → Bool) where
  abbrev pub answer : ℕ → DbWebSearchJob → Answer → Table → Table
  answer now j (resolves results logs) t = db_resolve written now j results logs t
  answer now j (fails message) t = db_fail written now j message t
  answer now j cools t = db_cooling written now j t

  -- The row of an answered job.
  abbrev pub answered : ℕ → Answer → Row → Row
  answered now (resolves results logs) =
      finish_row now (classify_outcome results logs) (some results) none
  answered now (fails message) = finish_row now error none (some message)
  answered now cools = finish_row now cooling none (some cooling_text)
