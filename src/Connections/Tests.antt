-- ===== src/Connections/Tests.antt =====
-- Runs of the wrapper and of the connections of common/database.py.
use topicstreams.Connections.{
  Attempt, returned, transient, value, handle_attempt, retry_from, retry_on_transient_error, Pool,
  Calls,
}
use topicstreams.Connections.Retries.{Retried, retry_on_transient_error-Retried}
use topicstreams.Base.{ℕ, ◌≡◌, refl, true, false, [], ◌∷◌, arith, ltb, if◌then◌else◌}

-- The database is gone for two calls.
abbrev flaky : ℕ → Attempt ℕ
flaky n = if ltb n 2 then transient "server closed the connection" else returned 7

third_time : retry_on_transient_error flaky 100 3 ≡ (value 7, 100 ∷ 200 ∷ [])
unfolding retry_on_transient_error retry_from handle_attempt
third_time = refl

retry_on_transient_error-Retried_example :
    (k : ℕ) × Retried flaky 100 0 3 (retry_on_transient_error flaky 100 3) k
retry_on_transient_error-Retried_example =
    retry_on_transient_error-Retried flaky 100 3 (omega arith)

abbrev pool : Pool
pool = record { free_slots = 1; checked_out = 9 }

abbrev failing_commit : Calls
failing_commit = record {
  opens = true;
  body_raises = false;
  finish_raises = true;
  put_raises = false;
}
