-- ===== src/Dispatch/Awaits.antt =====
-- `_await_result` of api/websearch.py, and one attempt on an engine.
use topicstreams.Jobs.{Row, Table, enqueue, fetch}
use topicstreams.Jobs.Rows.{fetch-delete}
use topicstreams.Dispatch.{is_done, Settings, await_result, cleaned, served, attempt}
use topicstreams.Base.{ℕ, ◌≤◌, String, ◌≡◌, subst, true, Option, none, some, arith}

module _ (others : ℕ → Table → Table) (settings : Settings) where
  open settings use {request_timeout, poll_interval}

  -- A row is the job's own, done, as it stands in the table; no row means that the deadline passed.
  abbrev pub Awaited : ℕ → ℕ → Option Row × ℕ × Table → Type 0
  Awaited deadline i (some r, now, t) = (fetch i t.rows ≡ some r) × (is_done r.status ≡ true)
  Awaited deadline i (none, now, t) = deadline ≤ now

  cleaned-fetch :
      (i : ℕ) (r : Option Row × ℕ × Table) → fetch i (cleaned others settings i r).2.rows ≡ none
  unfolding cleaned
  cleaned-fetch i (none, now, t) = ground (arith, fetch-delete i i t)
  cleaned-fetch i (some x, now, t) = ground (arith, fetch-delete i i t)

  -- Whatever comes of an attempt, the job that it enqueued is gone from the table at its end.
  attempt_cleans :
      (query engine : String) (now i : ℕ) (t : Table)
      → (enqueue now query engine (some settings.max_in_flight) t).0 ≡ some i
      → fetch i (attempt others settings query engine now t).2.rows ≡ none
  unfolding attempt
  attempt_cleans query engine now i t e =
      go (enqueue now query engine (some settings.max_in_flight) t) e
    where
      go :
          (r : Option ℕ × Table)
          → r.0 ≡ some i
          → fetch i (served others settings now r).2.rows ≡ none
      go (none, u) e = absurd (cc e)
      go (some j, u) e =
          let same : j ≡ i = ground (arith, e) in
          subst (λ k. fetch k (served others settings now (some j, u)).2.rows ≡ none) same
            (unfold served in cleaned-fetch j (await_result others settings j now u))
