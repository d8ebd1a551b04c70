-- ===== src/Cooldown/Gate.antt =====
-- What `decide` of scraper/cooldown.py answers after a `record`.
use topicstreams.Model.{ScraperLog}
use topicstreams.Cooldown.{
  Outcome, block, ok, other, Decision, run, probe, skip, EngineState, Tracker, window_for,
  decide_state, decide, or_fresh, record_outcome, record_logs, classify_logs,
}
use topicstreams.Base.{
  ℕ, ◌+◌, String, ◌≡◌, refl, some, List, arith, ltb, ◌==◌, if◌then◌else◌, str_eq_self, get, get-put,
}

-- The gate on the recorded failures and the time of the last record.
abbrev pub gate : ℕ → ℕ → ℕ → Decision
gate later failures next_probe =
    if failures == 0 then run else if ltb later next_probe then skip else probe

-- What `decide` answers at `later`, for each outcome recorded at `now` with `n` failures before.
abbrev pub after : Tracker → ℕ → ℕ → ℕ → Outcome → Decision
after c now later n block = gate later (n + 1) (now + window_for c (n + 1))
after c now later n ok = run
after c now later n other = gate later n (now + window_for c n)

decide-outcome :
    (c : Tracker) (now later : ℕ) (o : Outcome) (s : EngineState)
    → decide_state later (some (record_outcome now c o s)) ≡ after c now later s.failures o
unfolding decide_state record_outcome
decide-outcome c now later block s = ground arith
decide-outcome c now later ok s = refl
decide-outcome c now later other s = ground arith

-- A blocked run benches the engine for the window of one more failure and then lets a probe
-- through, a success lifts the bench, and another failure re-arms the same window if the engine was
-- benched.
pub decide-record_logs :
    (c : Tracker) (now later : ℕ) (engine : String) (logs : List ScraperLog)
    → decide later (record_logs now c engine logs) engine
      ≡ after c now later (or_fresh (get engine c.state)).failures (classify_logs logs)
unfolding decide record_logs
decide-record_logs c now later engine logs =
    simp (get-put, str_eq_self)
      (decide-outcome c now later (classify_logs logs) (or_fresh (get engine c.state)))
