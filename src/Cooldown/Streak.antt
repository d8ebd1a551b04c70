-- ===== src/Cooldown/Streak.antt =====
-- The failures that the tracker of scraper/cooldown.py counts over a history of runs.
use topicstreams.Model.{ScraperLog}
use topicstreams.Cooldown.{
  Outcome, block, ok, other, EngineState, Tracker, or_fresh, record_outcome, record_logs,
  classify_logs,
}
use topicstreams.Base.{
  ap, ◌∙◌, get-put_self, map, ℕ, suc, ◌+◌, String, ◌≡◌, refl, ap, ◌∙◌, Bool, true, false, List, [],
  ◌∷◌, map, arith, if◌then◌else◌, any, get,
}

abbrev pub failures_of : String → Tracker → ℕ
failures_of engine c = (or_fresh (get engine c.state)).failures

abbrev pub is_ok : Outcome → Bool
is_ok ok = true
is_ok _ = false

-- The runs after the last success.
abbrev pub since_ok : List Outcome → List Outcome
since_ok [] = []
since_ok (o ∷ os) =
    let later = since_ok os in if any is_ok os then later else if is_ok o then os else o ∷ os

abbrev pub blocks : List Outcome → ℕ
blocks [] = 0
blocks (block ∷ os) = suc (blocks os)
blocks (_ ∷ os) = blocks os

-- The runs of one engine, each with its time, in order.
pub replay : String → List (ℕ × List ScraperLog) → Tracker → Tracker
replay engine [] c = c
replay engine ((now, logs) ∷ runs) c = replay engine runs (record_logs now c engine logs)

abbrev pub outcomes : List (ℕ × List ScraperLog) → List Outcome
outcomes runs = map (λ r. classify_logs r.1) runs

-- The count after one outcome.
abbrev counted : ℕ → Outcome → ℕ
counted n block = n + 1
counted n ok = 0
counted n other = n

failures-outcome :
    (now : ℕ) (c : Tracker) (o : Outcome) (s : EngineState)
    → (record_outcome now c o s).failures ≡ counted s.failures o
unfolding record_outcome
failures-outcome now c block s = refl
failures-outcome now c ok s = refl
failures-outcome now c other s = ground arith

failures-record_logs :
    (now : ℕ) (c : Tracker) (engine : String) (logs : List ScraperLog)
    → failures_of engine (record_logs now c engine logs)
      ≡ counted (failures_of engine c) (classify_logs logs)
unfolding record_logs
failures-record_logs now c engine logs =
    ap (λ s. (or_fresh s).failures) (get-put_self engine _ c.state)
    ∙ (failures-outcome now c (classify_logs logs) (or_fresh (get engine c.state)))

-- The blocks since the last success, and those of before if there was none.
abbrev pub streak : ℕ → List Outcome → ℕ
streak n os = (if any is_ok os then 0 else n) + blocks (since_ok os)

since_ok_none : (os : List Outcome) → any is_ok os ≡ false → since_ok os ≡ os
since_ok_none [] h = refl
since_ok_none (o ∷ os) h = ground (arith, since_ok_none os)

streak-cons :
    (o : Outcome) (os : List Outcome) (n : ℕ) → streak (counted n o) os ≡ streak n (o ∷ os)
streak-cons block os n = ground (arith, since_ok_none os)
streak-cons ok os n = ground (arith, since_ok_none os)
streak-cons other os n = ground (arith, since_ok_none os)

-- After any runs of an engine its failures are the blocked runs since the last success, with those
-- of before if there was no success.
pub failures-replay :
    (engine : String) (runs : List (ℕ × List ScraperLog)) (c : Tracker)
    → failures_of engine (replay engine runs c) ≡ streak (failures_of engine c) (outcomes runs)
unfolding replay
failures-replay engine [] c = omega arith
failures-replay engine ((now, logs) ∷ runs) c =
    failures-replay engine runs (record_logs now c engine logs)
    ∙ ap (λ n. streak n (outcomes runs)) (failures-record_logs now c engine logs)
    ∙ streak-cons (classify_logs logs) (outcomes runs) (failures_of engine c)
