-- ===== src/Health/Threshold.antt =====
-- The threshold for a stalled scraper of api/v1/status.py.
use topicstreams.Model.{ScraperLog}
use topicstreams.Health.{
  idle, unwatched, errors, parsing, degraded, clean, successes_of, served_from, Thresholds, max_gap,
  stale_threshold, Health, stalled, compute_health, latest_from, judge,
}
use topicstreams.Base.{
  ℕ, ◌-◌, ◌*◌, ◌≤◌, String, ◌≡◌, ◌⊎◌, inl, inr, Bool, true, false, List, [], ◌∷◌, arith, ltb, leb,
  Bool-cases,
}

-- No two logs in a row are further apart than the gap.
abbrev pub NoGap : ℕ → List ScraperLog → Type 0
NoGap g [] = Unit
NoGap g (newer ∷ []) = Unit
NoGap g (newer ∷ older ∷ logs) = (newer.scraped_at - older.scraped_at ≤ g) × NoGap g (older ∷ logs)

NoGap-mono : (logs : List ScraperLog) (g h : ℕ) → g ≤ h → NoGap g logs → NoGap h logs
NoGap-mono [] g h le n = tt
NoGap-mono (newer ∷ []) g h le n = tt
NoGap-mono (newer ∷ older ∷ logs) g h le n =
    (omega (arith, le, n.0), NoGap-mono (older ∷ logs) g h le n.1)

max_gap-NoGap : (logs : List ScraperLog) → NoGap (max_gap logs) logs
unfolding max_gap
max_gap-NoGap [] = tt
max_gap-NoGap (newer ∷ []) = tt
max_gap-NoGap (newer ∷ older ∷ logs) = (
  omega arith,
  NoGap-mono (older ∷ logs) (max_gap (older ∷ logs)) _ (omega arith) (max_gap-NoGap (older ∷ logs)),
)

abbrev pub is_stalled : Health → Bool
is_stalled idle = false
is_stalled (stalled age) = true
is_stalled unwatched = false
is_stalled (errors feeds reason) = false
is_stalled parsing = false
is_stalled (degraded names feeds) = false
is_stalled (clean feeds) = false

judge_not_stalled :
    (successes : List ScraperLog) (served : List (String × Bool)) (latest : List ScraperLog)
    → is_stalled (judge successes served latest) ≡ false
unfolding judge
judge_not_stalled successes served latest = ground arith

threshold_reach :
    (settings : Thresholds) (logs : List ScraperLog)
    → max_gap logs * 3 ≤ stale_threshold settings logs
      ⊎ stale_threshold settings logs ≡ settings.stale_max
unfolding stale_threshold
threshold_reach settings logs = elim (Bool-cases (leb (max_gap logs * 3) settings.stale_max)) [
  | inl fits ↦ inl (ground (arith, fits))
  | inr over ↦ inr (ground (arith, over))
]

-- The threshold lies between its floor and its ceiling; it is at least three times as long as every
-- gap between two of the logs, unless it is the ceiling; and a scraper is reported as stalled exactly
-- if its newest log is older than the threshold.
pub compute_health-Stalled :
    (settings : Thresholds) (now : ℕ) (active : List String) (log : ScraperLog)
    (logs : List ScraperLog)
    → settings.stale_min ≤ settings.stale_default
    → settings.stale_default ≤ settings.stale_max
    → let threshold = stale_threshold settings (log ∷ logs) in
      (settings.stale_min ≤ threshold)
      × (threshold ≤ settings.stale_max)
      × ((g : ℕ) × NoGap g (log ∷ logs) × (g * 3 ≤ threshold ⊎ threshold ≡ settings.stale_max))
      × (is_stalled (compute_health settings now active (log ∷ logs))
          ≡ ltb threshold (now - log.scraped_at))
unfolding stale_threshold compute_health
compute_health-Stalled settings now active log logs low high =
    let latest : List ScraperLog = latest_from active (log ∷ logs) [] in
    let judged =
      judge_not_stalled (successes_of active (log ∷ logs)) (served_from latest []) latest in
    (
      ground arith,
      ground arith,
      (max_gap (log ∷ logs), max_gap-NoGap (log ∷ logs), threshold_reach settings (log ∷ logs)),
      ground (arith, judged),
    )
