-- ===== src/Health/Tests.antt =====
-- Runs of api/v1/status.py.
use topicstreams.Model.{ScraperLog}
use topicstreams.Health.{
  Thresholds, max_gap, stale_threshold, compute_health, state, is_watched, latest_from, served_from,
  failed_topics, is_quiet, judge, total_entries,
}
use topicstreams.Health.Threshold.{NoGap, is_stalled, compute_health-Stalled}
use topicstreams.Base.{
  ℕ, ◌-◌, ◌*◌, ◌≤◌, String, ◌≡◌, refl, ◌⊎◌, Bool, true, false, none, List, [], ◌∷◌, arith, ltb,
  if◌then◌else◌, member, get, put,
}

abbrev settings : Thresholds
settings = record { stale_min = 300000; stale_max = 1800000; stale_default = 900000 }

abbrev scrape : String → String → ℕ → Bool → ScraperLog
scrape topic engine at good = record {
  topic = topic;
  scraped_at = at;
  success = good;
  http_status_code = none;
  error_message = none;
  entry_count = if good then 3 else 0;
  engine = engine;
  duration_ms = none;
}

abbrev newest : ScraperLog
newest = scrape "btc" "bing" 1000000 false

-- Yahoo still serves the topic btc, and nothing serves eth.
abbrev older : List ScraperLog
older =
    scrape "btc" "yahoo" 900000 true
    ∷ scrape "eth" "bing" 800000 false
    ∷ scrape "eth" "bing" 700000 true
    ∷ []

one_of_two_fails :
    state (compute_health settings 1100000 ("btc" ∷ "eth" ∷ []) (newest ∷ older)) ≡ "degraded"
unfolding compute_health stale_threshold max_gap latest_from is_watched member served_from get put
    judge failed_topics is_quiet total_entries state
one_of_two_fails = refl

compute_health-Stalled_example :
    let threshold = stale_threshold settings (newest ∷ older) in
    (300000 ≤ threshold)
    × (threshold ≤ 1800000)
    × ((g : ℕ) × NoGap g (newest ∷ older) × (g * 3 ≤ threshold ⊎ threshold ≡ 1800000))
    × (is_stalled (compute_health settings 1500000 ("btc" ∷ []) (newest ∷ older))
        ≡ ltb threshold (1500000 - 1000000))
compute_health-Stalled_example =
    compute_health-Stalled settings 1500000 ("btc" ∷ []) newest older (omega arith) (omega arith)
