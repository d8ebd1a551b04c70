-- ===== src/Saturation/Tests.antt =====
-- A verdict of scraper/saturation.py on three engines.
use topicstreams.Cooldown.{CooldownSnapshot}
use topicstreams.Base.{ℕ, String, List, [], ◌∷◌}

abbrev engine_state : String → ℕ → ℕ → CooldownSnapshot
engine_state engine failures left = record {
  engine = engine;
  failures = failures;
  remaining_seconds = left;
}

abbrev snapshots : List CooldownSnapshot
snapshots = engine_state "bing" 1 40 ∷ engine_state "google" 2 90 ∷ engine_state "brave" 0 0 ∷ []
