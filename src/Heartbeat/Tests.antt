-- ===== src/Heartbeat/Tests.antt =====
-- Runs of the keep-alive timer of scraper/keepalive.py.
use topicstreams.Heartbeat.{Heartbeat}
use topicstreams.Base.{ℕ, ◌/◌, [], ◌∷◌}

abbrev heartbeat : Heartbeat
heartbeat = record {
  interval = 900000;
  jitter_ratio = 300;
  queries = "weather" ∷ "news" ∷ "sports" ∷ [];
  cursor = 3;
  next_fire = 0;
}

abbrev half : ℕ → ℕ
half n = n / 2
