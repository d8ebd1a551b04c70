-- ===== src/Heartbeat/Timer.antt =====
-- The idle timer of scraper/keepalive.py.
use topicstreams.Heartbeat.{Heartbeat, due, record_activity}
use topicstreams.Base.{stretch, stretch-ge, stretch_mono, ℕ, ◌+◌, ◌≤◌, ◌<◌, ◌≡◌, true, false, arith}

-- After an activity the heartbeat stays quiet for the interval, and is due once the interval and
-- the jitter's share of it have passed.
record_activity-due :
    (uniform : ℕ → ℕ) (now later : ℕ) (h : Heartbeat)
    → uniform h.jitter_ratio ≤ h.jitter_ratio
    → (later < now + h.interval → due later (record_activity uniform now h) ≡ false)
      × (now + stretch h.interval h.jitter_ratio ≤ later
          → due later (record_activity uniform now h) ≡ true)
unfolding due record_activity
record_activity-due uniform now later h u =
    let grows = stretch_mono h.interval _ _ u in
    (λ lt. ground (arith, stretch-ge h.interval (uniform h.jitter_ratio)), λ le. ground arith)
