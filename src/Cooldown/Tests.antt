-- ===== src/Cooldown/Tests.antt =====
-- Runs of the cooldown tracker of scraper/cooldown.py.
use topicstreams.Model.{ScraperLog}
use topicstreams.Cooldown.{
  record_outcome, decide_state, is_block, in_block_statuses, is_block_message, probe, skip, Tracker,
  window_for, decide, record_logs, classify_logs,
}
use topicstreams.Cooldown.Gate.{decide-record_logs, after}
use topicstreams.Cooldown.Streak.{failures_of, replay, failures-replay}
use topicstreams.Base.{
  ℕ, String, ◌≡◌, refl, Bool, true, false, Option, none, some, List, [], ◌∷◌, get, put,
}

abbrev tracker : Tracker
tracker = record { base_seconds = 300; max_seconds = 3600; state = [] }

-- The log of a page: its success, its HTTP status and its error message.
abbrev log : Bool → Option ℕ → Option String → ScraperLog
log success code message = record {
  topic = "python";
  scraped_at = 0;
  success = success;
  http_status_code = code;
  error_message = message;
  entry_count = 0;
  engine = "bing";
  duration_ms = none;
}

abbrev blocked_run : List ScraperLog
blocked_run = log true (some 200) none ∷ log false (some 429) none ∷ []

blocked_once :
    (decide 100 (record_logs 0 tracker "bing" blocked_run) "bing" ≡ skip)
    × (decide 300 (record_logs 0 tracker "bing" blocked_run) "bing" ≡ probe)
unfolding is_block in_block_statuses is_block_message decide decide_state record_logs record_outcome
    classify_logs window_for get put
blocked_once = (refl, refl)

decide-record_logs_example :
    decide 100 (record_logs 0 tracker "bing" blocked_run) "bing"
    ≡ after tracker 0 100 0 (classify_logs blocked_run)
unfolding get
decide-record_logs_example = decide-record_logs tracker 0 100 "bing" blocked_run

failures-replay_example :
    failures_of "bing" (replay "bing" ((0, blocked_run) ∷ (400, blocked_run) ∷ []) tracker) ≡ 2
unfolding get classify_logs is_block in_block_statuses is_block_message
failures-replay_example =
    failures-replay "bing" ((0, blocked_run) ∷ (400, blocked_run) ∷ []) tracker
