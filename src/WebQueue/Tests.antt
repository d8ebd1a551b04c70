-- ===== src/WebQueue/Tests.antt =====
-- Runs of the web queues of scraper/webqueue.py.
use topicstreams.Model.{ScraperLog}
use topicstreams.Jobs.{Status, Table}
use topicstreams.WebQueue.{waiting, WebSearchJob, WebSearchQueue, DbWebSearchJob}
use topicstreams.Base.{ℕ, Bool, true, none, some, [], ◌∷◌}

abbrev job : WebSearchJob
job = record { text = "cubical"; future = 0 }

abbrev queue : WebSearchQueue
queue = record { jobs = job ∷ []; next_future = 1; futures = (0, waiting) ∷ [] }

abbrev page : ScraperLog
page = record {
  topic = "cubical";
  scraped_at = 0;
  success = true;
  http_status_code = some 200;
  error_message = none;
  entry_count = 0;
  engine = "bing";
  duration_ms = none;
}

abbrev claimed_job : Table
claimed_job = record {
  next_id = 2;
  rows =
      record {
        ident = 1;
        query = "cubical";
        engine = "bing";
        status = Status.claimed;
        outcome = none;
        results = none;
        error_text = none;
        created_at = 10;
        claimed_at = some 20;
        finished_at = none;
      }
      ∷ [];
}

-- The database takes every write.
abbrev up : ℕ → Bool
up now = true

abbrev taken : DbWebSearchJob
taken = record { ident = 1; text = "cubical" }
