-- ===== src/Dispatch/Tests.antt =====
-- Searches through the dispatcher of api/websearch.py.
use topicstreams.Cooldown.{Tracker, decide, snapshot}
use topicstreams.EngineTable.{upsert_cooldowns}
use topicstreams.Jobs
use topicstreams.Jobs.{
  Status, Row, Table, enqueue, insert_job, in_flight, claim, complete, fetch, delete,
}
use topicstreams.Model.{WebResult, WebResultKind}
use topicstreams.Dispatch.{Settings, is_healthy, dispatch_web_search}
use topicstreams.Dispatch.Healthy.{states_of, runs, healthy-decide}
use topicstreams.Dispatch.Outcomes.{Searches, dispatch_web_search-Searches}
use topicstreams.Base.{ℕ, ◌+◌, ◌≡◌, refl, true, not, ◌||◌, none, some, [], ◌∷◌, member, get}

abbrev settings : Settings
settings = record {
  engines = "bing" ∷ "google" ∷ [];
  request_timeout = 2;
  poll_interval = 1;
  max_engine_attempts = 2;
  max_in_flight = 1;
}

abbrev no_jobs : Table
no_jobs = record { next_id = 1; rows = [] }

-- A worker of `bing` that claims and answers in one sleep.
abbrev worker : ℕ → Table → Table
worker now t = complete now 1 Jobs.empty (some []) none (claim now "bing" none t).1

abbrev found_page : WebResult
found_page = record {
  kind = WebResultKind.organic;
  title = "Cubical";
  url = none;
  domain = none;
  source = none;
  snippet = none;
  engine = some "bing";
}

-- A worker of `bing` that finds a page.
abbrev finder : ℕ → Table → Table
finder now t = complete now 1 Jobs.ok (some (found_page ∷ [])) none (claim now "bing" none t).1

-- No worker is running.
abbrev idle : ℕ → Table → Table
idle now t = t

abbrev waiting_job : Table
waiting_job = (enqueue 0 "cubical" "bing" (some 1) no_jobs).1

dispatch_web_search-Searches_example :
    Searches finder settings "cubical" 0 [] no_jobs
      (dispatch_web_search finder settings "cubical" 0 [] no_jobs).0
dispatch_web_search-Searches_example =
    dispatch_web_search-Searches finder settings "cubical" 0 [] no_jobs

-- A job of `google` that no worker has claimed yet.
abbrev google_full : Table
google_full = (enqueue 0 "agda" "google" none no_jobs).1

abbrev tracker : Tracker
tracker = record {
  base_seconds = 300;
  max_seconds = 3600;
  state = ("bing", record { failures = 1; next_probe = 400 }) ∷ [];
}

healthy-decide_example :
    let healthy =
      is_healthy
        (1000 + 250)
        (get "bing" (upsert_cooldowns 1000 (states_of (snapshot 100 tracker)) [])) in
    (healthy ≡ runs (decide (100 + 250) tracker "bing"))
    × ((not healthy || runs (decide (100 + 60 + 250) tracker "bing")) ≡ true)
unfolding get member
healthy-decide_example =
    healthy-decide 100 1000 60 250 tracker [] "bing" (record { failures = 1; next_probe = 400 })
      (refl, tt) refl
