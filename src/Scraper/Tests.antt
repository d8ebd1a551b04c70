-- ===== src/Scraper/Tests.antt =====
-- A scrape of a topic on an engine that blocks and on one that answers.
use topicstreams.Cooldown.{Tracker}
use topicstreams.TaskQueue.{Vertical}
use topicstreams.Scraper.{
  Visit, responded, shown, Handling, fallback, scrape_topic, engines_for_cycle,
}
use topicstreams.Scraper.Topic.{Falls, FallsBack, scrape_topic-FallsBack}
use topicstreams.Base.{ℕ, String, true, none, some, [], ◌∷◌, ◌==◌, str_eq, if◌then◌else◌}

abbrev handling : Handling
handling = record {
  http_error_handling_enabled = true;
  monitored_http_codes = 403 ∷ 429 ∷ 503 ∷ [];
}

-- An entry is its title and its engine.
abbrev stamp : String → String × String → String × String
stamp engine entry = (entry.0, engine)

abbrev page_of : String → ℕ → Visit (String × String)
page_of engine page =
    let code = if str_eq engine "bing" then 429 else 200 in
    record {
      fetch_ms = 40;
      logged_at = 100;
      fetched =
          responded code (shown none (if page == 1 then some ("headline", "") ∷ none ∷ [] else []));
    }

abbrev visit : String → String → Vertical → ℕ → ℕ → Visit (String × String)
visit engine query vertical now page = page_of engine page

scrape_topic-FallsBack_example :
    let r =
      scrape_topic handling stamp visit 9
        ("bing" ∷ "google" ∷ [])
        "cubical"
        fallback
        0
        (some 2)
        50
        none in
    Falls handling stamp visit 9 "cubical"
      (some 2)
      (engines_for_cycle ("bing" ∷ "google" ∷ []) fallback 0)
      50
      none
      r
    × FallsBack handling stamp visit r.logs
scrape_topic-FallsBack_example =
    scrape_topic-FallsBack handling stamp visit 9 ("bing" ∷ "google" ∷ []) "cubical" 0 (some 2) 50
      none

abbrev benched : Tracker
benched = record {
  base_seconds = 300;
  max_seconds = 3600;
  state = ("bing", record { failures = 1; next_probe = 400 }) ∷ [];
}
