-- ===== src/Supervisor/Tests.antt =====
-- A round of the supervisor of scraper/main.py on small tables.
use topicstreams.Cooldown.{CooldownSnapshot}
use topicstreams.EngineTable.Published.{cooldown_columns}
use topicstreams.Saturation.{SharedEngineState, start, update}
use topicstreams.Supervisor.{World, Settings, Faults, supervise_round}
use topicstreams.Supervisor.Rounds.{supervise_round-published}
use topicstreams.Base.{◌≡◌, refl, true, false, some, [], member, get, put}

abbrev benched : CooldownSnapshot
benched = record { engine = "bing"; failures = 3; remaining_seconds = 40 }

abbrev google_ok : CooldownSnapshot
google_ok = record { engine = "google"; failures = 0; remaining_seconds = 0 }

abbrev shared : SharedEngineState
shared = update benched (update google_ok start)

abbrev no_faults : Faults
no_faults = record {
  news = false;
  logs = true;
  cycles = false;
  jobs = false;
  cooldowns = false;
  backlog = true;
}

abbrev monthly : Settings
monthly = record {
  retention = 100;
  web_search_enabled = true;
  job_ttl = 10;
  scrape_interval = 60;
  canary_engines = [];
  robust_threshold = 2;
}

abbrev idle : World
idle = record {
  feed = record { topics = []; news = []; matches = record { rows = []; next_id = 1 }; facts = [] };
  logs = [];
  cycles = [];
  jobs = record { rows = []; next_id = 1 };
  engines = [];
}

supervise_round-published_example :
    cooldown_columns (get "bing" (supervise_round 500 monthly no_faults shared idle).1.engines)
    ≡ (3, some 540)
unfolding update put member get
supervise_round-published_example =
    supervise_round-published 500 monthly no_faults shared idle "bing" benched (refl, (refl, tt))
      (refl, (refl, tt)) refl
