-- ===== src/Config/Scraping.antt =====
-- The properties of `ScraperConfig` in common/config.py.
use topicstreams.Config.{
  Yaml, null, flag, number, text, sequence, mapping, no_items, no_entries, entry, Entries, Setting,
  read, texts, or_else,
}
use topicstreams.Base.{
  String, true, false, Option, none, some, List, [], ◌∷◌, str_eq, if◌then◌else◌,
}

abbrev pub scrape_interval : Setting
scrape_interval = record { path = "scraper" ∷ "scrape_interval" ∷ []; default = number "60" }

abbrev pub max_pages : Setting
max_pages = record { path = "scraper" ∷ "max_pages" ∷ []; default = number "1" }

abbrev pub engines : Setting
engines = record { path = "scraper" ∷ "engines" ∷ []; default = texts ("google" ∷ []) }

abbrev pub engine_strategy : Setting
engine_strategy = record { path = "scraper" ∷ "engine_strategy" ∷ []; default = text "fallback" }

abbrev pub browser_recycle_cycles : Setting
browser_recycle_cycles = record {
  path = "scraper" ∷ "browser_recycle_cycles" ∷ [];
  default = number "50";
}

abbrev pub cooldown_enabled : Setting
cooldown_enabled = record { path = "scraper" ∷ "cooldown" ∷ "enabled" ∷ []; default = flag true }

abbrev pub cooldown_base_seconds : Setting
cooldown_base_seconds = record {
  path = "scraper" ∷ "cooldown" ∷ "base_seconds" ∷ [];
  default = number "300";
}

abbrev pub cooldown_max_seconds : Setting
cooldown_max_seconds = record {
  path = "scraper" ∷ "cooldown" ∷ "max_seconds" ∷ [];
  default = number "3600";
}

abbrev pub pacing_default_min_interval : Setting
pacing_default_min_interval = record {
  path = "scraper" ∷ "pacing" ∷ "default_min_interval" ∷ [];
  default = number "2.0";
}

abbrev pub pacing_per_engine_setting : Setting
pacing_per_engine_setting = record {
  path = "scraper" ∷ "pacing" ∷ "per_engine" ∷ [];
  default = mapping no_entries;
}

unfoldable pub pacing_per_engine : Yaml → Yaml
pacing_per_engine config = or_else (mapping no_entries) (read pacing_per_engine_setting config)

abbrev pub pacing_jitter_ratio : Setting
pacing_jitter_ratio = record {
  path = "scraper" ∷ "pacing" ∷ "jitter_ratio" ∷ [];
  default = number "0.25";
}

abbrev pub keepalive_enabled : Setting
keepalive_enabled = record { path = "scraper" ∷ "keepalive" ∷ "enabled" ∷ []; default = flag false }

abbrev pub keepalive_interval_seconds : Setting
keepalive_interval_seconds = record {
  path = "scraper" ∷ "keepalive" ∷ "interval_seconds" ∷ [];
  default = number "600";
}

abbrev pub keepalive_jitter_ratio : Setting
keepalive_jitter_ratio = record {
  path = "scraper" ∷ "keepalive" ∷ "jitter_ratio" ∷ [];
  default = number "0.5";
}

abbrev pub keepalive_queries : Setting
keepalive_queries = record { path = "scraper" ∷ "keepalive" ∷ "queries" ∷ []; default = null }

abbrev pub web_search_enabled : Setting
web_search_enabled = record {
  path = "scraper" ∷ "web_search" ∷ "enabled" ∷ [];
  default = flag false;
}

abbrev pub web_search_engines : Setting
web_search_engines = record {
  path = "scraper" ∷ "web_search" ∷ "engines" ∷ [];
  default = texts ("google" ∷ []);
}

abbrev pub web_search_request_timeout_seconds : Setting
web_search_request_timeout_seconds = record {
  path = "scraper" ∷ "web_search" ∷ "request_timeout_seconds" ∷ [];
  default = number "25.0";
}

abbrev pub web_search_max_in_flight : Setting
web_search_max_in_flight = record {
  path = "scraper" ∷ "web_search" ∷ "max_in_flight" ∷ [];
  default = number "4";
}

abbrev pub web_search_poll_interval_seconds : Setting
web_search_poll_interval_seconds = record {
  path = "scraper" ∷ "web_search" ∷ "poll_interval_seconds" ∷ [];
  default = number "0.25";
}

abbrev pub web_search_max_engine_attempts : Setting
web_search_max_engine_attempts = record {
  path = "scraper" ∷ "web_search" ∷ "max_engine_attempts" ∷ [];
  default = number "3";
}

abbrev pub web_search_job_ttl_seconds : Setting
web_search_job_ttl_seconds = record {
  path = "scraper" ∷ "web_search" ∷ "job_ttl_seconds" ∷ [];
  default = number "120";
}

abbrev pub saturation_canary_engines_setting : Setting
saturation_canary_engines_setting = record {
  path = "scraper" ∷ "saturation" ∷ "canary_engines" ∷ [];
  default = texts ("brave" ∷ []);
}

unfoldable pub saturation_canary_engines : Yaml → Yaml
saturation_canary_engines config =
    or_else (sequence no_items) (read saturation_canary_engines_setting config)

abbrev pub saturation_robust_threshold : Setting
saturation_robust_threshold = record {
  path = "scraper" ∷ "saturation" ∷ "robust_threshold" ∷ [];
  default = number "2";
}

abbrev pub scraper_settings : List Setting
scraper_settings =
    scrape_interval ∷ max_pages ∷ engines ∷ engine_strategy ∷ browser_recycle_cycles
    ∷ cooldown_enabled ∷ cooldown_base_seconds ∷ cooldown_max_seconds ∷ pacing_default_min_interval
    ∷ pacing_per_engine_setting ∷ pacing_jitter_ratio ∷ keepalive_enabled
    ∷ keepalive_interval_seconds ∷ keepalive_jitter_ratio ∷ keepalive_queries ∷ web_search_enabled
    ∷ web_search_engines ∷ web_search_request_timeout_seconds ∷ web_search_max_in_flight
    ∷ web_search_poll_interval_seconds ∷ web_search_max_engine_attempts ∷ web_search_job_ttl_seconds
    ∷ saturation_canary_engines_setting ∷ saturation_robust_threshold ∷ []

-- `min_interval_for`, before its conversion: the override of the engine, a null too, or the default
-- floor. None is the
-- AttributeError for a value without keys.
unfoldable pub override_or : Yaml → String → Entries → Yaml
override_or default engine no_entries = default
override_or default engine (entry k value rest) =
    if str_eq k engine then value else override_or default engine rest

abbrev pub interval_in : Yaml → String → Yaml → Option Yaml
interval_in default engine (mapping entries) = some (override_or default engine entries)
interval_in default engine null = none
interval_in default engine (flag b) = none
interval_in default engine (number n) = none
interval_in default engine (text s) = none
interval_in default engine (sequence s) = none

unfoldable pub min_interval_for : String → Yaml → Option Yaml
min_interval_for engine config =
    interval_in (read pacing_default_min_interval config) engine (pacing_per_engine config)
