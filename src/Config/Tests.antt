-- ===== src/Config/Tests.antt =====
-- Runs of common/config.py.
use topicstreams.Config.{
  Yaml, null, number, mapping, no_entries, entry, get_key, get_value, Setting, read, or_else,
}
use topicstreams.Config.Scraping.{
  max_pages, cooldown_base_seconds, pacing_per_engine, min_interval_for, override_or,
  scraper_settings,
}
use topicstreams.Config.AntiDetection.{anti_detection_settings}
use topicstreams.Config.HumanSimulation.{human_simulation_settings}
use topicstreams.Config.Paths.{are_apart}
use topicstreams.Base.{String, ◌≡◌, refl, Bool, true, ◌&&◌, some, List, [], ◌∷◌, ◌++◌}

abbrev file : Yaml
file = mapping (
    entry "scraper"
      (mapping (
        entry "max_pages" (number "3") (
          entry "cooldown" null (
            entry "pacing"
              (mapping
                (entry "per_engine" (mapping (entry "brave" (number "8") no_entries)) no_entries))
              no_entries))))
      no_entries)

pages_read : (read max_pages file ≡ number "3") × (read cooldown_base_seconds file ≡ number "300")
unfolding read get_value get_key
pages_read = (refl, refl)

brave_interval :
    (min_interval_for "brave" file ≡ some (number "8"))
    × (min_interval_for "bing" file ≡ some (number "2.0"))
unfolding min_interval_for pacing_per_engine override_or or_else read get_value get_key
brave_interval = (refl, refl)

-- No two properties of a configuration read paths that meet.
abbrev apart_from_all : List String → List Setting → Bool
apart_from_all p [] = true
apart_from_all p (s ∷ rest) = are_apart p s.path && apart_from_all p rest

abbrev all_apart : List Setting → Bool
all_apart [] = true
all_apart (s ∷ rest) = apart_from_all s.path rest && all_apart rest

all_properties_apart :
    all_apart (scraper_settings ++ anti_detection_settings ++ human_simulation_settings) ≡ true
unfolding are_apart
all_properties_apart = refl
