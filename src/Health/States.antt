-- ===== src/Health/States.antt =====
-- What the states of `compute_health` in api/v1/status.py say of the latest outcomes.
use topicstreams.Model.{ScraperLog}
use topicstreams.Base.{
  String, Bool, false, not, ◌&&◌, ◌||◌, Option, none, some, List, str_eq, if◌then◌else◌, any,
  is_empty,
}

-- Some engine's latest outcome for the topic is there, and is a success.
abbrev pub seen : String → List ScraperLog → Bool
seen t latest = any (λ l. str_eq l.topic t) latest

abbrev pub succeeded : String → List ScraperLog → Bool
succeeded t latest = any (λ l. str_eq l.topic t && l.success) latest

-- The entry of `served` for a topic.
abbrev with_outcomes : Bool → Bool → Option Bool → Option Bool
with_outcomes looked good none = if looked then some good else none
with_outcomes looked good (some b) = some (b || good)

-- A topic has failed if its entry is false.
is_false : Option Bool → Bool
is_false none = false
is_false (some b) = not b

-- The state for the latest outcomes, whether the successes parse nothing, and the failing topics.
abbrev pub expected_state : Bool → Bool → List String → String
expected_state any_success quiet failing =
    if not any_success
    then "errors"
    else if quiet
    then "parsing"
    else if is_empty failing
    then "live"
    else "degraded"
