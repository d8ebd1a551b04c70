-- ===== src/Cycles/Tests.antt =====
-- A window of two scrapes.
use topicstreams.Model.{NewsEntry, ScraperLog}
use topicstreams.Cycles.{Writes}
use topicstreams.Base.{true, false, some, List, [], ◌∷◌}

abbrev two_scrapes : List (List NewsEntry × List ScraperLog)
two_scrapes = ([], []) ∷ ([], []) ∷ []

abbrev writes : Writes
writes = record { inserted = some 0; logged = false; recorded = true }
