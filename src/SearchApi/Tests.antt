-- ===== src/SearchApi/Tests.antt =====
-- Answers of the search endpoint.
use topicstreams.Dispatch.{busy, WebSearchResult}
use topicstreams.Base.{none, []}

abbrev full : WebSearchResult
full = record { query = "cubical"; status = busy; engine = none; results = []; attempts = [] }
