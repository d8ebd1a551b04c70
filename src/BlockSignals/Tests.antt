-- ===== src/BlockSignals/Tests.antt =====
-- A message of the browser.
use topicstreams.Text.{codes}
use topicstreams.Base.{ℕ, List}

abbrev reset_message : List ℕ
reset_message = codes "page.goto: net::ERR_CONNECTION_RESET"
