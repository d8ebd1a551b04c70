-- ===== src/Scraper.antt =====
-- scraper/scraper.py: one results page, the pages of a query on one engine, and a topic over the
-- engines. What the browser and an engine's parser give for a page is a parameter: `visit engine
-- query vertical now page` is the visit of a page that starts at `now`, in the default ordering and
-- recency, which all callers use. Times are ticks.
pub mod Pages
pub mod Topic
mod Tests
use topicstreams.Model.{ScraperLog}
use topicstreams.TaskQueue.{Vertical, news_vertical, web_vertical}
use topicstreams.Cooldown.{Decision, run, probe, skip, Tracker, decide, record_logs}
use Prim.Native.String.{◌++◌ as text_append}
use topicstreams.Base.{
  ℕ, zero, suc, ◌+◌, ◌-◌, ◌*◌, ◌/◌, ◌%◌, ◌^◌, ◌≤◌, ◌<◌, min, max, String, ◌≡◌, refl, sym, ap, ap₂,
  subst, ◌∙◌, ◌≢◌, ◌↔◌, ◌⊎◌, inl, inr, Bool, true, false, not, ◌&&◌, ◌||◌, Option, none, some, List,
  [], ◌∷◌, ◌++◌, map, reverse, arith, eq_iff, ltb, leb, ◌==◌, str_eq, if◌then◌else◌, ltb→lt, lt→ltb,
  leb→le, le→leb, ==_iff, tests, Bool-cases, Option-cases, length, take, any, all, cons_if, filter,
  is_empty, All, length-append, length-take, length-filter-le, length-cons_if-le, any-append,
  filter-append, length-map, member, add, discard, str_eq_self, member-add, member-discard,
  member-filter, get, put, keys, values, get-put, get-put_self, get-put_ne, get_elem?,
  get_elem?-middle, get_elem?_total, append_assoc, append-nil, stretch, stretch-ge, stretch_mono,
  All-filter, All-map, All-imp, drop, DistinctKeys, get_absent, member-put, put-DistinctKeys,
}

-- A page after its status was accepted: an exception, or the reason of a block, if one is detected,
-- and what the parser makes of each item.
pub data Loaded (Entry : Type 0) : Type 0 where
  crashed : String → Loaded Entry
  shown : Option String → List (Option Entry) → Loaded Entry

pub data Fetched (Entry : Type 0) : Type 0 where
  unreachable : String → Fetched Entry
  no_response : Fetched Entry
  responded : ℕ → Loaded Entry → Fetched Entry

-- A visit with the latency of its navigation and the time at which it is logged.
pub record Visit (Entry : Type 0) : Type 0 where
  pub fetch_ms : ℕ
  pub logged_at : ℕ
  pub fetched : Fetched Entry

-- The settings of `anti_detection_config` for HTTP errors.
pub record Handling : Type 0 where
  pub http_error_handling_enabled : Bool
  pub monitored_http_codes : List ℕ

unfoldable pub is_http_error : ℕ → Bool
is_http_error code = leb 400 code

-- The status ends the visit.
unfoldable pub is_rejected : Handling → ℕ → Bool
is_rejected h code =
    if h.http_error_handling_enabled
    then any (λ c. c == code) h.monitored_http_codes
    else is_http_error code

pub data Strategy : Type 0 where
  fallback all_engines rotate : Strategy

abbrev pub as_list : Option String → List String
as_list none = []
as_list (some engine) = engine ∷ []

-- `_engines_for_cycle`
unfoldable pub engines_for_cycle : List String → Strategy → ℕ → List String
engines_for_cycle [] strategy cycle = []
engines_for_cycle (e ∷ es) rotate cycle = as_list (get_elem? (e ∷ es) (cycle % length (e ∷ es)))
engines_for_cycle (e ∷ es) _ cycle = e ∷ es

-- `_yielded_results`
unfoldable pub yielded_results : List ScraperLog → Bool
yielded_results logs = any (λ log. log.success && ltb 0 log.entry_count) logs

abbrev pub is_fallback : Strategy → Bool
is_fallback fallback = true
is_fallback _ = false

-- The message of a detected block: `f"{source.name} blocked: {blocked_reason}"`.
unfoldable pub blocked_text : String → String → String
blocked_text engine reason = text_append engine (text_append " blocked: " reason)

-- `max_result_pages is not None and result_page_number > max_result_pages`
abbrev pub is_over : Option ℕ → ℕ → Bool
is_over none page = false
is_over (some limit) page = ltb limit page

module _ {Entry : Type 0} (handling : Handling) (stamp : String → Entry → Entry)
    (visit : String → String → Vertical → ℕ → ℕ → Visit Entry) where
  -- The items that parse, stamped with the engine.
  unfoldable pub parsed : String → List (Option Entry) → List Entry
  parsed engine [] = []
  parsed engine (none ∷ items) = parsed engine items
  parsed engine (some entry ∷ items) = stamp engine entry ∷ parsed engine items

  -- `_log`
  abbrev pub page_log :
      String → String → Visit Entry → Bool → Option ℕ → Option String → ℕ → ScraperLog
  page_log engine topic v success code message count = record {
    topic = topic;
    scraped_at = v.logged_at;
    success = success;
    http_status_code = code;
    error_message = message;
    entry_count = count;
    engine = engine;
    duration_ms = some v.fetch_ms;
  }

  -- The page behind an accepted status.
  unfoldable pub scrape_loaded :
      String → String → Visit Entry → ℕ → Loaded Entry → List Entry × ScraperLog
  scrape_loaded engine topic v code (crashed message) =
      ([], page_log engine topic v false none (some message) 0)
  scrape_loaded engine topic v code (shown (some reason) items) =
      ([], page_log engine topic v false (some code) (some (blocked_text engine reason)) 0)
  scrape_loaded engine topic v code (shown none items) =
      let entries = parsed engine items in
      (entries, page_log engine topic v true (some code) none (length entries))

  unfoldable pub scrape_fetched :
      String → String → Visit Entry → Fetched Entry → List Entry × ScraperLog
  scrape_fetched engine topic v (unreachable message) =
      ([], page_log engine topic v false none (some message) 0)
  scrape_fetched engine topic v no_response =
      ([], page_log engine topic v false none (some "No response received - Navigation failed") 0)
  scrape_fetched engine topic v (responded code loaded) =
      if is_rejected handling code
      then ([], page_log engine topic v false (some code) none 0)
      else scrape_loaded engine topic v code loaded

  -- `_scrape_one_page`
  unfoldable pub scrape_one_page : String → String → Vertical → ℕ → ℕ → List Entry × ScraperLog
  scrape_one_page engine topic vertical now page =
      let v = visit engine topic vertical now page in scrape_fetched engine topic v v.fetched

  -- What a turn of the `while` loop of `scrape_pages` does with its page, given the rest.
  unfoldable pub page_turn :
      Bool
      → List Entry × ScraperLog
      → List Entry × List ScraperLog × ℕ
      → List Entry × List ScraperLog × ℕ
  page_turn true page rest = ([], page.1 ∷ [], page.1.scraped_at)
  page_turn false page rest = (page.0 ++ rest.0, page.1 ∷ rest.1, rest.2)

  -- The page ends the loop: it has no entry or its visit failed.
  abbrev pub is_last : List Entry × ScraperLog → Bool
  is_last page = is_empty page.0 || not page.1.success

  -- The `while` loop on fuel, from a page number and a time; with the time of its end.
  unfoldable pub pages_loop :
      ℕ → String → String → Vertical → Option ℕ → ℕ → ℕ → List Entry × List ScraperLog × ℕ
  pages_loop zero engine topic vertical limit page now = ([], [], now)
  pages_loop (suc fuel) engine topic vertical limit page now =
      let got = scrape_one_page engine topic vertical now page in
      let rest = pages_loop fuel engine topic vertical limit (suc page) got.1.scraped_at in
      if is_over limit page then ([], [], now) else page_turn (is_last got) got rest

  -- The results in the order of the feed, or of their rank.
  unfoldable pub arranged :
      Vertical → List Entry × List ScraperLog × ℕ → List Entry × List ScraperLog × ℕ
  arranged news_vertical r = (reverse r.0, reverse r.1, r.2)
  arranged web_vertical r = r

  -- `scrape_pages`; with a limit its fuel is enough, and without one the loop is cut after `crawl`
  -- pages.
  unfoldable pub scrape_pages :
      ℕ → String → String → Vertical → Option ℕ → ℕ → List Entry × List ScraperLog × ℕ
  scrape_pages crawl engine topic vertical none now =
      arranged vertical (pages_loop crawl engine topic vertical none 1 now)
  scrape_pages crawl engine topic vertical (some limit) now =
      arranged vertical (pages_loop (suc limit) engine topic vertical (some limit) 1 now)

  -- What `scrape_topic` returns, with the tracker and the time that it leaves.
  pub record Scraped : Type 0 where
    pub entries : List Entry
    pub logs : List ScraperLog
    pub tracker : Option Tracker
    pub ended_at : ℕ

  abbrev pub gate : ℕ → Option Tracker → String → Decision
  gate now none engine = run
  gate now (some c) engine = decide now c engine

  abbrev pub recorded : ℕ → String → List ScraperLog → Option Tracker → Option Tracker
  recorded now engine logs none = none
  recorded now engine logs (some c) = some (record_logs now c engine logs)

  -- A turn of the `for` loop: a benched engine is skipped; `stops` ends the loop after a run.
  unfoldable pub engine_turn : Decision → Bool → Scraped → Scraped → Scraped → Scraped
  engine_turn skip stops skipped ran rest = skipped
  engine_turn run stops skipped ran rest = if stops then ran else record {
    entries = ran.entries ++ rest.entries;
    logs = ran.logs ++ rest.logs;
    tracker = rest.tracker;
    ended_at = rest.ended_at;
  }
  engine_turn probe stops skipped ran rest = if stops then ran else record {
    entries = ran.entries ++ rest.entries;
    logs = ran.logs ++ rest.logs;
    tracker = rest.tracker;
    ended_at = rest.ended_at;
  }

  -- One engine of the loop, recorded in the tracker.
  unfoldable pub scrape_engine : ℕ → String → String → Option ℕ → ℕ → Option Tracker → Scraped
  scrape_engine crawl engine topic limit now c =
      let pages = scrape_pages crawl engine topic news_vertical limit now in
      record {
        entries = pages.0;
        logs = pages.1;
        tracker = recorded pages.2 engine pages.1 c;
        ended_at = pages.2;
      }

  unfoldable pub engines_loop :
      ℕ → Strategy → String → Option ℕ → List String → ℕ → Option Tracker → Scraped
  engines_loop crawl strategy topic limit [] now c = record {
    entries = [];
    logs = [];
    tracker = c;
    ended_at = now;
  }
  engines_loop crawl strategy topic limit (e ∷ es) now c =
      let ran = scrape_engine crawl e topic limit now c in
      let skipped = engines_loop crawl strategy topic limit es now c in
      let rest = engines_loop crawl strategy topic limit es ran.ended_at ran.tracker in
      engine_turn (gate now c e) (is_fallback strategy && yielded_results ran.logs) skipped ran rest

  -- `scrape_topic`
  unfoldable pub scrape_topic :
      ℕ → List String → String → Strategy → ℕ → Option ℕ → ℕ → Option Tracker → Scraped
  scrape_topic crawl sources topic strategy cycle limit now c =
      engines_loop crawl strategy topic limit (engines_for_cycle sources strategy cycle) now c
