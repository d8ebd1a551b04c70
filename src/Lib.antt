-- ===== src/Lib.antt =====
-- Verification library of TopicStreams: the scheduler of one search engine's worker, the queue of
-- on-demand web searches between the scrapers and the API, the API's dispatcher, and the feed of news
-- with the parts of the API that read it, guard it and send it on.
--
-- The program. A scraper process runs a worker thread for each search engine. The worker pops tasks
-- from an `EngineTaskQueue` that merges three sources: on-demand web searches, topics whose next
-- scrape is due, and idle keep-alives. A cooldown tracker benches an engine that blocks. The API
-- process takes a search, picks an engine that is not benched, writes a job into the table
-- `web_search_jobs`, and polls the job's row until the engine's worker has answered it. The scraper
-- publishes its cooldowns and its backlog in the table `engine_cooldowns`, from which the API reads.
-- What a scrape finds goes into the tables `news`, `topic_news` and `topic_news_engines`; the API pages
-- through them, a notification for each new match goes to the WebSocket clients of its topic, and the
-- logs become the health signal and the monitor. Every request is checked against the bearer tokens of
-- the environment and of the table `api_keys`.
--
-- The files.
--   Base          shared names, Boolean tests on numbers and texts, lists, sets and dictionaries
--   Text          texts as lists of code points: `lower`, `strip`, the substring test
--   Sorting       `sorted` on names
--   Model         common/model.py: the records
--   BlockSignals  common/block_signals.py: `is_network_block`
--   Cooldown      scraper/cooldown.py: `classify_logs` and `EngineCooldownTracker` (`record` is
--                 `record_logs`)
--   Schedule      scraper/tasks.py: `_TopicSchedule`, the heap of topics by next eligible time
--   Heartbeat     scraper/keepalive.py: `KeepAliveHeartbeat`
--   Jobs          common/database.py: the statements on `web_search_jobs`
--   WebQueue      scraper/webqueue.py: the two web queues, as two instances of one interface
--                 (`Backend`)
--   TaskQueue     scraper/tasks.py: the tasks, the generators and `EngineTaskQueue`, over any
--                 `Backend`
--   Scraper       scraper/scraper.py: `_scrape_one_page`, `scrape_pages`, `scrape_topic`
--   Sources       scraper/sources: `get_source`, the tests on hosts, and how a blocked page is told
--   Cycles        scraper/worker.py: `_CycleWindow` and `_flush_window`
--   Worker        scraper/worker.py: `_Pacer`, `_execute_task` and a turn of the loop
--   Saturation    scraper/saturation.py: `SharedEngineState` and the two verdicts
--   EngineTable   common/database.py: the upserts on `engine_cooldowns`
--   Dispatch      api/websearch.py: `_healthy_engines`, `_await_result`, `dispatch_web_search`
--   SearchApi     api/v1/search.py: the endpoint
--   RateLimit     api/main.py: `RateLimitMiddleware`
--   Feed          common/database.py and api/v1/news.py: topics, `insert_news_entries`, the paged
--                 reads, the purge, and the endpoints
--   History       common/database.py: the tables of logs and of cycles
--   Supervisor    scraper/main.py: `_purge_old` and a round of `_supervise`
--   TopicNames    common/utils.py: `normalize_topic`; api/v1/topics.py: `_normalize_or_400`
--   Connections   common/database.py: `retry_on_transient_error` and `_Connection`
--   Auth          api/auth.py: the cache of tokens and the check; common/database.py: `api_keys`
--   Health        api/v1/status.py: `compute_health`
--   Metrics       api/v1/metrics.py: the labels and the list of the engines
--   Hub           api/v1/websocket: subscriptions, broadcasts, payloads, the reconnection
--   Config        common/config.py: `_get` and the properties
-- A file defines a component by its operations, and its child modules hold the proofs; `Tests` runs
-- the definitions on concrete inputs.
--
-- The state. An object is a record, and a method that changes it returns the new record. A method
-- that reads the clock takes the time as an argument, so two readings of one call are one reading.
-- Random draws are functions that are given the bound of the draw. A table of the database is a list
-- of rows, and a statement is a function on it: statements of different processes follow each other,
-- as they do in the database; only the capacity check of `enqueue_web_search` may count rows that are
-- older than the table (`enqueue_seen`), and the dispatcher makes it without such a race. Where the API
-- sleeps, the table changes by an arbitrary function.
--
-- The numbers. Times and durations are natural numbers of ticks in place of floating-point seconds,
-- and a ratio is a number of thousandths, so a jittered interval is rounded down. The counters of
-- the program are unbounded, as Python's are. `max(0.0, x)` in a constructor is nothing on these
-- numbers.
--
-- Python's containers are taken by what they promise: a heap of `heapq` is the list in order of
-- time and then of topic, a set is a list without repetition, and a dictionary is an association
-- list in the order of insertion. A set of topics is given as a list; its order is arbitrary.
--
-- Fuel. `await_result` has one unit more than the timeout has ticks; each round that goes on sleeps
-- for at least a tick, so the deadline comes before the fuel ends (`Dispatch.Awaits`). `scrape_pages`
-- has one unit more than its page limit (`Scraper.Pages`); without a limit the source goes on as long
-- as the engine has pages, and the model is cut after a given number of them. All other loops run
-- down a list or a bound.
--
-- What is not modelled. The engines' result pages, their URLs and their parsing (scraper/sources) and the
-- browser are parameters of Scraper and Worker: what a visit of a page comes to. Sources says only how
-- a page is told to be blocked. The worker's start, the
-- recycling of its browser context and its last flush are left out, as are common/settings.py, the
-- loading of files, the other endpoints, the static page, logging, and the scripts. The feed takes
-- `news_id_for_url`, the name of a topic as `TopicNames` gives it, and the way in which `execute_values` cuts the
-- values into statements as parameters. Of common/database.py the schema and the aggregates of the
-- metrics are left out, and of scraper/main.py the threads and their signals. A text that a column cannot hold is not modelled, and
-- of the constraints only those that are named. A set of subscribers that changes without changing its
-- size during a broadcast is not followed. The JSON form of the results of a job is taken to read back
-- as it was written. `lower` changes ASCII letters only: a message with a letter such as the Kelvin
-- sign, whose lower case is ASCII, and a topic with a capital letter outside ASCII are outside of the
-- model. The class `\w` of regular expressions is a parameter.
mod Base
pub mod Text
pub mod Sorting
pub mod Model
pub mod BlockSignals
pub mod Cooldown
pub mod Schedule
pub mod Heartbeat
pub mod WebQueue
pub mod Jobs
pub mod TaskQueue
pub mod Scraper
pub mod Sources
pub mod Saturation
pub mod Cycles
pub mod Worker
pub mod EngineTable
pub mod Dispatch
pub mod RateLimit
pub mod Feed
pub mod Auth
pub mod Health
pub mod Metrics
pub mod Connections
pub mod Hub
pub mod Config
pub mod History
pub mod Supervisor
pub mod TopicNames
pub mod SearchApi
