-- ===== src/Worker/Tests.antt =====
-- Turns of the worker of one engine.
use topicstreams.Schedule.{init}
use topicstreams.Schedule.Invariant.{IsValid}
use topicstreams.Cooldown.{decide, decide_state}
use topicstreams.Jobs.{Table, complete, empty}
use topicstreams.WebQueue.{WebSearchQueue, in_process, cross_process}
use topicstreams.TaskQueue.{web, seed}
use topicstreams.Saturation.{start}
use topicstreams.Scraper.{Visit, responded, shown, Handling}
use topicstreams.Worker.{
  new_window, World, Worker, pace, pace_after, execute_task, finish, tick, worker_turn,
}
use topicstreams.Worker.Pace.{Turns, turn}
use topicstreams.Worker.Invariant.{loop-IsValid}
use topicstreams.Worker.Gate.{Benched, worker_turn-Benched}
use topicstreams.Worker.Shutdown.{up, stopped_search}
use topicstreams.Base.{ℕ, ◌+◌, ◌/◌, ◌≡◌, refl, true, none, some, [], ◌∷◌, leb, member, get}

abbrev handling : Handling
handling = record {
  http_error_handling_enabled = true;
  monitored_http_codes = 403 ∷ 429 ∷ 503 ∷ [];
}

abbrev blank_page : {A : Type 0} → ℕ → Visit A
blank_page now = record {
  fetch_ms = 40;
  logged_at = now + 900;
  fetched = responded 200 (shown none []);
}

-- A world that sleeps as long as it is asked, and stops at a time.
abbrev world : ℕ → World
world stop = record {
  engine = "bing";
  interval = 60000;
  uniform = λ t n. n / 2;
  draw = λ n. 0;
  woken = λ now length. now + length;
  is_stopping = λ now. leb stop now;
  active_topics = λ now. some ("python" ∷ []);
  writes = λ entries logs. record { inserted = some 0; logged = true; recorded = true };
  refused_page = λ now. none;
  crawl = 9;
  handling = handling;
  stamp_news = λ engine entry. entry;
  stamp_web = λ engine entry. entry;
  visit_news = λ engine query vertical now page. blank_page now;
  visit_web = λ engine query vertical now page. blank_page now;
}

abbrev worker_over : {State : Type 0} → State → Worker State
worker_over s = record {
  queue = record {
    schedule = init 60000 200;
    news_pages = some 2;
    web_state = some s;
    web_pages = some 1;
    heartbeat = none;
  };
  pacer = record { min_interval = 5000; jitter_ratio = 200; last = some 1000 };
  cooldown = none;
  shared = start;
  window = new_window;
  cycles = [];
  next_tick = 0;
}

abbrev no_searches : WebSearchQueue
no_searches = record { jobs = []; next_future = 0; futures = [] }

abbrev one_search : WebSearchQueue
one_search = record {
  jobs = record { text = "cubical"; future = 0 } ∷ [];
  next_future = 1;
  futures = [];
}

abbrev after_search : Worker WebSearchQueue
after_search = (worker_turn in_process (world 99999) 2000 (worker_over one_search)).0

abbrev booted : Worker WebSearchQueue
booted = record (worker_over one_search) {
  queue = seed in_process (world 99999).uniform 0 ("python" ∷ []) (worker_over one_search).queue;
}

loop-IsValid_example : IsValid (worker_turn in_process (world 99999) 2000 booted).0.queue.schedule
unfolding member
loop-IsValid_example =
    loop-IsValid in_process (world 99999) 60000 200 0 ("python" ∷ []) (worker_over one_search).queue
      booted (worker_turn in_process (world 99999) 2000 booted).0 (refl, refl, tt) refl refl
      (turn Turns.start 2000)

abbrev benched : Worker WebSearchQueue
benched = record (worker_over one_search) {
  cooldown = some (record {
    base_seconds = 300000;
    max_seconds = 3600000;
    state = ("bing", record { failures = 1; next_probe = 400000 }) ∷ [];
  });
}

worker_turn-Benched_example :
    Benched in_process
      (world 99999)
      2000
      (tick in_process (world 99999) 2000 benched)
      (worker_turn in_process (world 99999) 2000 benched)
unfolding tick decide decide_state get
worker_turn-Benched_example = worker_turn-Benched in_process (world 99999) 2000 benched refl

abbrev no_jobs : Table
no_jobs = record { next_id = 2; rows = [] }

stopped_search_example :
    (finish
      (cross_process up "bing" none)
      (world 3000)
      (web (record { ident = 1; text = "cubical" }) (some 1))
      (execute_task
        (cross_process up "bing" none)
        (world 3000)
        2000
        (web (record { ident = 1; text = "cubical" }) (some 1))
        (worker_over no_jobs))
      (worker_over no_jobs).queue
      (worker_over no_jobs)).queue.web_state
    ≡ some (
        complete
          (pace (cross_process up "bing" none) (world 3000) 2000 (worker_over no_jobs).pacer).0
          1
          empty
          (some [])
          none
          no_jobs)
unfolding pace pace_after
stopped_search_example =
    stopped_search (world 3000) "bing" none 2000 (record { ident = 1; text = "cubical" }) (some 1)
      no_jobs (worker_over no_jobs).queue (worker_over no_jobs) refl refl
