-- ===== src/TaskQueue/Tests.antt =====
-- Runs of the task queue of scraper/tasks.py over the in-process web queue.
use topicstreams.Schedule.{Schedule, init, seed}
use topicstreams.Schedule.Invariant.{IsValid, AllNew, init-IsValid, seed-IsValid}
use topicstreams.Heartbeat.{Heartbeat}
use topicstreams.WebQueue.{waiting, WebSearchJob, WebSearchQueue, in_process}
use topicstreams.TaskQueue.{Queue, pop_ready}
use topicstreams.TaskQueue.Priority.{Chosen, pop_ready-Chosen}
use topicstreams.TaskQueue.Waiting.{Rests, pop_ready-Rests}
use topicstreams.Base.{ℕ, ◌/◌, String, refl, none, some, [], ◌∷◌, arith, member}

abbrev first : WebSearchJob
first = record { text = "cubical"; future = 0 }

abbrev second : WebSearchJob
second = record { text = "agda"; future = 1 }

abbrev web_queue : WebSearchQueue
web_queue = record {
  jobs = first ∷ second ∷ [];
  next_future = 2;
  futures = (1, waiting) ∷ (0, waiting) ∷ [];
}

abbrev spread : String → ℕ → ℕ
spread t n = n / 2

abbrev news_schedule : Schedule
news_schedule = seed spread 0 ("python" ∷ []) (init 60000 200)

news_new : AllNew (init 60000 200).scheduled ("python" ∷ [])
unfolding init member
news_new = (refl, refl, tt)

news_schedule-IsValid : IsValid news_schedule
news_schedule-IsValid =
    seed-IsValid spread 0 ("python" ∷ []) (init 60000 200) news_new (init-IsValid 60000 200)

abbrev heartbeat : Heartbeat
heartbeat = record {
  interval = 900000;
  jitter_ratio = 300;
  queries = "weather" ∷ [];
  cursor = 0;
  next_fire = 20000;
}

abbrev task_queue : Queue WebSearchQueue
task_queue = record {
  schedule = news_schedule;
  news_pages = some 2;
  web_state = some web_queue;
  web_pages = some 1;
  heartbeat = some heartbeat;
}

abbrev quiet_queue : Queue WebSearchQueue
quiet_queue = record task_queue { web_state = none }

pop_ready-Chosen_example : Chosen in_process 5 task_queue (pop_ready in_process 5 task_queue).0.0
pop_ready-Chosen_example = pop_ready-Chosen in_process 5 task_queue

pop_ready-Rests_example : Rests in_process 5 900 (pop_ready in_process 5 quiet_queue)
pop_ready-Rests_example =
    pop_ready-Rests in_process 5 900 quiet_queue (omega arith) news_schedule-IsValid
