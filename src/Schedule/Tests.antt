-- ===== src/Schedule/Tests.antt =====
-- Runs of the schedule of scraper/tasks.py on two topics.
use topicstreams.Schedule.{
  seed_topics, push, heappush, due_loop, Schedule, init, seed, reschedule, due, wait, next_due,
}
use topicstreams.Schedule.Invariant.{AllNew, IsValid, seed-IsValid, init-IsValid}
use topicstreams.Schedule.NextDue.{Answers, next_due-Answers}
use topicstreams.Base.{
  ℕ, ◌/◌, String, ◌≡◌, refl, List, [], ◌∷◌, str_eq, if◌then◌else◌, member, discard,
}

-- A draw of the jitter: half of what is allowed, and nothing for one of the topics.
abbrev half : String → ℕ → ℕ
half t n = if str_eq t "python" then 0 else n / 2

abbrev topics : List String
topics = "python" ∷ "rust" ∷ []

-- An interval of a minute, with a jitter of 20%, seeded at 0.
abbrev empty_schedule : Schedule
empty_schedule = init 60000 200

abbrev booted : Schedule
booted = seed half 0 topics empty_schedule

seeded :
    booted.heap
    ≡ record { when = 0; topic = "python" } ∷ record { when = 30000; topic = "rust" } ∷ []
unfolding init seed seed_topics push heappush
seeded = refl

topics_new : AllNew empty_schedule.scheduled topics
unfolding init member
topics_new = (refl, refl, (refl, refl, tt))

booted-IsValid : IsValid booted
unfolding init
booted-IsValid = seed-IsValid half 0 topics empty_schedule topics_new (init-IsValid 60000 200)

python_first : (next_due 0 booted).0 ≡ due "python"
unfolding init seed seed_topics push heappush next_due due_loop member discard
python_first = refl

rust_later : (next_due 100 (next_due 0 booted).1).0 ≡ wait 29900
unfolding init seed seed_topics push heappush next_due due_loop member discard
rust_later = refl

-- The schedule after a run that starts at 0 and ends at 5000.
abbrev rearmed : Schedule
rearmed = reschedule half 5000 "python" (next_due 0 booted).1

next_due-Answers_example : Answers booted.active 100 booted.heap (next_due 100 booted).0
next_due-Answers_example = next_due-Answers 100 booted booted-IsValid
