-- ===== src/Schedule/Cadence.antt =====
-- The freshness cadence of scraper/tasks.py: how a topic that was scraped is re-armed.
use topicstreams.Schedule.{
  Entry, Schedule, push, reschedule, rearm_delay, Due, due, wait, idle, next_due,
}
use topicstreams.Schedule.Heap.{has, has-heappush, count_of_has}
use topicstreams.Schedule.Invariant.{IsValid, push-IsValid}
use topicstreams.Schedule.NextDue.{Answers, next_due-Answers}
use topicstreams.Base.{ℕ, ◌+◌, ◌<◌, String, ◌≡◌, subst, ◌≢◌, true, false, arith, member}

pub reschedule-IsValid :
    (uniform : String → ℕ → ℕ) (now : ℕ) (t : String) (s : Schedule)
    → IsValid s
    → member t s.scheduled ≡ false
    → IsValid (reschedule uniform now t s)
unfolding reschedule
reschedule-IsValid uniform now t s v new = push-IsValid t _ s v new

due_at :
    (w : ℕ) (t : String) (when : ℕ) (s : Schedule)
    → IsValid s
    → member t s.scheduled ≡ false
    → has w t (push t when s).heap ≡ true
    → w ≡ when
unfolding push
due_at w t when s v new h =
    let e : Entry = record { when = when; topic = t } in
    ground (arith, has-heappush w t e s.heap, v.coalesced t, count_of_has w t s.heap, h)

early :
    (later when : ℕ) (t : String) (s : Schedule) (d : Due)
    → later < when
    → ((w : ℕ) → has w t s.heap ≡ true → w ≡ when)
    → Answers s.active later s.heap d
    → d ≢ due t
early later when t s (due u) lt only (w, f, le) e =
    let same : u ≡ t = cc in
    let there : has w t s.heap ≡ true = subst (λ x. has w x s.heap ≡ true) same f.there in
    let at = only w there in absurd (omega arith)
early later when t s (wait n) lt only a e = cc
early later when t s idle lt only a e = cc

-- A topic re-armed at `now` is not handed out again before an interval has passed.
reschedule_waits :
    (uniform : String → ℕ → ℕ) (now later : ℕ) (t : String) (s : Schedule)
    → IsValid s
    → member t s.scheduled ≡ false
    → later < now + s.interval
    → (next_due later (reschedule uniform now t s)).0 ≢ due t
unfolding reschedule
reschedule_waits uniform now later t s v new lt =
    let when : ℕ = now + rearm_delay uniform t s in
    early later when t (push t when s) _ (omega arith) (λ w h. due_at w t when s v new h)
      (next_due-Answers later (push t when s) (push-IsValid t when s v new))
