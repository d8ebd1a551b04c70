-- ===== src/Schedule.antt =====
-- `_TopicSchedule` and `NewsTaskGenerator` of scraper/tasks.py. Times are whole ticks of the
-- monotonic clock, a ratio is in thousandths, and `uniform b` stands for `rng.uniform(0, b)`, drawn
-- for each topic. One call reads the clock once.
pub mod Heap
pub mod Invariant
pub mod NextDue
pub mod Cadence
mod Tests
use Prim.Native.String.{compare}
use text.Mathlib.Text.{is_le}
use topicstreams.Base.{
  stretch, ℕ, suc, ◌+◌, ◌-◌, ◌*◌, ◌/◌, min, String, Bool, not, ◌&&◌, List, [], ◌∷◌, ltb, leb, ◌==◌,
  if◌then◌else◌, length, cons_if, member, add, discard,
}

-- The keys of the heap, `(when, topic)`.
pub record Entry : Type 0 where
  pub when : ℕ
  pub topic : String

pub record Schedule : Type 0 where
  pub interval : ℕ
  pub jitter_ratio : ℕ
  pub heap : List Entry
  pub scheduled : List String
  pub active : List String

-- The order of texts, by code points.
abbrev pub str_leb : String → String → Bool
str_leb a b = is_le (compare a b)

-- Python compares tuples from the left.
abbrev pub entry_leb : Entry → Entry → Bool
entry_leb a b = if a.when == b.when then str_leb a.topic b.topic else ltb a.when b.when

-- `heapq` by its contract: the least entry is at the front, and pops come in order.
unfoldable pub heappush : Entry → List Entry → List Entry
heappush e [] = e ∷ []
heappush e (x ∷ xs) = let rest = heappush e xs in if entry_leb e x then e ∷ x ∷ xs else x ∷ rest

-- `_TopicSchedule.__init__`; a negative jitter ratio, which becomes 0, is no thousandth.
unfoldable pub init : ℕ → ℕ → Schedule
init interval jitter_ratio = record {
  interval = interval;
  jitter_ratio = jitter_ratio;
  heap = [];
  scheduled = [];
  active = [];
}

-- `_push`
unfoldable pub push : String → ℕ → Schedule → Schedule
push topic when s = record s {
  heap = heappush (record { when = when; topic = topic }) s.heap;
  scheduled = add topic s.scheduled;
}

-- The `for` loop of `seed`.
unfoldable pub seed_topics : (String → ℕ → ℕ) → ℕ → List String → Schedule → Schedule
seed_topics uniform now [] s = s
seed_topics uniform now (t ∷ ts) s =
    seed_topics uniform now ts (push t (now + uniform t s.interval) s)

unfoldable pub seed : (String → ℕ → ℕ) → ℕ → List String → Schedule → Schedule
seed uniform now topics s = seed_topics uniform now topics (record s { active = topics })

-- The body of the `for` loop of `reconcile`.
unfoldable pub ensure : (String → ℕ → ℕ) → ℕ → String → Schedule → Schedule
ensure uniform now t s = if member t s.scheduled then s else push t (now + uniform t s.interval) s

unfoldable pub reconcile_topics : (String → ℕ → ℕ) → ℕ → List String → Schedule → Schedule
reconcile_topics uniform now [] s = s
reconcile_topics uniform now (t ∷ ts) s = reconcile_topics uniform now ts (ensure uniform now t s)

unfoldable pub reconcile : (String → ℕ → ℕ) → ℕ → List String → Schedule → Schedule
reconcile uniform now topics s = reconcile_topics uniform now topics (record s { active = topics })

-- `interval * (1.0 + uniform(0.0, jitter_ratio))`
abbrev pub rearm_delay : (String → ℕ → ℕ) → String → Schedule → ℕ
rearm_delay uniform topic s = stretch s.interval (uniform topic s.jitter_ratio)

unfoldable pub reschedule : (String → ℕ → ℕ) → ℕ → String → Schedule → Schedule
reschedule uniform now topic s = push topic (now + rearm_delay uniform topic s) s

-- What `next_due` returns: `(topic, 0.0)`, `(None, seconds)` or `(None, None)`.
pub data Due : Type 0 where
  due : String → Due
  wait : ℕ → Due
  idle : Due

-- The `while` loop of `next_due`, over the heap: what it returns, and the heap and the scheduled
-- topics that it leaves.
unfoldable pub due_loop :
    List String → ℕ → List Entry → List String → Due × List Entry × List String
due_loop active now [] scheduled = (idle, [], scheduled)
due_loop active now (e ∷ rest) scheduled =
    let dropped = due_loop active now rest (discard e.topic scheduled) in
    if not (member e.topic active)
    then dropped
    else if ltb now e.when
    then (wait (e.when - now), e ∷ rest, scheduled)
    else (due e.topic, rest, discard e.topic scheduled)

unfoldable pub next_due : ℕ → Schedule → Due × Schedule
next_due now s =
    let found = due_loop s.active now s.heap s.scheduled in
    (found.0, record s { heap = found.1; scheduled = found.2 })

-- The comprehension of `backlog`: the times of the active entries that have come due.
unfoldable pub overdue : List String → ℕ → List Entry → List ℕ
overdue active now [] = []
overdue active now (e ∷ es) =
    cons_if (member e.topic active && leb e.when now) e.when (overdue active now es)

abbrev pub minimum_from : ℕ → List ℕ → ℕ
minimum_from m [] = m
minimum_from m (x ∷ xs) = minimum_from (min m x) xs

-- The end of `backlog`: how many there are, and how late the oldest is.
unfoldable pub backlog_of : ℕ → List ℕ → ℕ × ℕ
backlog_of now [] = (0, 0)
backlog_of now (w ∷ ws) = (suc (length ws), now - minimum_from w ws)

unfoldable pub backlog : ℕ → Schedule → ℕ × ℕ
backlog now s = backlog_of now (overdue s.active now s.heap)
