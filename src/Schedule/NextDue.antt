-- ===== src/Schedule/NextDue.antt =====
-- What `next_due` and `backlog` of scraper/tasks.py return, in terms of the entries of the heap.
use topicstreams.Schedule.{
  Entry, Schedule, Due, due, wait, idle, due_loop, next_due, overdue, minimum_from, backlog_of,
  backlog,
}
use topicstreams.Schedule.Heap.{has, IsSorted}
use topicstreams.Schedule.Invariant.{IsValid}
use topicstreams.Base.{
  ℕ, ◌+◌, ◌-◌, min, ◌&&◌, leb, ◌-◌, ◌≤◌, ◌<◌, min, String, ◌≡◌, refl, inl, inr, true, false, ◌&&◌,
  List, [], ◌∷◌, arith, eq_iff, ltb, leb, ltb→lt, Bool-cases, All, member, discard,
}

-- No entry of an active topic comes before the time.
abbrev pub NoneBefore : List String → ℕ → List Entry → Type 0
NoneBefore active w h = All (λ e. member e.topic active ≡ true → w ≤ e.when) h

-- The entry of an active topic, with none of an active topic before it.
pub record IsFirst (active : List String) (h : List Entry) (w : ℕ) (t : String) : Type 0 where
  pub live : member t active ≡ true
  pub there : has w t h ≡ true
  pub least : NoneBefore active w h

-- The outcomes of `next_due`: the first active topic if its time has come, how long until it comes,
-- or no active topic at all.
abbrev pub Answers : List String → ℕ → List Entry → Due → Type 0
Answers active now h (due t) = (w : ℕ) × IsFirst active h w t × (w ≤ now)
Answers active now h (wait n) = (t : String) × IsFirst active h (now + n) t × (0 < n)
Answers active now h idle = All (λ e. member e.topic active ≡ false) h

NoneBefore-of_sorted :
    (active : List String) (w : ℕ) (h : List Entry)
    → All (λ x. w ≤ x.when) h
    → NoneBefore active w h
NoneBefore-of_sorted active w [] a = tt
NoneBefore-of_sorted active w (x ∷ h) a = (λ _. a.0, NoneBefore-of_sorted active w h a.1)

head-IsFirst :
    (active : List String) (e : Entry) (h : List Entry) (w : ℕ)
    → IsSorted (e ∷ h)
    → member e.topic active ≡ true
    → w ≡ e.when
    → IsFirst active (e ∷ h) w e.topic
head-IsFirst active e h w s live p = record {
  live = live;
  there = ground (arith, eq_iff e.topic e.topic);
  least = (λ _. omega arith, NoneBefore-of_sorted active w h (rw p s.0));
}

-- A dropped head, of a topic that is not active, changes nothing.
skip-IsFirst :
    (active : List String) (e : Entry) (h : List Entry) (w : ℕ) (t : String)
    → member e.topic active ≡ false
    → IsFirst active h w t
    → IsFirst active (e ∷ h) w t
skip-IsFirst active e h w t gone f = record {
  live = f.live;
  there = ground (arith, f.there);
  least = (λ live. cc (live, gone), f.least);
}

skip-Answers :
    (active : List String) (now : ℕ) (e : Entry) (h : List Entry) (d : Due)
    → member e.topic active ≡ false
    → Answers active now h d
    → Answers active now (e ∷ h) d
skip-Answers active now e h (due t) gone (w, f, le) = (w, skip-IsFirst active e h w t gone f, le)
skip-Answers active now e h (wait n) gone (t, f, pos) =
    (t, skip-IsFirst active e h (now + n) t gone f, pos)
skip-Answers active now e h idle gone a = (gone, a)

due_loop-Answers :
    (active : List String) (now : ℕ) (h : List Entry) (scheduled : List String)
    → IsSorted h
    → Answers active now h (due_loop active now h scheduled).0
unfolding due_loop
due_loop-Answers active now [] scheduled s = tt
due_loop-Answers active now (e ∷ h) scheduled s = elim (Bool-cases (member e.topic active)) [
  | inr gone ↦ rw gone (
      skip-Answers active now e h _ gone
        (due_loop-Answers active now h (discard e.topic scheduled) s.1))
  | inl live ↦ elim (Bool-cases (ltb now e.when)) [
    | inl early ↦
        let lt = ltb→lt now e.when early in
        rw (live, early) (e.topic, head-IsFirst active e h _ s live (omega arith), omega arith)
    | inr late ↦ rw (live, late) (e.when, head-IsFirst active e h e.when s live refl, ground arith)
  ]
]

-- On a valid schedule `next_due` returns the topic of the first entry of an active topic if its
-- time has come, waits until that time if it has not, and is idle only if no entry has an active
-- topic.
pub next_due-Answers :
    (now : ℕ) (s : Schedule) → IsValid s → Answers s.active now s.heap (next_due now s).0
unfolding next_due
next_due-Answers now s v = due_loop-Answers s.active now s.heap s.scheduled v.sorted

minimum_from_least : (m : ℕ) (xs : List ℕ) → All (λ x. m ≤ x) xs → minimum_from m xs ≡ m
minimum_from_least m [] a = refl
minimum_from_least m (x ∷ xs) a =
    let e : min m x ≡ m = omega arith in rw e (minimum_from_least m xs a.1)

All-overdue :
    (active : List String) (now n : ℕ) (h : List Entry)
    → All (λ x. n ≤ x.when) h
    → All (λ w. n ≤ w) (overdue active now h)
unfolding overdue
All-overdue active now n [] a = tt
All-overdue active now n (e ∷ h) a = elim (Bool-cases (member e.topic active && leb e.when now)) [
  | inl b ↦ rw b (a.0, All-overdue active now n h a.1)
  | inr b ↦ rw b (All-overdue active now n h a.1)
]

overdue_none :
    (active : List String) (now n : ℕ) (h : List Entry)
    → now < n
    → All (λ x. n ≤ x.when) h
    → overdue active now h ≡ []
unfolding overdue
overdue_none active now n [] lt a = refl
overdue_none active now n (e ∷ h) lt a = ground (arith, overdue_none active now n h lt a.1, a.0)

-- What the backlog of the heap is, for each outcome of `next_due`.
abbrev pub Lags : List String → ℕ → List Entry → Due → ℕ × ℕ → Type 0
Lags active now h (due t) b =
    (w : ℕ) × IsFirst active h w t × (w ≤ now) × (1 ≤ b.0) × (b.1 ≡ now - w)
Lags active now h _ b = b ≡ (0, 0)

skip-Lags :
    (active : List String) (now : ℕ) (e : Entry) (h : List Entry) (d : Due) (b : ℕ × ℕ)
    → member e.topic active ≡ false
    → Lags active now h d b
    → Lags active now (e ∷ h) d b
skip-Lags active now e h (due t) b gone (w, f, le, some_due, late) =
    (w, skip-IsFirst active e h w t gone f, le, some_due, late)
skip-Lags active now e h _ b gone l = l

due_loop-Lags :
    (active : List String) (now : ℕ) (h : List Entry) (scheduled : List String)
    → IsSorted h
    → Lags active now h (due_loop active now h scheduled).0 (backlog_of now (overdue active now h))
unfolding due_loop overdue backlog_of
due_loop-Lags active now [] scheduled s = refl
due_loop-Lags active now (e ∷ h) scheduled s = elim (Bool-cases (member e.topic active)) [
  | inr gone ↦ rw gone (
      skip-Lags active now e h _ _ gone
        (due_loop-Lags active now h (discard e.topic scheduled) s.1))
  | inl live ↦ elim (Bool-cases (ltb now e.when)) [
    | inl early ↦
        let lt = ltb→lt now e.when early in
        let none_due : leb e.when now ≡ false = ground arith in
        rw (live, early, none_due, overdue_none active now e.when h lt s.0)
    | inr late ↦
        let now_due : leb e.when now ≡ true = ground arith in
        let least = minimum_from_least e.when _ (All-overdue active now e.when h s.0) in
        rw (live, late, now_due, least)
          (e.when, head-IsFirst active e h e.when s live refl, ground arith, omega arith, refl)
  ]
]

-- On a valid schedule the backlog is empty unless `next_due` has a topic to scrape, and then the
-- lateness is that topic's.
backlog-Lags :
    (now : ℕ) (s : Schedule)
    → IsValid s
    → Lags s.active now s.heap (next_due now s).0 (backlog now s)
unfolding next_due backlog
backlog-Lags now s v = due_loop-Lags s.active now s.heap s.scheduled v.sorted
