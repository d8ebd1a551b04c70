-- ===== src/Schedule/Invariant.antt =====
-- At most one pending entry for each topic: the heap and `_scheduled` agree, and every step of the
-- worker's loop keeps that (scraper/tasks.py, the use of it in scraper/worker.py).
use topicstreams.Schedule.{
  Entry, Schedule, init, push, seed_topics, seed, reconcile_topics, reconcile, ensure, Due, due,
  due_loop, next_due,
}
use topicstreams.Schedule.Heap.{count, count-heappush, IsSorted, heappush-IsSorted}
use topicstreams.Base.{
  ℕ, ◌+◌, String, ◌≡◌, refl, inl, inr, false, ◌||◌, List, [], ◌∷◌, arith, eq_iff, ltb, str_eq,
  if◌then◌else◌, Bool-cases, member, add, discard, member-add, member-discard,
}

-- A scheduled topic has exactly one entry, any other none.
abbrev pub Coalesced : List Entry → List String → Type 0
Coalesced heap scheduled = (t : String) → count t heap ≡ (if member t scheduled then 1 else 0)

pub record IsValid (s : Schedule) : Type 0 where
  pub sorted : IsSorted s.heap
  pub coalesced : Coalesced s.heap s.scheduled

pub init-IsValid : (interval jitter : ℕ) → IsValid (init interval jitter)
unfolding init member
init-IsValid interval jitter = record { sorted = tt; coalesced = λ t. refl }

pub push-IsValid :
    (t : String) (w : ℕ) (s : Schedule)
    → IsValid s
    → member t s.scheduled ≡ false
    → IsValid (push t w s)
unfolding push
push-IsValid t w s v new = record {
  sorted = heappush-IsSorted _ s.heap v.sorted;
  coalesced = λ u.
      let e : Entry = record { when = w; topic = t } in
      ground
        (arith, count-heappush u e s.heap, v.coalesced u, member-add t u s.scheduled, eq_iff t u);
}

-- A topic just pushed is scheduled.
member-push :
    (t u : String) (w : ℕ) (s : Schedule)
    → member u (push t w s).scheduled ≡ (str_eq t u || member u s.scheduled)
unfolding push
member-push t u w s = member-add t u s.scheduled

-- No topic of the list occurs twice, and none is scheduled already.
abbrev pub AllNew : List String → List String → Type 0
AllNew scheduled [] = Unit
AllNew scheduled (t ∷ ts) =
    (member t scheduled ≡ false) × (member t ts ≡ false) × AllNew scheduled ts

AllNew-add :
    (t : String) (scheduled ts : List String)
    → member t ts ≡ false
    → AllNew scheduled ts
    → AllNew (add t scheduled) ts
unfolding member
AllNew-add t scheduled [] new a = tt
AllNew-add t scheduled (u ∷ ts) new a = (
  ground (arith, member-add t u scheduled, eq_iff u t, eq_iff t u),
  a.1,
  AllNew-add t scheduled ts (ground arith) a.2,
)

seed_topics-IsValid :
    (uniform : String → ℕ → ℕ) (now : ℕ) (ts : List String) (s : Schedule)
    → AllNew s.scheduled ts
    → IsValid s
    → IsValid (seed_topics uniform now ts s)
unfolding seed_topics push
seed_topics-IsValid uniform now [] s a v = v
seed_topics-IsValid uniform now (t ∷ ts) s a v =
    seed_topics-IsValid uniform now ts _ (AllNew-add t s.scheduled ts a.1 a.2)
      (push-IsValid t _ s v a.0)

-- `seed` on a schedule where none of the topics is scheduled.
pub seed-IsValid :
    (uniform : String → ℕ → ℕ) (now : ℕ) (ts : List String) (s : Schedule)
    → AllNew s.scheduled ts
    → IsValid s
    → IsValid (seed uniform now ts s)
unfolding seed
seed-IsValid uniform now ts s a v =
    seed_topics-IsValid uniform now ts _ a (record { sorted = v.sorted; coalesced = v.coalesced })

module _ (uniform : String → ℕ → ℕ) (now : ℕ) where
  ensure-IsValid : (t : String) (s : Schedule) → IsValid s → IsValid (ensure uniform now t s)
  unfolding ensure
  ensure-IsValid t s v = elim (Bool-cases (member t s.scheduled)) [
    | inl old ↦ rw old v
    | inr new ↦ rw new (push-IsValid t _ s v new)
  ]

  member-ensure :
      (t u : String) (s : Schedule)
      → member u (ensure uniform now t s).scheduled ≡ (str_eq t u || member u s.scheduled)
  unfolding ensure
  member-ensure t u s = ground (arith, member-push t u (now + uniform t s.interval) s, eq_iff t u)

  reconcile_topics-IsValid :
      (ts : List String) (s : Schedule) → IsValid s → IsValid (reconcile_topics uniform now ts s)
  unfolding reconcile_topics
  reconcile_topics-IsValid [] s v = v
  reconcile_topics-IsValid (t ∷ ts) s v = reconcile_topics-IsValid ts _ (ensure-IsValid t s v)

  member-reconcile_topics :
      (ts : List String) (s : Schedule) (u : String)
      → member u (reconcile_topics uniform now ts s).scheduled
        ≡ (member u ts || member u s.scheduled)
  unfolding reconcile_topics member
  member-reconcile_topics [] s u = refl
  member-reconcile_topics (t ∷ ts) s u =
      ground (arith, member-ensure t u s, member-reconcile_topics ts (ensure uniform now t s) u)

pub reconcile-IsValid :
    (uniform : String → ℕ → ℕ) (now : ℕ) (ts : List String) (s : Schedule)
    → IsValid s
    → IsValid (reconcile uniform now ts s)
unfolding reconcile
reconcile-IsValid uniform now ts s v =
    reconcile_topics-IsValid uniform now ts _
      (record { sorted = v.sorted; coalesced = v.coalesced })

-- After `reconcile` the scheduled topics are those of before and the active ones.
member-reconcile :
    (uniform : String → ℕ → ℕ) (now : ℕ) (ts : List String) (s : Schedule) (u : String)
    → member u (reconcile uniform now ts s).scheduled ≡ (member u ts || member u s.scheduled)
unfolding reconcile
member-reconcile uniform now ts s u = member-reconcile_topics uniform now ts _ u

-- Dropping the head of the heap and its topic keeps the two in step.
Coalesced-tail :
    (e : Entry) (h : List Entry) (scheduled : List String)
    → Coalesced (e ∷ h) scheduled
    → Coalesced h (discard e.topic scheduled)
Coalesced-tail e h scheduled c t =
    ground (arith, c t, member-discard e.topic t scheduled, eq_iff e.topic t)

abbrev LoopValid : Due × List Entry × List String → Type 0
LoopValid r = IsSorted r.1 × Coalesced r.1 r.2

due_loop-valid :
    (active : List String) (now : ℕ) (h : List Entry) (scheduled : List String)
    → IsSorted h
    → Coalesced h scheduled
    → LoopValid (due_loop active now h scheduled)
unfolding due_loop
due_loop-valid active now [] scheduled s c = (tt, c)
due_loop-valid active now (e ∷ h) scheduled s c =
    let tail = Coalesced-tail e h scheduled c in
    elim (Bool-cases (member e.topic active)) [
      | inr gone ↦ rw gone (due_loop-valid active now h (discard e.topic scheduled) s.1 tail)
      | inl live ↦ elim (Bool-cases (ltb now e.when)) [
        | inl early ↦ rw (live, early) (s, c)
        | inr late ↦ rw (live, late) (s.1, tail)
      ]
    ]

pub next_due-IsValid : (now : ℕ) (s : Schedule) → IsValid s → IsValid (next_due now s).1
unfolding next_due
next_due-IsValid now s v =
    let kept = due_loop-valid s.active now s.heap s.scheduled v.sorted v.coalesced in
    record { sorted = kept.0; coalesced = kept.1 }

due_loop_pops :
    (active : List String) (now : ℕ) (h : List Entry) (scheduled : List String) (t : String)
    → (due_loop active now h scheduled).0 ≡ due t
    → member t (due_loop active now h scheduled).2 ≡ false
unfolding due_loop
due_loop_pops active now [] scheduled t e = cc
due_loop_pops active now (x ∷ h) scheduled t e = elim (Bool-cases (member x.topic active)) [
  | inr gone ↦ rw gone (due_loop_pops active now h (discard x.topic scheduled) t (rw gone at e))
  | inl live ↦ elim (Bool-cases (ltb now x.when)) [
    | inl early ↦ cc (live, early)
    | inr late ↦ ground (arith, member-discard x.topic t scheduled, eq_iff x.topic t)
  ]
]

-- The topic that `next_due` hands out is scheduled no more.
pub next_due_pops :
    (now : ℕ) (s : Schedule) (t : String)
    → (next_due now s).0 ≡ due t
    → member t (next_due now s).1.scheduled ≡ false
unfolding next_due
next_due_pops now s t e = due_loop_pops s.active now s.heap s.scheduled t e
