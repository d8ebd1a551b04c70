-- ===== src/Jobs/Capacity.antt =====
-- The in-flight limit of `enqueue_web_search`, and the ids of the rows, in common/database.py.
use native.Mathlib.Nat.{le_refl}
use topicstreams.Jobs.{Row, Table, in_flight, new_row, insert_job, enqueue_seen, enqueue, fetch}
use topicstreams.Jobs.Rows.{Below, IsValid}
use topicstreams.Base.{
  ℕ, suc, ◌+◌, ◌-◌, max, ◌≤◌, ◌<◌, String, ◌≡◌, refl, ◌≢◌, ◌↔◌, inl, inr, Option, none, some, List,
  [], ◌∷◌, arith, eq_iff, ltb, Bool-cases, All-imp,
}

-- What an enqueue answers: a fresh id, whose row waits for its engine while the others stay, or
-- nothing, and then the table is as it was.
abbrev pub Enqueued : ℕ → String → String → Table → Option ℕ × Table → Type 0
Enqueued now query engine t (none, u) = u ≡ t
Enqueued now query engine t (some i, u) =
    (fetch i t.rows ≡ none)
    × (fetch i u.rows ≡ some (new_row now i query engine))
    × (in_flight engine u.rows ≡ suc (in_flight engine t.rows))
    × ((j : ℕ) → j ≢ i → fetch j u.rows ≡ fetch j t.rows)
    × IsValid u

fetch-above : (n i : ℕ) (rows : List Row) → Below n rows → n ≤ i → fetch i rows ≡ none
unfolding fetch
fetch-above n i [] b le = refl
fetch-above n i (r ∷ rows) b le = ground (arith, b.0, fetch-above n i rows b.1 le)

insert-Enqueued :
    (now : ℕ) (query engine : String) (t : Table)
    → IsValid t
    → Enqueued now query engine t (insert_job now query engine t)
unfolding insert_job fetch in_flight
insert-Enqueued now query engine t v = (
  fetch-above t.next_id t.next_id t.rows v.below (le_refl _),
  ground arith,
  ground (arith, eq_iff engine engine),
  λ j ne. ground arith,
  record {
    below = (le_refl _, All-imp (λ r. r.ident < t.next_id) _ t.rows (λ r h. omega arith) v.below);
    distinct = (v.below, v.distinct);
  },
)

raced :
    (seen : List Row) (now limit : ℕ) (query engine : String) (t : Table)
    → IsValid t
    → in_flight engine (enqueue_seen seen now query engine (some limit) t).1.rows
      ≤ max (in_flight engine t.rows) (limit + (in_flight engine t.rows - in_flight engine seen))
unfolding enqueue_seen
raced seen now limit query engine t v = elim (Bool-cases (ltb (in_flight engine seen) limit)) [
  | inl room ↦
      let more : in_flight engine (insert_job now query engine t).1.rows
          ≡ suc (in_flight engine t.rows) =
        (insert-Enqueued now query engine t v).2 in
      rw room (ground (arith, more, room))
  | inr full ↦ rw full (omega arith)
]

-- With a limit an enqueue answers exactly when the rows that its count sees have fewer open jobs of the
-- engine than the limit, and what it answers is a fresh pending job; otherwise the table stays as it is. If
-- other statements race with it, the count may be too low by the jobs that they opened, and the limit is
-- exceeded by no more than these; without a race (the count sees the table, and `enqueue` is this
-- statement) an engine within its limit stays within it.
pub enqueue-Enqueued :
    (seen : List Row) (now limit : ℕ) (query engine : String) (t : Table)
    → IsValid t
    → Enqueued now query engine t (enqueue_seen seen now query engine (some limit) t)
      × (((enqueue_seen seen now query engine (some limit) t).0 ≡ none)
          ↔ (limit ≤ in_flight engine seen))
      × (in_flight engine (enqueue_seen seen now query engine (some limit) t).1.rows
          ≤ max
              (in_flight engine t.rows)
              (limit + (in_flight engine t.rows - in_flight engine seen)))
      × (in_flight engine (enqueue now query engine (some limit) t).1.rows
          ≤ max (in_flight engine t.rows) limit)
unfolding enqueue enqueue_seen
enqueue-Enqueued seen now limit query engine t v =
    let added = insert-Enqueued now query engine t v in
    (
      elim (Bool-cases (ltb (in_flight engine seen) limit)) [
        | inl room ↦ rw room added
        | inr full ↦ rw full refl
      ],
      ground arith,
      raced seen now limit query engine t v,
      omega (arith, raced t.rows now limit query engine t v),
    )
