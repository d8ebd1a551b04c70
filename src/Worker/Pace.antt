-- ===== src/Worker/Pace.antt =====
-- The throttle of scraper/worker.py: `_Pacer` over the turns of the loop.
use topicstreams.WebQueue.{Backend}
use topicstreams.Worker.{Pacer, World, Worker, worker_turn}
use topicstreams.Base.{ℕ, ◌+◌, ◌≤◌, ◌≡◌, ◌⊎◌, some}

-- Turns of the loop, each at its own time.
pub data Turns (b : Backend) (w : World) (k : Worker b.State) : Worker b.State → Type 0 where
  start : Turns b w k k
  turn : {m : Worker b.State} → Turns b w k m → (now : ℕ) → Turns b w k (worker_turn b w now m).0

-- No task's run was paced since, or the last that was started only after the interval.
abbrev pub SpacedFrom : ℕ → ℕ → Pacer → Type 0
SpacedFrom last interval p =
    (p.min_interval ≡ interval)
    × ((p.last ≡ some last) ⊎ ((later : ℕ) × (p.last ≡ some later) × (last + interval ≤ later)))
