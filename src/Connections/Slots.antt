-- ===== src/Connections/Slots.antt =====
-- No block of common/database.py loses a slot of the semaphore, and no slot is given out twice.
use topicstreams.Connections.{Pool, Calls, committed, rolled_back, unfinished, Block}
use topicstreams.Base.{◌+◌, ◌≡◌, not, ◌&&◌, ◌||◌, Option, none, some, if◌then◌else◌}

-- A block runs if a slot is free.
abbrev pub Balanced : Calls → Pool → Option Block → Type 0
Balanced c p none = p.free_slots ≡ 0
Balanced c p (some b) =
    (b.pool.free_slots ≡ p.free_slots)
    × (b.pool.checked_out ≡ p.checked_out + (if c.opens && c.put_raises then 1 else 0))
    × (b.raises ≡ (not c.opens || c.body_raises || c.finish_raises || c.put_raises))
    × (b.finish ≡ (
        if not c.opens || c.finish_raises
        then unfinished
        else if c.body_raises
        then rolled_back
        else committed))
