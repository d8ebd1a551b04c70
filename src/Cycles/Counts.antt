-- ===== src/Cycles/Counts.antt =====
-- What a window of scraper/worker.py reports of the scrapes that it gathered.
use topicstreams.Model.{NewsEntry, ScraperLog}
use topicstreams.Cycles.{
  CycleWindow, new_window, add_scrape, cycle_of, flush_window, Writes, is_set,
}
use topicstreams.Base.{
  ℕ, ◌+◌, ◌≡◌, refl, true, ◌&&◌, none, some, List, [], ◌∷◌, arith, ◌==◌, if◌then◌else◌, length,
  length-append,
}

-- The window after a number of scrapes.
abbrev pub gathered : List (List NewsEntry × List ScraperLog) → CycleWindow → CycleWindow
gathered [] w = w
gathered ((entries, logs) ∷ runs) w = gathered runs (add_scrape entries logs w)

-- The number of entries of the scrapes.
abbrev pub parsed : List (List NewsEntry × List ScraperLog) → ℕ
parsed [] = 0
parsed (r ∷ runs) = length r.0 + parsed runs

gathered_counts :
    (runs : List (List NewsEntry × List ScraperLog)) (w : CycleWindow)
    → ((gathered runs w).topics_count ≡ w.topics_count + length runs)
      × (length (gathered runs w).entries ≡ length w.entries + parsed runs)
      × ((gathered runs w).error_text ≡ w.error_text)
      × ((gathered runs w).success ≡ w.success)
unfolding add_scrape
gathered_counts [] w = (omega arith, omega arith, refl, refl)
gathered_counts ((entries, logs) ∷ runs) w =
    let rest = gathered_counts runs (add_scrape entries logs w) in
    (omega (arith, rest.0), omega (arith, rest.1, length-append w.entries entries), rest.2, rest.3)

-- A window of scrapes without an exception reports as many topics as scrapes, all entries that they
-- gave, and success exactly if entries and logs were written; a window without any scrape reports
-- nothing.
flush-gathered :
    (runs : List (List NewsEntry × List ScraperLog)) (writes : Writes)
    → writes.recorded ≡ true
    → (flush_window (gathered runs new_window) writes
        ≡ (if length runs == 0 then none else some (cycle_of (gathered runs new_window) writes)))
      × ((cycle_of (gathered runs new_window) writes).topics_count ≡ length runs)
      × ((cycle_of (gathered runs new_window) writes).entries_parsed ≡ parsed runs)
      × ((cycle_of (gathered runs new_window) writes).success
          ≡ (is_set writes.inserted && writes.logged))
unfolding flush_window cycle_of
flush-gathered runs writes written =
    let counts = gathered_counts runs new_window in
    (
      rw (counts.0, counts.2, written) (ground arith),
      omega (arith, counts.0),
      omega (arith, counts.1),
      rw (counts.3) refl,
    )
