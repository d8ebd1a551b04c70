-- ===== src/Metrics/Engines.antt =====
-- Which engines the monitor of api/v1/metrics.py shows.
use topicstreams.EngineTable.{EngineRow, EngineTable}
use topicstreams.Sorting.{sorted, member-sorted}
use topicstreams.Metrics.{
  EngineStats, empty_engine_row, Benched, EngineMetrics, build_engine, fresh_rows, live_engines,
  rows_by_engine, with_benched, row_or_empty, get_metrics_engines, behind_lateness_factor,
}
use topicstreams.Metrics.Rows.{
  rows_by_engine-Keyed, member-rows_by_engine, with_benched_reads, member-with_benched,
}
use topicstreams.Metrics.Benches.{
  fresh_of, benched_of, is_some, get-fresh_rows, get-live_engines, member-get, benched_of-fresh_of,
  fresh_rows-DistinctKeys,
}
use topicstreams.Base.{
  ℕ, ◌*◌, String, ◌≡◌, refl, ap, ap₂, ◌∙◌, inl, inr, Bool, ◌||◌, Option, none, some, List, [], ◌∷◌,
  map, arith, eq_iff, str_eq, if◌then◌else◌, Bool-cases, member, get, keys, DistinctKeys,
}

-- The entry of an engine in the response.
unfoldable pub entry_of : String → List EngineMetrics → Option EngineMetrics
entry_of x [] = none
entry_of x (m ∷ ms) = if str_eq m.stats.engine x then some m else entry_of x ms

entry_of-map :
    (x : String) (f : String → EngineMetrics) (names : List String)
    → ((n : String) → (f n).stats.engine ≡ n)
    → entry_of x (map f names) ≡ (if member x names then some (f x) else none)
unfolding entry_of member
entry_of-map x f [] named = refl
entry_of-map x f (n ∷ names) named =
    let own : str_eq (f n).stats.engine x ≡ str_eq n x = ap (λ k. str_eq k x) (named n) in
    rw own (elim (Bool-cases (str_eq n x)) [
      | inl same ↦ rw same (ap (λ k. some (f k)) ((eq_iff n x).0 same))
      | inr other ↦ rw other (entry_of-map x f names named)
    ])

build_engine_name :
    (r : EngineStats) (b : Option Benched) (o : Option EngineRow) (threshold : ℕ)
    → (build_engine r b o threshold).stats ≡ r
unfolding build_engine
build_engine_name r none o threshold = refl
build_engine_name r (some b) o threshold = refl

-- The monitor shows exactly the engines that have scrapes in the window or are benched now, each
-- with its aggregates (zeros, when it has none), its bench, and the backlog of its row if that is
-- fresh.
pub get_metrics_engines-Shown :
    (now interval : ℕ) (stats : List EngineStats) (cooldowns : EngineTable) (x : String)
    → DistinctKeys cooldowns
    → let row = get x cooldowns in
      entry_of x (get_metrics_engines now interval stats cooldowns) ≡ (
        if member x (map (λ s. s.engine) stats) || is_some (benched_of now row)
        then some (
            build_engine
              (row_or_empty x (get x (rows_by_engine stats [])))
              (benched_of now row)
              (fresh_of now row)
              (interval * behind_lateness_factor))
        else none)
unfolding get_metrics_engines member get empty_engine_row
get_metrics_engines-Shown now interval stats cooldowns x d =
    let fresh : EngineTable = fresh_rows now cooldowns in
    let live : List (String × Benched) = live_engines now fresh in
    let base : List (String × EngineStats) = rows_by_engine stats [] in
    let rows : List (String × EngineStats) = with_benched live base in
    let threshold : ℕ = interval * behind_lateness_factor in
    let f : String → EngineMetrics =
      λ n. build_engine (row_or_empty n (get n rows)) (get n live) (get n fresh) threshold in
    let benched : get x live ≡ benched_of now (get x cooldowns) =
      get-live_engines x now fresh (fresh_rows-DistinctKeys now cooldowns d)
      ∙ ap (benched_of now) (get-fresh_rows x now cooldowns d)
      ∙ benched_of-fresh_of now (get x cooldowns) in
    let shown : member x (sorted (keys rows))
        ≡ (member x (map (λ s. s.engine) stats) || is_some (benched_of now (get x cooldowns))) =
      member-sorted x (keys rows)
      ∙ ground (
        arith,
        member-with_benched x live base,
        member-rows_by_engine x stats [],
        member-get x live,
        ap is_some benched,
      ) in
    let backlog : get x fresh ≡ fresh_of now (get x cooldowns) = get-fresh_rows x now cooldowns d in
    let named : (n : String) → (f n).stats.engine ≡ n = λ n.
      ap (λ (s : EngineStats). s.engine)
        (build_engine_name (row_or_empty n (get n rows)) (get n live) (get n fresh) threshold
          ∙ with_benched_reads n live base)
      ∙ rows_by_engine-Keyed stats [] (λ k. refl) n in
    let value : f x
        ≡ build_engine (row_or_empty x (get x base)) (benched_of now (get x cooldowns))
            (fresh_of now (get x cooldowns)) threshold =
      ap (λ r. build_engine r (get x live) (get x fresh) threshold) (with_benched_reads x live base)
      ∙ ap₂ (λ b o. build_engine (row_or_empty x (get x base)) b o threshold) benched backlog in
    entry_of-map x f (sorted (keys rows)) named
    ∙ ap₂ (λ (b : Bool) (m : EngineMetrics). if b then some m else none) shown value
