-- ===== src/Metrics/Rows.antt =====
-- The rows of the monitor of api/v1/metrics.py under their engines.
use topicstreams.Metrics.{
  EngineStats, empty_engine_row, Benched, rows_by_engine, with_benched, row_or_empty,
}
use topicstreams.Base.{
  String, ◌≡◌, refl, ap, subst, ◌∙◌, inl, inr, true, ◌||◌, none, some, List, [], ◌∷◌, map, arith,
  eq_iff, str_eq, Bool-cases, member, get, put, keys, get-put, get-put_ne, get_absent, member-put,
}

-- Every row stands under its engine.
abbrev pub Keyed : List (String × EngineStats) → Type 0
Keyed rows = (n : String) → (row_or_empty n (get n rows)).engine ≡ n

put-Keyed :
    (k : String) (r : EngineStats) (rows : List (String × EngineStats))
    → r.engine ≡ k
    → Keyed rows
    → Keyed (put k r rows)
unfolding empty_engine_row
put-Keyed k r rows own keyed n = elim (Bool-cases (str_eq k n)) [
  | inl same ↦
      let written : get n (put k r rows) ≡ some r = get-put k n r rows ∙ rw same refl in
      rw written (own ∙ (eq_iff k n).0 same)
  | inr other ↦ rw (get-put_ne k n r rows other) (keyed n)
]

pub rows_by_engine-Keyed :
    (stats : List EngineStats) (rows : List (String × EngineStats))
    → Keyed rows
    → Keyed (rows_by_engine stats rows)
unfolding rows_by_engine
rows_by_engine-Keyed [] rows keyed = keyed
rows_by_engine-Keyed (r ∷ stats) rows keyed =
    rows_by_engine-Keyed stats (put r.engine r rows) (put-Keyed r.engine r rows refl keyed)

pub member-rows_by_engine :
    (x : String) (stats : List EngineStats) (rows : List (String × EngineStats))
    → member x (keys (rows_by_engine stats rows))
      ≡ (member x (map (λ s. s.engine) stats) || member x (keys rows))
unfolding rows_by_engine member
member-rows_by_engine x [] rows = refl
member-rows_by_engine x (r ∷ stats) rows =
    ground
      (arith, member-rows_by_engine x stats (put r.engine r rows), member-put r.engine x r rows)

-- The synthesized rows do not change what is read for an engine without a row.
pub with_benched_reads :
    (x : String) (live : List (String × Benched)) (rows : List (String × EngineStats))
    → row_or_empty x (get x (with_benched live rows)) ≡ row_or_empty x (get x rows)
unfolding with_benched
with_benched_reads x [] rows = refl
with_benched_reads x (b ∷ live) rows = elim (Bool-cases (member b.0 (keys rows))) [
  | inl known ↦ rw known (with_benched_reads x live rows)
  | inr fresh ↦ rw fresh (
      with_benched_reads x live (put b.0 (empty_engine_row b.0) rows)
      ∙ elim (Bool-cases (str_eq b.0 x)) [
        | inl same ↦
            let name : b.0 ≡ x = (eq_iff b.0 x).0 same in
            let gone : get x rows ≡ none =
              subst (λ k. get k rows ≡ none) name (get_absent b.0 rows fresh) in
            let written : get x (put b.0 (empty_engine_row b.0) rows)
                ≡ some (empty_engine_row b.0) =
              get-put b.0 x (empty_engine_row b.0) rows ∙ rw same refl in
            rw written (rw gone (ap empty_engine_row name))
        | inr other ↦ ap (row_or_empty x) (get-put_ne b.0 x (empty_engine_row b.0) rows other)
      ])
]

pub member-with_benched :
    (x : String) (live : List (String × Benched)) (rows : List (String × EngineStats))
    → member x (keys (with_benched live rows)) ≡ (member x (keys live) || member x (keys rows))
unfolding with_benched member
member-with_benched x [] rows = refl
member-with_benched x (b ∷ live) rows = elim (Bool-cases (member b.0 (keys rows))) [
  | inl known ↦
      let own : str_eq b.0 x ≡ true → member x (keys rows) ≡ true =
        λ h. subst (λ k. member k (keys rows) ≡ true) ((eq_iff b.0 x).0 h) known in
      rw known (ground (arith, member-with_benched x live rows, own))
  | inr fresh ↦ rw fresh (
      ground (
        arith,
        member-with_benched x live (put b.0 (empty_engine_row b.0) rows),
        member-put b.0 x (empty_engine_row b.0) rows,
      ))
]
