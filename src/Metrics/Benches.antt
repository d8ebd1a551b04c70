-- ===== src/Metrics/Benches.antt =====
-- The engines that are benched in the table that api/v1/metrics.py reads.
use topicstreams.EngineTable.{EngineRow, EngineTable}
use topicstreams.Metrics.{is_fresh, live_cooldown, Benched, fresh_rows, add_live, live_engines}
use topicstreams.Base.{
  ℕ, String, ◌≡◌, refl, ap, subst, ◌∙◌, inl, inr, Bool, true, false, Option, none, some, List, [],
  ◌∷◌, arith, eq_iff, str_eq, if◌then◌else◌, Bool-cases, filter, member, get, keys, DistinctKeys,
  get_absent,
}

-- The state of an engine that is shown: its row if that is fresh, and its bench.
abbrev pub fresh_of : ℕ → Option EngineRow → Option EngineRow
fresh_of now none = none
fresh_of now (some r) = if is_fresh now r then some r else none

abbrev pub bench : EngineRow → Option ℕ → Option Benched
bench r none = none
bench r (some remaining) = some (record { remaining = remaining; failures = r.failures })

abbrev pub benched_of : ℕ → Option EngineRow → Option Benched
benched_of now none = none
benched_of now (some r) = bench r (live_cooldown now r)

pub get-fresh_rows :
    (x : String) (now : ℕ) (t : EngineTable)
    → DistinctKeys t
    → get x (fresh_rows now t) ≡ fresh_of now (get x t)
unfolding fresh_rows get
get-fresh_rows x now [] d = refl
get-fresh_rows x now (e ∷ t) d = elim (Bool-cases (str_eq e.0 x)) [
  | inr other ↦ ground (arith, other, get-fresh_rows x now t d.1)
  | inl same ↦
      let name : e.0 ≡ x = (eq_iff e.0 x).0 same in
      let gone : get x t ≡ none = subst (λ k. get k t ≡ none) name (get_absent e.0 t d.0) in
      ground (arith, same, get-fresh_rows x now t d.1, ap (fresh_of now) gone)
]

abbrev or_rest : Option Benched → Option Benched → Option Benched
or_rest none rest = rest
or_rest (some b) rest = some b

or_rest-none : (o : Option Benched) → or_rest o none ≡ o
or_rest-none none = refl
or_rest-none (some b) = refl

get-add_live :
    (x engine : String) (r : EngineRow) (o : Option ℕ) (rest : List (String × Benched))
    → get x (add_live engine r o rest)
      ≡ (if str_eq engine x then or_rest (bench r o) (get x rest) else get x rest)
unfolding get
get-add_live x engine r none rest = ground arith
get-add_live x engine r (some remaining) rest = refl

pub get-live_engines :
    (x : String) (now : ℕ) (t : EngineTable)
    → DistinctKeys t
    → get x (live_engines now t) ≡ benched_of now (get x t)
unfolding live_engines get
get-live_engines x now [] d = refl
get-live_engines x now (e ∷ t) d =
    get-add_live x e.0 e.1 (live_cooldown now e.1) (live_engines now t)
    ∙ elim (Bool-cases (str_eq e.0 x)) [
      | inr other ↦ rw other (get-live_engines x now t d.1)
      | inl same ↦
          let name : e.0 ≡ x = (eq_iff e.0 x).0 same in
          let gone : get x t ≡ none = subst (λ k. get k t ≡ none) name (get_absent e.0 t d.0) in
          rw same (
            ap (or_rest (bench e.1 (live_cooldown now e.1)))
              (get-live_engines x now t d.1 ∙ ap (benched_of now) gone)
            ∙ or_rest-none (bench e.1 (live_cooldown now e.1)))
    ]

-- A key of a dictionary is one that is found.
abbrev pub is_some {ℓ} : {A : Type ℓ} → Option A → Bool
is_some none = false
is_some (some x) = true

pub member-get : (x : String) (d : List (String × Benched)) → member x (keys d) ≡ is_some (get x d)
unfolding member get
member-get x [] = refl
member-get x (e ∷ d) = ground (arith, member-get x d)

absent_filter :
    (p : EngineRow → Bool) (k : String) (t : EngineTable)
    → member k (keys t) ≡ false
    → member k (keys (filter (λ e. p e.1) t)) ≡ false
unfolding member
absent_filter p k [] h = refl
absent_filter p k (e ∷ t) h = ground (arith, absent_filter p k t)

filter-DistinctKeys :
    (p : EngineRow → Bool) (t : EngineTable) → DistinctKeys t → DistinctKeys (filter (λ e. p e.1) t)
filter-DistinctKeys p [] d = tt
filter-DistinctKeys p (e ∷ t) d = elim (Bool-cases (p e.1)) [
  | inl kept ↦ rw kept (absent_filter p e.0 t d.0, filter-DistinctKeys p t d.1)
  | inr dropped ↦ rw dropped (filter-DistinctKeys p t d.1)
]

-- A stale row is not benched, whether it is read through the fresh rows or not.
pub benched_of-fresh_of :
    (now : ℕ) (o : Option EngineRow) → benched_of now (fresh_of now o) ≡ benched_of now o
unfolding live_cooldown
benched_of-fresh_of now none = refl
benched_of-fresh_of now (some r) = ground arith

pub fresh_rows-DistinctKeys :
    (now : ℕ) (t : EngineTable) → DistinctKeys t → DistinctKeys (fresh_rows now t)
unfolding fresh_rows
fresh_rows-DistinctKeys now t d = filter-DistinctKeys (is_fresh now) t d
