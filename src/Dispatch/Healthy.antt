-- ===== src/Dispatch/Healthy.antt =====
-- The health that api/websearch.py reads of an engine, against the cooldown tracker of the scraper
-- whose snapshot was published.
use topicstreams.Cooldown.{
  Decision, skip, EngineState, Tracker, CooldownSnapshot, decide_state, decide, remaining_state,
  remaining, snapshot,
}
use topicstreams.EngineTable.{EngineRow, EngineTable, with_cooldown, upsert_cooldowns}
use topicstreams.Dispatch.{is_healthy}
use topicstreams.Base.{
  ℕ, ◌+◌, ◌≤◌, not, String, ◌≡◌, refl, sym, ap, ap₂, ◌∙◌, inl, inr, Bool, true, false, ◌||◌, Option,
  none, some, List, [], ◌∷◌, map, arith, eq_iff, leb, ◌==◌, str_eq, if◌then◌else◌, Bool-cases,
  member, get, keys, get-put, get-put_ne, DistinctKeys,
}

-- What the supervisor hands to the database of a snapshot.
abbrev pub states_of : List CooldownSnapshot → List (String × ℕ × ℕ)
states_of snaps = map (λ s. (s.engine, s.failures, s.remaining_seconds)) snaps

abbrev pub names : List (String × ℕ × ℕ) → List String
names states = map (λ s. s.0) states

pub upsert_absent :
    (now : ℕ) (states : List (String × ℕ × ℕ)) (e : String) (t : EngineTable)
    → member e (names states) ≡ false
    → get e (upsert_cooldowns now states t) ≡ get e t
unfolding upsert_cooldowns member
upsert_absent now [] e t h = refl
upsert_absent now ((x, f, r) ∷ states) e t h =
    upsert_absent now states e _ (ground arith)
    ∙ get-put_ne x e (with_cooldown now f r (get x t)) t (ground arith)

-- The benched test on a row that was just written.
healthy_written :
    (now later failures remaining : ℕ) (old : Option EngineRow)
    → is_healthy later (some (with_cooldown now failures remaining old))
      ≡ (if failures == 0 then true else leb (now + remaining) later)
unfolding is_healthy with_cooldown
healthy_written now later f r none = ground arith
healthy_written now later f r (some x) = ground arith

abbrev pub runs : Decision → Bool
runs skip = false
runs _ = true

gate_agrees :
    (mono now d : ℕ) (s : EngineState)
    → runs (decide_state (mono + d) (some s))
      ≡ (if s.failures == 0 then true else leb (now + remaining_state mono (some s)) (now + d))
unfolding decide_state remaining_state
gate_agrees mono now d s = ground arith

module _ (left : String → ℕ) where
  -- A snapshot with the times left given by name.
  abbrev snap : List (String × EngineState) → List CooldownSnapshot
  snap d =
      map (λ x. record { engine = x.0; failures = x.1.failures; remaining_seconds = left x.0 }) d

  member-snap :
      (e : String) (d : List (String × EngineState))
      → member e (names (states_of (snap d))) ≡ member e (keys d)
  unfolding member
  member-snap e [] = refl
  member-snap e (x ∷ d) = ap (λ b. str_eq x.0 e || b) (member-snap e d)

  upserted :
      (now : ℕ) (d : List (String × EngineState)) (t : EngineTable) (e : String) (s : EngineState)
      → DistinctKeys d
      → get e d ≡ some s
      → (old : Option EngineRow) × (get e (upsert_cooldowns now (states_of (snap d)) t)
          ≡ some (with_cooldown now s.failures (left e) old))
  unfolding upsert_cooldowns get
  upserted now [] t e s k h = absurd (cc)
  upserted now (x ∷ d) t e s k h = elim (Bool-cases (str_eq x.0 e)) [
    | inr other ↦ upserted now d _ e s k.1 (rw other at h)
    | inl same ↦
        let name : x.0 ≡ e = (eq_iff x.0 e).0 same in
        let value : x.1 ≡ s = ground (arith, h, same) in
        let row = with_cooldown now x.1.failures (left x.0) (get x.0 t) in
        (
          get x.0 t,
          upsert_absent now (states_of (snap d)) e _
                (member-snap e d ∙ ap (λ y. member y (keys d)) (sym name) ∙ k.0)
              ∙ get-put x.0 e row t
              ∙ (rw same (
                  ap₂ (λ y z. some (with_cooldown now z.failures (left y) (get x.0 t))) name
                    value)),
        )
  ]

gate_opens :
    (mono later : ℕ) (o : Option EngineState)
    → mono ≤ later
    → (not (runs (decide_state mono o)) || runs (decide_state later o)) ≡ true
unfolding decide_state
gate_opens mono later none le = refl
gate_opens mono later (some s) le = ground arith

-- A worker's snapshot, taken at its tick `mono`, is written into the table some ticks later, `delay`,
-- over whatever is there, as the supervisor does in each of its rounds until the worker records again.
-- `d` ticks after the write, whatever the database's clock shows, the API takes an engine that the tracker
-- knows for healthy exactly when the gate would have let a request through `d` ticks after the snapshot.
-- So the API may bench an engine up to `delay` ticks longer than its worker, but it never takes an engine for
-- healthy whose gate is closed, while nothing is recorded since the snapshot.
pub healthy-decide :
    (mono now delay d : ℕ) (c : Tracker) (t : EngineTable) (e : String) (s : EngineState)
    → DistinctKeys c.state
    → get e c.state ≡ some s
    → let healthy =
        is_healthy (now + d) (get e (upsert_cooldowns now (states_of (snapshot mono c)) t)) in
      (healthy ≡ runs (decide (mono + d) c e))
      × ((not healthy || runs (decide (mono + delay + d) c e)) ≡ true)
unfolding snapshot decide remaining
healthy-decide mono now delay d c t e s k h =
    let (old, written) = upserted (remaining mono c) now c.state t e s k h in
    let agrees : is_healthy (now + d) (get e (upsert_cooldowns now (states_of (snapshot mono c)) t))
        ≡ runs (decide (mono + d) c e) =
      ap (is_healthy (now + d)) written
      ∙ healthy_written now (now + d) s.failures (remaining mono c e) old
      ∙ ap (λ n. if s.failures == 0 then true else leb (now + n) (now + d))
          (ap (remaining_state mono) h)
      ∙ sym (gate_agrees mono now d s)
      ∙ ap (λ o. runs (decide_state (mono + d) o)) (sym h) in
    (
      agrees,
      ap (λ z. not z || runs (decide (mono + delay + d) c e)) agrees
          ∙ gate_opens (mono + d) (mono + delay + d) (get e c.state) (omega arith),
    )
