-- ===== src/Supervisor/Rounds.antt =====
-- What a round of the supervisor of scraper/main.py publishes of the engines.
use topicstreams.Cooldown.{CooldownSnapshot}
use topicstreams.TaskQueue.{SchedulerHealth}
use topicstreams.EngineTable.{EngineRow, EngineTable, with_cooldown, probe_time, upsert_cooldowns}
use topicstreams.EngineTable.Published.{cooldown_columns, upsert_backlog-keeps}
use topicstreams.Dispatch.Healthy.{states_of, names, upsert_absent}
use topicstreams.Saturation.{SharedEngineState, all_snapshots, health_all}
use topicstreams.Supervisor.{
  World, Settings, Faults, purge_old, publish_cooldowns, publish_backlog, supervise_round,
}
use topicstreams.Base.{
  ℕ, String, ◌≡◌, refl, sym, ap, ap₂, subst, ◌∙◌, inl, inr, Bool, true, false, ◌||◌, Option, none,
  some, List, [], ◌∷◌, arith, eq_iff, str_eq, if◌then◌else◌, Bool-cases, is_empty, All, member, get,
  put, keys, values, get-put_self, DistinctKeys,
}

-- The workers publish a snapshot under its engine's name.
abbrev pub Named : List (String × CooldownSnapshot) → Type 0
Named d = All (λ x. x.1.engine ≡ x.0) d

member-names :
    (e : String) (d : List (String × CooldownSnapshot))
    → Named d
    → member e (names (states_of (values d))) ≡ member e (keys d)
unfolding member
member-names e [] n = refl
member-names e (x ∷ d) n = ap₂ (λ k b. str_eq k e || b) (n.0) (member-names e d n.1)

written :
    (now f r : ℕ) (o : Option EngineRow)
    → cooldown_columns (some (with_cooldown now f r o)) ≡ (f, probe_time now f r)
unfolding with_cooldown
written now f r none = refl
written now f r (some x) = refl

upserted_columns :
    (now : ℕ) (d : List (String × CooldownSnapshot)) (t : EngineTable) (e : String)
    (s : CooldownSnapshot)
    → DistinctKeys d
    → Named d
    → get e d ≡ some s
    → cooldown_columns (get e (upsert_cooldowns now (states_of (values d)) t))
      ≡ (s.failures, probe_time now s.failures s.remaining_seconds)
unfolding upsert_cooldowns get
upserted_columns now [] t e s k n h = absurd (cc)
upserted_columns now (x ∷ d) t e s k n h = elim (Bool-cases (str_eq x.0 e)) [
  | inr other ↦ upserted_columns now d _ e s k.1 n.1 (rw other at h)
  | inl same ↦
      let name : x.1.engine ≡ e = n.0 ∙ (eq_iff x.0 e).0 same in
      let value : x.1 ≡ s = ground (arith, h, same) in
      let row : EngineRow =
        with_cooldown now x.1.failures x.1.remaining_seconds (get x.1.engine t) in
      let stored : get e (put x.1.engine row t) ≡ some row =
        subst (λ y. get y (put x.1.engine row t) ≡ some row) name (get-put_self x.1.engine row t) in
      let kept : get e (upsert_cooldowns now (states_of (values d)) (put x.1.engine row t))
          ≡ some row =
        upsert_absent now (states_of (values d)) e (put x.1.engine row t)
          (member-names e d n.1 ∙ ap (λ y. member y (keys d)) (sym ((eq_iff x.0 e).0 same)) ∙ k.0)
        ∙ stored in
      ap cooldown_columns kept
      ∙ written now x.1.failures x.1.remaining_seconds (get x.1.engine t)
      ∙ ap (λ (z : CooldownSnapshot). (z.failures, probe_time now z.failures z.remaining_seconds))
          value
]

purge_old_engines :
    (now : ℕ) (s : Settings) (f : Faults) (w : World) → (purge_old now s f w).engines ≡ w.engines
unfolding purge_old
purge_old_engines now s f w = ground arith

backlog_keeps_cooldown :
    (now : ℕ) (f : Faults) (healths : List (String × SchedulerHealth)) (e : String)
    (t : EngineTable)
    → cooldown_columns (get e (publish_backlog now f healths t)) ≡ cooldown_columns (get e t)
unfolding publish_backlog
backlog_keeps_cooldown now f healths e t = elim (Bool-cases (is_empty healths || f.backlog)) [
  | inl silent ↦ rw silent refl
  | inr speaks ↦ rw speaks (upsert_backlog-keeps now _ e t)
]

branches :
    {A : Type 0} {x a c : A}
    → (b : Bool) → (b ≡ true → x ≡ a)
    → (b ≡ false → x ≡ c)
    → x ≡ (if b then a else c)
branches true on off = on refl
branches false on off = off refl

get-nonempty :
    {V : Type 0}
    → (e : String) (d : List (String × V)) (v : V) → get e d ≡ some v
    → is_empty (values d) ≡ false
unfolding get
get-nonempty e [] v h = absurd (cc)
get-nonempty e (x ∷ d) v h = refl

unpublished :
    (now : ℕ) (f : Faults) (snapshots : List CooldownSnapshot) (t : EngineTable)
    → f.cooldowns ≡ true
    → publish_cooldowns now f snapshots t ≡ t
unfolding publish_cooldowns
unpublished now f snapshots t raises = ground (arith, raises)

published :
    (now : ℕ) (f : Faults) (snapshots : List CooldownSnapshot) (t : EngineTable)
    → f.cooldowns ≡ false
    → is_empty snapshots ≡ false
    → publish_cooldowns now f snapshots t ≡ upsert_cooldowns now (states_of snapshots) t
unfolding publish_cooldowns
published now f snapshots t works some_state = rw works rw some_state refl

-- After a round the API reads of every engine with a snapshot exactly the failures and the probe time
-- of that snapshot, whichever of the purges and of the publication of the backlog raise; if the
-- publication of the cooldowns itself raises, it reads what it read before.
pub supervise_round-published :
    (now : ℕ) (s : Settings) (f : Faults) (shared : SharedEngineState) (w : World) (e : String)
    (snap : CooldownSnapshot)
    → DistinctKeys shared.snapshots
    → Named shared.snapshots
    → get e shared.snapshots ≡ some snap
    → cooldown_columns (get e (supervise_round now s f shared w).1.engines) ≡ (
        if f.cooldowns
        then cooldown_columns (get e w.engines)
        else (snap.failures, probe_time now snap.failures snap.remaining_seconds))
unfolding supervise_round all_snapshots
supervise_round-published now s f shared w e snap k n h =
    backlog_keeps_cooldown now f (health_all shared) e
      (publish_cooldowns now f (all_snapshots shared) (purge_old now s f w).engines)
    ∙ ap (λ t. cooldown_columns (get e (publish_cooldowns now f (all_snapshots shared) t)))
        (purge_old_engines now s f w)
    ∙ branches f.cooldowns
        (λ raises.
          ap (λ t. cooldown_columns (get e t))
            (unpublished now f (values shared.snapshots) w.engines raises))
        (λ works.
          ap (λ t. cooldown_columns (get e t))
            (published now f (values shared.snapshots) w.engines works
              (get-nonempty e shared.snapshots snap h))
          ∙ upserted_columns now shared.snapshots w.engines e snap k n h)
