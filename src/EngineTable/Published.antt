-- ===== src/EngineTable/Published.antt =====
-- The two publishers of an engine's row in `engine_cooldowns`: neither touches the other's columns.
use topicstreams.EngineTable.{
  EngineRow, EngineTable, with_cooldown, with_backlog, upsert_cooldowns, upsert_backlog,
}
use topicstreams.Base.{
  ℕ, String, ◌≡◌, refl, ap, ◌∙◌, inl, inr, Option, none, some, List, [], ◌∷◌, eq_iff, str_eq,
  Bool-cases, get, put, get-put, get-put_ne,
}

-- The columns of the backlog, and those of the cooldown; an engine without a row has their defaults.
abbrev pub backlog_columns : Option EngineRow → ℕ × ℕ
backlog_columns none = (0, 0)
backlog_columns (some r) = (r.overdue_count, r.max_lateness)

abbrev pub cooldown_columns : Option EngineRow → ℕ × Option ℕ
cooldown_columns none = (0, none)
cooldown_columns (some r) = (r.failures, r.next_probe_at)

put_keeps :
    {A : Type 0} (columns : Option EngineRow → A) (x e : String) (row : EngineRow) (t : EngineTable)
    → columns (some row) ≡ columns (get x t)
    → columns (get e (put x row t)) ≡ columns (get e t)
put_keeps columns x e row t h = elim (Bool-cases (str_eq x e)) [
  | inl same ↦
      let name : x ≡ e = (eq_iff x e).0 same in
      ap columns (get-put x e row t ∙ (rw same refl)) ∙ h ∙ ap (λ y. columns (get y t)) name
  | inr other ↦ ap columns (get-put_ne x e row t other)
]

cooldown_keeps :
    (now f r : ℕ) (o : Option EngineRow)
    → backlog_columns (some (with_cooldown now f r o)) ≡ backlog_columns o
unfolding with_cooldown
cooldown_keeps now f r none = refl
cooldown_keeps now f r (some x) = refl

backlog_keeps :
    (now n l : ℕ) (o : Option EngineRow)
    → cooldown_columns (some (with_backlog now n l o)) ≡ cooldown_columns o
unfolding with_backlog
backlog_keeps now n l none = refl
backlog_keeps now n l (some x) = refl

upsert_cooldowns-keeps :
    (now : ℕ) (states : List (String × ℕ × ℕ)) (e : String) (t : EngineTable)
    → backlog_columns (get e (upsert_cooldowns now states t)) ≡ backlog_columns (get e t)
unfolding upsert_cooldowns
upsert_cooldowns-keeps now [] e t = refl
upsert_cooldowns-keeps now ((x, f, r) ∷ states) e t =
    upsert_cooldowns-keeps now states e _
    ∙ put_keeps backlog_columns x e _ t (cooldown_keeps now f r (get x t))

pub upsert_backlog-keeps :
    (now : ℕ) (states : List (String × ℕ × ℕ)) (e : String) (t : EngineTable)
    → cooldown_columns (get e (upsert_backlog now states t)) ≡ cooldown_columns (get e t)
unfolding upsert_backlog
upsert_backlog-keeps now [] e t = refl
upsert_backlog-keeps now ((x, n, l) ∷ states) e t =
    upsert_backlog-keeps now states e _
    ∙ put_keeps cooldown_columns x e _ t (backlog_keeps now n l (get x t))

-- Publishing cooldowns leaves the backlog that the API reads for each engine as it was, and
-- publishing a backlog leaves the cooldown.
upserts_keep :
    (now : ℕ) (states : List (String × ℕ × ℕ)) (e : String) (t : EngineTable)
    → (backlog_columns (get e (upsert_cooldowns now states t)) ≡ backlog_columns (get e t))
      × (cooldown_columns (get e (upsert_backlog now states t)) ≡ cooldown_columns (get e t))
upserts_keep now states e t =
    (upsert_cooldowns-keeps now states e t, upsert_backlog-keeps now states e t)
