-- ===== src/Feed/Topics.antt =====
-- The statements of common/database.py on `topics`.
use topicstreams.Model.{Topic}
use topicstreams.Base.{
  ℕ, String, ◌≡◌, refl, sym, ap, ap₂, subst, ◌⊎◌, inl, inr, Bool, true, false, not, ◌&&◌, ◌||◌,
  List, [], ◌∷◌, map, arith, eq_iff, str_eq, if◌then◌else◌, Bool-cases, any, filter, All, sort_desc,
}

-- `topic_exists`
unfoldable pub topic_exists : String → List Topic → Bool
topic_exists name rows = any (λ t. str_eq t.name name && t.is_active) rows

-- `add_topic`
unfoldable pub add_topic : ℕ → String → List Topic → List Topic
add_topic now name [] = record { name = name; created_at = now; is_active = true } ∷ []
add_topic now name (t ∷ rows) =
    let rest = add_topic now name rows in
    if str_eq t.name name then record t { is_active = true } ∷ rows else t ∷ rest

abbrev pub deactivate : String → Topic → Topic
deactivate name t = if str_eq t.name name then record t { is_active = false } else t

-- `delete_topic`
unfoldable pub delete_topic : String → List Topic → List Topic
delete_topic name rows = map (deactivate name) rows

-- `get_topics`
unfoldable pub get_topics : Bool → List Topic → List Topic
get_topics include_inactive rows =
    sort_desc (λ t. t.created_at) (filter (λ t. include_inactive || t.is_active) rows)

exists-add_topic :
    (now : ℕ) (name n : String) (rows : List Topic)
    → topic_exists n (add_topic now name rows) ≡ (str_eq name n || topic_exists n rows)
unfolding topic_exists add_topic
exists-add_topic now name n [] = ground arith
exists-add_topic now name n (t ∷ rows) =
    ground
      (arith, exists-add_topic now name n rows, eq_iff t.name name, eq_iff t.name n, eq_iff name n)

exists-delete_topic :
    (name n : String) (rows : List Topic)
    → topic_exists n (delete_topic name rows) ≡ (not (str_eq name n) && topic_exists n rows)
unfolding topic_exists delete_topic
exists-delete_topic name n [] = ground arith
exists-delete_topic name n (t ∷ rows) =
    ground
      (arith, exists-delete_topic name n rows, eq_iff t.name name, eq_iff t.name n, eq_iff name n)

-- `name` is UNIQUE.
abbrev pub UniqueNames : List Topic → Type 0
UniqueNames [] = Unit
UniqueNames (t ∷ rows) = All (λ r. str_eq r.name t.name ≡ false) rows × UniqueNames rows

deactivate_others :
    (name : String) (rows : List Topic)
    → All (λ r. str_eq r.name name ≡ false) rows
    → delete_topic name rows ≡ rows
unfolding delete_topic
deactivate_others name [] h = refl
deactivate_others name (t ∷ rows) h = rw (h.0) (ap (λ z. t ∷ z) (deactivate_others name rows h.1))

others_not :
    (name : String) (rows : List Topic)
    → All (λ r. str_eq r.name name ≡ false) rows
    → topic_exists name rows ≡ false
unfolding topic_exists
others_not name [] h = refl
others_not name (t ∷ rows) h = ground (arith, h.0, others_not name rows h.1)

restore :
    (now : ℕ) (name : String) (rows : List Topic)
    → UniqueNames rows
    → topic_exists name rows ≡ true
    → add_topic now name (delete_topic name rows) ≡ rows
unfolding topic_exists add_topic delete_topic
restore now name [] u h = absurd (cc)
restore now name (t ∷ rows) u h = elim (Bool-cases (str_eq t.name name)) [
  | inr other ↦
      rw other (rw other (ap (λ z. t ∷ z) (restore now name rows u.1 (ground (arith, h, other)))))
  | inl same ↦
      let alike : t.name ≡ name = (eq_iff t.name name).0 same in
      let others : All (λ r. str_eq r.name name ≡ false) rows =
        subst (λ n. All (λ r. str_eq r.name n ≡ false) rows) alike u.0 in
      let active : t.is_active ≡ true = ground (arith, h, others_not name rows others) in
      rw same (
        rw same (
          ap₂ (λ (b : Bool) (z : List Topic). record t { is_active = b } ∷ z) (sym active)
            (deactivate_others name rows others)))
]

delete_twice :
    (name : String) (rows : List Topic)
    → delete_topic name (delete_topic name rows) ≡ delete_topic name rows
unfolding delete_topic
delete_twice name [] = refl
delete_twice name (t ∷ rows) = elim (Bool-cases (str_eq t.name name)) [
  | inl same ↦
      rw same (rw same (ap (λ z. record t { is_active = false } ∷ z) (delete_twice name rows)))
  | inr other ↦ rw other (rw other (ap (λ z. t ∷ z) (delete_twice name rows)))
]

-- Adding a topic makes it exist and deleting it makes it not exist, without a change for any other
-- name; deleting again changes nothing; and a topic that is deleted and added again is the row that
-- it was, with its time of creation.
add_topic-delete_topic :
    (now : ℕ) (name n : String) (rows : List Topic)
    → UniqueNames rows
    → (topic_exists n (add_topic now name rows) ≡ (str_eq name n || topic_exists n rows))
      × (topic_exists n (delete_topic name rows) ≡ (not (str_eq name n) && topic_exists n rows))
      × (delete_topic name (delete_topic name rows) ≡ delete_topic name rows)
      × (topic_exists name rows ≡ false ⊎ add_topic now name (delete_topic name rows) ≡ rows)
add_topic-delete_topic now name n rows u = (
  exists-add_topic now name n rows,
  exists-delete_topic name n rows,
  delete_twice name rows,
  elim (Bool-cases (topic_exists name rows)) [
    | inl there ↦ inr (restore now name rows u there)
    | inr gone ↦ inl gone
  ],
)
