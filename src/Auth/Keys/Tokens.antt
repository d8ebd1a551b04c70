-- ===== src/Auth/Keys/Tokens.antt =====
-- The tokens that are active after the statements on `api_keys` of common/database.py.
use topicstreams.Auth.Keys.{
  ApiKey, ApiKeys, get_active_api_keys, find_token, reactivate, upsert_key, add_api_key, set_active,
  set_api_key_active,
}
use topicstreams.Base.{
  ℕ, ◌≤◌, ◌<◌, String, ◌≡◌, refl, ◌∙◌, inl, inr, Bool, true, false, not, ◌&&◌, ◌||◌, Option, none,
  some, List, [], ◌∷◌, map, arith, eq_iff, ◌==◌, str_eq, Bool-cases, All, member, str_eq_self,
  All-imp,
}

-- The ids and the tokens of the rows are unique, and the ids below the sequence.
abbrev pub UniqueKeys : List ApiKey → Type 0
UniqueKeys [] = Unit
UniqueKeys (r ∷ rows) =
    All (λ q. ((q.ident == r.ident) ≡ false) × (str_eq q.token r.token ≡ false)) rows
    × UniqueKeys rows

pub record IsValid (t : ApiKeys) : Type 0 where
  pub unique : UniqueKeys t.rows
  pub below : All (λ r. r.ident < t.next_id) t.rows

-- The row with the id is the row with the token.
abbrev Identified : ℕ → String → List ApiKey → Type 0
Identified i token rows = All (λ r. (r.ident == i) ≡ str_eq r.token token) rows

absent_token :
    (i n : ℕ) (token : String) (rows : List ApiKey)
    → find_token token rows ≡ none
    → All (λ r. r.ident < n) rows
    → n ≤ i
    → Identified i token rows
unfolding find_token
absent_token i n token [] h below le = tt
absent_token i n token (r ∷ rows) h below le =
    (ground (arith, h, below.0, le), absent_token i n token rows (ground (arith, h)) below.1 le)

found_others :
    (i : ℕ) (token : String) (r : ApiKey) (rows : List ApiKey)
    → str_eq r.token token ≡ true
    → r.ident ≡ i
    → All (λ q. ((q.ident == r.ident) ≡ false) × (str_eq q.token r.token ≡ false)) rows
    → Identified i token rows
found_others i token r rows same id others =
    All-imp _ _ rows
      (λ q h. ground (
        arith,
        h.0,
        h.1,
        id,
        eq_iff r.token token,
        eq_iff q.token token,
        eq_iff q.token r.token,
        same,
      ))
      others

found_elsewhere :
    (i j : ℕ) (x token : String) (rows : List ApiKey)
    → All (λ q. ((q.ident == j) ≡ false) × (str_eq q.token x ≡ false)) rows
    → find_token token rows ≡ some i
    → (j == i) ≡ false
unfolding find_token
found_elsewhere i j x token [] others h = absurd (cc)
found_elsewhere i j x token (r ∷ rows) others h = elim (Bool-cases (str_eq r.token token)) [
  | inl same ↦ let id : r.ident ≡ i = ground (arith, h, same) in ground (arith, id, others.0.0)
  | inr other ↦
      let later : find_token token rows ≡ some i = ground (arith, h, other) in
      found_elsewhere i j x token rows others.1 later
]

found_token :
    (i : ℕ) (token : String) (rows : List ApiKey)
    → UniqueKeys rows
    → find_token token rows ≡ some i
    → Identified i token rows
unfolding find_token
found_token i token [] u h = tt
found_token i token (r ∷ rows) u h = elim (Bool-cases (str_eq r.token token)) [
  | inl same ↦
      let id : r.ident ≡ i = ground (arith, h, same) in
      (ground (arith, id, same), found_others i token r rows same id u.0)
  | inr other ↦
      let later : find_token token rows ≡ some i = ground (arith, h, other) in
      (
        ground (arith, other, found_elsewhere i r.ident r.token token rows u.0 later),
        found_token i token rows u.1 later,
      )
]

reactivate-Identified :
    (i : ℕ) (token : String) (label : Option String) (rows : List ApiKey)
    → Identified i token rows
    → Identified i token (map (reactivate token label) rows)
reactivate-Identified i token label [] h = tt
reactivate-Identified i token label (r ∷ rows) h =
    (ground (arith, h.0), reactivate-Identified i token label rows h.1)

active-reactivate_other :
    (x token : String) (label : Option String) (rows : List ApiKey)
    → str_eq token x ≡ false
    → member x (get_active_api_keys (map (reactivate token label) rows))
      ≡ member x (get_active_api_keys rows)
unfolding get_active_api_keys member
active-reactivate_other x token label [] ne = refl
active-reactivate_other x token label (r ∷ rows) ne = ground (
  arith,
  active-reactivate_other x token label rows ne,
  eq_iff r.token token,
  eq_iff r.token x,
  eq_iff token x,
)

active-reactivate :
    (x token : String) (label : Option String) (rows : List ApiKey) (i : ℕ)
    → find_token token rows ≡ some i
    → member x (get_active_api_keys (map (reactivate token label) rows))
      ≡ (str_eq token x || member x (get_active_api_keys rows))
unfolding get_active_api_keys member find_token
active-reactivate x token label [] i h = absurd (cc)
active-reactivate x token label (r ∷ rows) i h = elim (Bool-cases (str_eq r.token token)) [
  | inr other ↦
      let later : find_token token rows ≡ some i = ground (arith, h, other) in
      ground (arith, other, active-reactivate x token label rows i later)
  | inl same ↦ elim (Bool-cases (str_eq token x)) [
    | inl this ↦ ground (arith, this, same, eq_iff r.token token, eq_iff r.token x, eq_iff token x)
    | inr ne ↦ ground (
      arith,
      ne,
      same,
      active-reactivate_other x token label rows ne,
      eq_iff r.token token,
      eq_iff r.token x,
      eq_iff token x,
    )
  ]
]

active-set :
    (x token : String) (i : ℕ) (rows : List ApiKey)
    → Identified i token rows
    → member x (get_active_api_keys (map (set_active i false) rows))
      ≡ (not (str_eq token x) && member x (get_active_api_keys rows))
unfolding get_active_api_keys member
active-set x token i [] h = ground arith
active-set x token i (r ∷ rows) h = ground (
  arith,
  h.0,
  active-set x token i rows h.1,
  eq_iff r.token token,
  eq_iff r.token x,
  eq_iff token x,
)

set-active :
    (token x : String) (i : ℕ) (t : ApiKeys) (active : Bool)
    → Identified i token t.rows
    → member x (get_active_api_keys t.rows) ≡ (str_eq token x || active)
    → member x (get_active_api_keys (set_api_key_active i false t).1.rows)
      ≡ (not (str_eq token x) && active)
unfolding set_api_key_active
set-active token x i t active same h = ground (arith, active-set x token i t.rows same, h)

find-reactivate :
    (token : String) (label : Option String) (rows : List ApiKey)
    → find_token token (map (reactivate token label) rows) ≡ find_token token rows
unfolding find_token
find-reactivate token label [] = refl
find-reactivate token label (r ∷ rows) = ground (arith, find-reactivate token label rows)

added_found :
    (now later : ℕ) (token x : String) (label : Option String) (t : ApiKeys) (o : Option ℕ)
    → find_token token t.rows ≡ o
    → IsValid t
    → let (i, added) = upsert_key now token label t o in
      (member x (get_active_api_keys added.rows)
        ≡ (str_eq token x || member x (get_active_api_keys t.rows)))
      × (member x (get_active_api_keys (set_api_key_active i false added).1.rows)
          ≡ (not (str_eq token x) && member x (get_active_api_keys t.rows)))
      × ((add_api_key later token label added).0 ≡ i)
unfolding upsert_key add_api_key find_token get_active_api_keys member
added_found now later token x label t none h v =
    let (i, added) = upsert_key now token label t none in
    let active : member x (get_active_api_keys added.rows)
        ≡ (str_eq token x || member x (get_active_api_keys t.rows)) =
      refl in
    (
      active,
      set-active token x i added _
          (
            ground (arith, str_eq_self token),
            absent_token i t.next_id token t.rows h v.below (omega arith),
          )
          active,
      rw (str_eq_self token) refl,
    )
added_found now later token x label t (some i) h v =
    let (j, added) = upsert_key now token label t (some i) in
    let active = active-reactivate x token label t.rows i h in
    (
      active,
      set-active token x i added _
          (reactivate-Identified i token label t.rows (found_token i token t.rows v.unique h))
          active,
      rw (find-reactivate token label t.rows ∙ h) refl,
    )

-- Adding a token makes exactly it active as well; disabling it by the id that was returned takes
-- exactly it out again; and adding a token twice gives the same id.
pub add_api_key-set_api_key_active :
    (now later : ℕ) (token x : String) (label : Option String) (t : ApiKeys)
    → IsValid t
    → let (i, added) = add_api_key now token label t in
      (member x (get_active_api_keys added.rows)
        ≡ (str_eq token x || member x (get_active_api_keys t.rows)))
      × (member x (get_active_api_keys (set_api_key_active i false added).1.rows)
          ≡ (not (str_eq token x) && member x (get_active_api_keys t.rows)))
      × ((add_api_key later token label added).0 ≡ i)
unfolding add_api_key
add_api_key-set_api_key_active now later token x label t v =
    added_found now later token x label t (find_token token t.rows) refl v
