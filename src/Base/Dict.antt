-- ===== src/Base/Dict.antt =====
-- Python's `dict` with text keys: an association list in insertion order. Writing to a key that
-- is there keeps its place, as Python does.
use Prim.Native.String.{String}
use mathlib.Core.Path.{◌≡◌, refl}
use mathlib.Core.Bool.{true, false}
use mathlib.Core.List.{List, [], ◌∷◌, map}
use mathlib.Core.Logic.{inl, inr}
use mathlib.Core.Bool.{◌||◌}
use mathlib.Core.Option.{Option, none, some}
use native.Mathlib.Omega.{arith}
use text.Mathlib.TextEquality.{eq_iff}
use topicstreams.Base.Sets.{member}
use topicstreams.Base.Tests.{Bool-cases, str_eq, if◌then◌else◌}

module _ {ℓ} {V : Type ℓ} where
  -- `d.get(k)`
  unfoldable pub get : String → List (String × V) → Option V
  get k [] = none
  get k (e ∷ d) = if str_eq e.0 k then some e.1 else get k d

  -- `d[k] = v`
  unfoldable pub put : String → V → List (String × V) → List (String × V)
  put k v [] = (k, v) ∷ []
  put k v (e ∷ d) = let rest = put k v d in if str_eq e.0 k then (e.0, v) ∷ d else e ∷ rest

  -- `list(d)`, `list(d.values())`
  abbrev pub keys : List (String × V) → List String
  keys d = map (λ e. e.0) d

  abbrev pub values : List (String × V) → List V
  values d = map (λ e. e.1) d

  pub get-put :
      (k j : String) (v : V) (d : List (String × V))
      → get j (put k v d) ≡ (if str_eq k j then some v else get j d)
  unfolding get put
  get-put k j v [] = refl
  get-put k j v (e ∷ d) = ground (arith, eq_iff e.0 k, eq_iff e.0 j, eq_iff k j, get-put k j v d)

  pub get-put_self : (k : String) (v : V) (d : List (String × V)) → get k (put k v d) ≡ some v
  get-put_self k v d = simp (get-put, (eq_iff k k).1 refl)

  pub get-put_ne :
      (k j : String) (v : V) (d : List (String × V))
      → str_eq k j ≡ false
      → get j (put k v d) ≡ get j d
  get-put_ne k j v d ne = simp (get-put, ne)

  -- No key occurs twice.
  abbrev pub DistinctKeys : List (String × V) → Type 0
  DistinctKeys [] = Unit
  DistinctKeys (e ∷ d) = (member e.0 (keys d) ≡ false) × DistinctKeys d

  pub get_absent : (k : String) (d : List (String × V)) → member k (keys d) ≡ false → get k d ≡ none
  unfolding get member
  get_absent k [] h = refl
  get_absent k (e ∷ d) h = ground (arith, get_absent k d)

  pub member-put :
      (k j : String) (v : V) (d : List (String × V))
      → member j (keys (put k v d)) ≡ (str_eq k j || member j (keys d))
  unfolding put member
  member-put k j v [] = refl
  member-put k j v (e ∷ d) = ground (arith, member-put k j v d, eq_iff e.0 k)

  pub put-DistinctKeys :
      (k : String) (v : V) (d : List (String × V)) → DistinctKeys d → DistinctKeys (put k v d)
  unfolding put member
  put-DistinctKeys k v [] h = (refl, tt)
  put-DistinctKeys k v (e ∷ d) h = elim (Bool-cases (str_eq e.0 k)) [
    | inl same ↦ rw same h
    | inr other ↦ rw other (
      ground (arith, member-put k e.0 v d, eq_iff k e.0, eq_iff e.0 k, h.0),
      put-DistinctKeys k v d h.1,
    )
  ]

  pub get_present :
      (k : String) (d : List (String × V)) → member k (keys d) ≡ true → (v : V) × (get k d ≡ some v)
  unfolding get member
  get_present k [] h = cc
  get_present k (e ∷ d) h = elim (Bool-cases (str_eq e.0 k)) [
    | inl same ↦ (e.1, rw same refl)
    | inr other ↦ let (v, found) = get_present k d (ground (arith, other)) in (v, rw other found)
  ]
