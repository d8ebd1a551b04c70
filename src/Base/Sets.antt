-- ===== src/Base/Sets.antt =====
-- Python's sets of texts as lists: only membership is observed.
use Prim.Native.String.{String}
use mathlib.Core.Path.{◌≡◌, refl}
use mathlib.Core.Logic.{inl, inr}
use mathlib.Core.Path.{ap}
use topicstreams.Base.Tests.{Bool-cases}
use mathlib.Core.Bool.{Bool, true, false, not, ◌&&◌, ◌||◌}
use mathlib.Core.List.{List, [], ◌∷◌}
use native.Mathlib.Omega.{arith}
use text.Mathlib.TextEquality.{eq_iff}
use topicstreams.Base.Tests.{str_eq, if◌then◌else◌}
use topicstreams.Base.Lists.{filter}

-- `x in s`
unfoldable pub member : String → List String → Bool
member x [] = false
member x (y ∷ ys) = str_eq y x || member x ys

-- `s.add(x)`
unfoldable pub add : String → List String → List String
add x s = if member x s then s else x ∷ s

-- `s.discard(x)`
unfoldable pub discard : String → List String → List String
discard x s = filter (λ y. not (str_eq y x)) s

pub str_eq_self : (x : String) → str_eq x x ≡ true
str_eq_self x = (eq_iff x x).1 refl

pub member-add : (x y : String) (s : List String) → member y (add x s) ≡ (str_eq x y || member y s)
unfolding member add
member-add x y s = ground (arith, eq_iff x y)

pub member-discard :
    (x y : String) (s : List String) → member y (discard x s) ≡ (not (str_eq x y) && member y s)
unfolding member discard
member-discard x y [] = ground arith
member-discard x y (z ∷ s) =
    ground (arith, member-discard x y s, eq_iff z x, eq_iff z y, eq_iff x y)

pub member-filter :
    (p : String → Bool) (e : String) (xs : List String)
    → member e (filter p xs) ≡ (p e && member e xs)
unfolding member
member-filter p e [] = ground arith
member-filter p e (x ∷ xs) = elim (Bool-cases (str_eq x e)) [
  | inr ne ↦ ground (arith, member-filter p e xs, ne)
  | inl eq ↦
      let same : p x ≡ p e = ap p ((eq_iff x e).0 eq) in
      ground (arith, member-filter p e xs, eq, same)
]
