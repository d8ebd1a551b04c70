-- ===== src/Sorting.antt =====
-- Python's `sorted` on texts, by insertion.
use topicstreams.Schedule.{str_leb}
use topicstreams.Base.{
  suc, String, ◌≡◌, refl, ap, ◌∙◌, ◌||◌, List, [], ◌∷◌, arith, str_eq, if◌then◌else◌, length,
  member,
}

unfoldable pub insort : String → List String → List String
insort x [] = x ∷ []
insort x (y ∷ ys) = let rest = insort x ys in if str_leb x y then x ∷ y ∷ ys else y ∷ rest

unfoldable pub sorted : List String → List String
unfolding insort
sorted [] = []
sorted (x ∷ xs) = insort x (sorted xs)

length-insort : (x : String) (xs : List String) → length (insort x xs) ≡ suc (length xs)
unfolding insort
length-insort x [] = refl
length-insort x (y ∷ ys) = ground (arith, length-insort x ys)

pub length-sorted : (xs : List String) → length (sorted xs) ≡ length xs
unfolding sorted
length-sorted [] = refl
length-sorted (x ∷ xs) = omega (arith, length-insort x (sorted xs), length-sorted xs)

member-insort :
    (t x : String) (xs : List String) → member t (insort x xs) ≡ (str_eq x t || member t xs)
unfolding insort member
member-insort t x [] = refl
member-insort t x (y ∷ ys) = ground (arith, member-insort t x ys)

pub member-sorted : (t : String) (xs : List String) → member t (sorted xs) ≡ member t xs
unfolding sorted member
member-sorted t [] = refl
member-sorted t (x ∷ xs) =
    member-insort t x (sorted xs) ∙ ap (λ b. str_eq x t || b) (member-sorted t xs)
