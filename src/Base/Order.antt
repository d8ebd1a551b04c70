-- ===== src/Base/Order.antt =====
-- `ORDER BY key DESC`, and what a cursor on the key cuts off a list in that order.
use Prim.Native.Nat.{zero, suc, ℕ, ◌+◌, ◌≤◌, ◌<◌}
use mathlib.Core.Path.{◌≡◌, refl, ap, ◌∙◌, sym}
use mathlib.Core.Bool.{Bool}
use mathlib.Core.List.{List, [], ◌∷◌, ◌++◌}
use mathlib.Core.Logic.{◌⊎◌, inl, inr}
use native.Mathlib.Omega.{arith}
use topicstreams.Base.Tests.{ltb, if◌then◌else◌, Bool-cases}
use topicstreams.Base.Lists.{take, All-middle, filter, All, All-filter, All-imp, length}

module _ {ℓ} {A : Type ℓ} (key : A → ℕ) where
  unfoldable pub insert_desc : A → List A → List A
  insert_desc x [] = x ∷ []
  insert_desc x (y ∷ ys) =
      let rest = insert_desc x ys in if ltb (key y) (key x) then x ∷ y ∷ ys else y ∷ rest

  unfoldable pub sort_desc : List A → List A
  unfolding insert_desc
  sort_desc [] = []
  sort_desc (x ∷ xs) = insert_desc x (sort_desc xs)

  abbrev pub Descending : List A → Type 0
  Descending [] = Unit
  Descending (x ∷ xs) = All (λ y. key y < key x) xs × Descending xs

  -- No two members have the same key.
  abbrev pub DistinctBy : List A → Type 0
  DistinctBy [] = Unit
  DistinctBy (x ∷ xs) = All (λ y. key y < key x ⊎ key x < key y) xs × DistinctBy xs

  -- What is below a cursor can be selected before or after the ordering.
  filter-insert_desc :
      (b : ℕ) (x : A) (ys : List A)
      → filter (λ y. ltb (key y) b) (insert_desc x ys) ≡ (
          if ltb (key x) b
          then insert_desc x (filter (λ y. ltb (key y) b) ys)
          else filter (λ y. ltb (key y) b) ys)
  unfolding insert_desc
  filter-insert_desc b x [] = ground arith
  filter-insert_desc b x (y ∷ ys) = ground (arith, filter-insert_desc b x ys)

  pub filter-sort_desc :
      (b : ℕ) (xs : List A)
      → sort_desc (filter (λ y. ltb (key y) b) xs) ≡ filter (λ y. ltb (key y) b) (sort_desc xs)
  unfolding sort_desc
  filter-sort_desc b [] = refl
  filter-sort_desc b (x ∷ xs) = elim (Bool-cases (ltb (key x) b)) [
    | inl e ↦ rw e (
        ap (insert_desc x) (filter-sort_desc b xs)
        ∙ sym (filter-insert_desc b x (sort_desc xs) ∙ rw e refl))
    | inr e ↦ rw e (filter-sort_desc b xs ∙ sym (filter-insert_desc b x (sort_desc xs) ∙ rw e refl))
  ]

  pub All-insert_desc {κ} :
      (P : A → Type κ) (x : A) (ys : List A) → P x → All P ys → All P (insert_desc x ys)
  unfolding insert_desc
  All-insert_desc P x [] p a = (p, tt)
  All-insert_desc P x (y ∷ ys) p a = elim (Bool-cases (ltb (key y) (key x))) [
    | inl e ↦ rw e (p, a)
    | inr e ↦ rw e (a.0, All-insert_desc P x ys p a.1)
  ]

  pub All-sort_desc {κ} : (P : A → Type κ) (xs : List A) → All P xs → All P (sort_desc xs)
  unfolding sort_desc
  All-sort_desc P [] a = tt
  All-sort_desc P (x ∷ xs) a = All-insert_desc P x (sort_desc xs) a.0 (All-sort_desc P xs a.1)

  insert_desc-Descending :
      (x : A) (ys : List A)
      → All (λ y. key y < key x ⊎ key x < key y) ys
      → Descending ys
      → Descending (insert_desc x ys)
  unfolding insert_desc
  insert_desc-Descending x [] a d = (tt, tt)
  insert_desc-Descending x (y ∷ ys) a d = elim (Bool-cases (ltb (key y) (key x))) [
    | inl e ↦
        let less : key y < key x = ground arith in
        rw e ((less, All-imp _ _ ys (λ z h. omega (arith, less, h)) d.0), d)
    | inr e ↦
        let less : key x < key y = ground (arith, a.0) in
        rw e
          (All-insert_desc (λ z. key z < key y) x ys less d.0, insert_desc-Descending x ys a.1 d.1)
  ]

  pub sort_desc-Descending : (xs : List A) → DistinctBy xs → Descending (sort_desc xs)
  unfolding sort_desc
  sort_desc-Descending [] d = tt
  sort_desc-Descending (x ∷ xs) d =
      insert_desc-Descending x (sort_desc xs) (All-sort_desc _ xs d.0) (sort_desc-Descending xs d.1)

  below_every :
      (b : ℕ) (xs : List A) → All (λ y. key y < b) xs → filter (λ y. ltb (key y) b) xs ≡ xs
  below_every b [] a = refl
  below_every b (x ∷ xs) a = ground (arith, below_every b xs a.1, a.0)

  -- The members below the key of one of them are those after it.
  pub below_middle :
      (before : List A) (x : A) (after : List A)
      → Descending (before ++ x ∷ after)
      → filter (λ y. ltb (key y) (key x)) (before ++ x ∷ after) ≡ after
  below_middle [] x after d = ground (arith, below_every (key x) after d.0)
  below_middle (y ∷ before) x after d =
      let above : key x < key y = All-middle (λ z. key z < key y) before x after d.0 in
      ground (arith, above, below_middle before x after d.1)

  pub filter-Descending : (p : A → Bool) (xs : List A) → Descending xs → Descending (filter p xs)
  filter-Descending p [] d = tt
  filter-Descending p (x ∷ xs) d = elim (Bool-cases (p x)) [
    | inl e ↦ rw e (All-filter _ p xs d.0, filter-Descending p xs d.1)
    | inr e ↦ rw e (filter-Descending p xs d.1)
  ]

  -- A cursor below another one selects what it does from the selection of the other.
  pub below_twice :
      (b c : ℕ) (xs : List A)
      → b ≤ c
      → filter (λ y. ltb (key y) b) (filter (λ y. ltb (key y) c) xs)
        ≡ filter (λ y. ltb (key y) b) xs
  below_twice b c [] h = refl
  below_twice b c (x ∷ xs) h = ground (arith, below_twice b c xs h)

  length-insert_desc : (x : A) (ys : List A) → length (insert_desc x ys) ≡ length ys + 1
  unfolding insert_desc
  length-insert_desc x [] = refl
  length-insert_desc x (y ∷ ys) = ground (arith, length-insert_desc x ys)

  pub length-sort_desc : (xs : List A) → length (sort_desc xs) ≡ length xs
  unfolding sort_desc
  length-sort_desc [] = refl
  length-sort_desc (x ∷ xs) =
      omega (arith, length-insert_desc x (sort_desc xs), length-sort_desc xs)

  pub filter-DistinctBy : (p : A → Bool) (xs : List A) → DistinctBy xs → DistinctBy (filter p xs)
  filter-DistinctBy p [] d = tt
  filter-DistinctBy p (x ∷ xs) d = elim (Bool-cases (p x)) [
    | inl e ↦ rw e (All-filter _ p xs d.0, filter-DistinctBy p xs d.1)
    | inr e ↦ rw e (filter-DistinctBy p xs d.1)
  ]

  pub All-take {κ} : (P : A → Type κ) (n : ℕ) (xs : List A) → All P xs → All P (take n xs)
  All-take P zero xs a = tt
  All-take P (suc n) [] a = tt
  All-take P (suc n) (x ∷ xs) a = (a.0, All-take P n xs a.1)
