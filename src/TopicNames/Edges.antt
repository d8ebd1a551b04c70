-- ===== src/TopicNames/Edges.antt =====
-- What stripping the ends of a text of common/utils.py keeps and what it takes away.
use topicstreams.TopicNames.{starts, lstrip_by, rstrip_by}
use topicstreams.Base.{
  ℕ, ◌≡◌, refl, Bool, true, false, not, ◌&&◌, List, [], ◌∷◌, arith, if◌then◌else◌, all, is_empty,
}

module _ (bad : ℕ → ℕ → Bool) where
  -- No character and the next one are a bad pair.
  abbrev pub no_pair : List ℕ → Bool
  no_pair [] = true
  no_pair (c ∷ s) = not (starts (bad c) s) && no_pair s

  pub lstrip_by-no_pair :
      (p : ℕ → Bool) (s : List ℕ) → no_pair s ≡ true → no_pair (lstrip_by p s) ≡ true
  unfolding lstrip_by
  lstrip_by-no_pair p [] h = refl
  lstrip_by-no_pair p (c ∷ s) h = ground (arith, lstrip_by-no_pair p s)

abbrev pub ends : (ℕ → Bool) → List ℕ → Bool
ends p [] = false
ends p (c ∷ s) = if is_empty s then p c else ends p s

pub starts-lstrip_by : (p : ℕ → Bool) (s : List ℕ) → starts p (lstrip_by p s) ≡ false
unfolding lstrip_by
starts-lstrip_by p [] = refl
starts-lstrip_by p (c ∷ s) = ground (arith, starts-lstrip_by p s)

pub ends-lstrip_by :
    (p q : ℕ → Bool) (s : List ℕ) → ends q s ≡ false → ends q (lstrip_by p s) ≡ false
unfolding lstrip_by
ends-lstrip_by p q [] h = refl
ends-lstrip_by p q (c ∷ []) h = ground arith
ends-lstrip_by p q (c ∷ d ∷ s) h = ground (arith, ends-lstrip_by p q (d ∷ s) h)

pub starts-rstrip_by :
    (p q : ℕ → Bool) (s : List ℕ) → starts q s ≡ false → starts q (rstrip_by p s) ≡ false
unfolding rstrip_by
starts-rstrip_by p q [] h = refl
starts-rstrip_by p q (c ∷ s) h = ground (arith, h)

pub ends-rstrip_by : (p : ℕ → Bool) (s : List ℕ) → ends p (rstrip_by p s) ≡ false
unfolding rstrip_by
ends-rstrip_by p [] = refl
ends-rstrip_by p (c ∷ s) = ground (arith, ends-rstrip_by p s)

pub rstrip_by-no_pair :
    (bad : ℕ → ℕ → Bool) (p : ℕ → Bool) (s : List ℕ)
    → no_pair bad s ≡ true
    → no_pair bad (rstrip_by p s) ≡ true
unfolding rstrip_by
rstrip_by-no_pair bad p [] h = refl
rstrip_by-no_pair bad p (c ∷ s) h =
    ground (arith, h, rstrip_by-no_pair bad p s, starts-rstrip_by p (bad c) s)

pub lstrip_by-every : (p q : ℕ → Bool) (s : List ℕ) → all q s ≡ true → all q (lstrip_by p s) ≡ true
unfolding lstrip_by
lstrip_by-every p q [] h = refl
lstrip_by-every p q (c ∷ s) h = ground (arith, lstrip_by-every p q s)

pub rstrip_by-every : (p q : ℕ → Bool) (s : List ℕ) → all q s ≡ true → all q (rstrip_by p s) ≡ true
unfolding rstrip_by
rstrip_by-every p q [] h = refl
rstrip_by-every p q (c ∷ s) h = ground (arith, rstrip_by-every p q s)

pub lstrip_by-stripped : (p : ℕ → Bool) (s : List ℕ) → starts p s ≡ false → lstrip_by p s ≡ s
unfolding lstrip_by
lstrip_by-stripped p [] h = refl
lstrip_by-stripped p (c ∷ s) h = ground (arith, h)

pub rstrip_by-stripped : (p : ℕ → Bool) (s : List ℕ) → ends p s ≡ false → rstrip_by p s ≡ s
unfolding rstrip_by
rstrip_by-stripped p [] h = refl
rstrip_by-stripped p (c ∷ []) h = ground (arith, h)
rstrip_by-stripped p (c ∷ d ∷ s) h = rw (rstrip_by-stripped p (d ∷ s) h) refl
