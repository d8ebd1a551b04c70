-- ===== src/Schedule/Heap.antt =====
-- The heap of topic times: order, and the number of entries of a topic.
use topicstreams.Schedule.{Entry, entry_leb, heappush}
use topicstreams.Base.{
  ℕ, ◌+◌, ◌≤◌, String, ◌≡◌, refl, inl, inr, Bool, true, false, ◌&&◌, ◌||◌, List, [], ◌∷◌, arith,
  ◌==◌, str_eq, if◌then◌else◌, Bool-cases, any, All,
}

-- How many entries a topic has.
abbrev pub count : String → List Entry → ℕ
count t [] = 0
count t (e ∷ es) = (if str_eq e.topic t then 1 else 0) + count t es

-- The entry `(when, topic)` is there.
abbrev pub has : ℕ → String → List Entry → Bool
has w t es = any (λ e. e.when == w && str_eq e.topic t) es

abbrev pub IsSorted : List Entry → Type 0
IsSorted [] = Unit
IsSorted (e ∷ es) = All (λ x. e.when ≤ x.when) es × IsSorted es

pub count-heappush :
    (t : String) (e : Entry) (h : List Entry) → count t (heappush e h) ≡ count t (e ∷ h)
unfolding heappush
count-heappush t e [] = refl
count-heappush t e (x ∷ h) = ground (arith, count-heappush t e h)

pub has-heappush :
    (w : ℕ) (t : String) (e : Entry) (h : List Entry)
    → has w t (heappush e h) ≡ ((e.when == w && str_eq e.topic t) || has w t h)
unfolding heappush
has-heappush w t e [] = refl
has-heappush w t e (x ∷ h) = ground (arith, has-heappush w t e h)

pub count_of_has : (w : ℕ) (t : String) (h : List Entry) → has w t h ≡ true → 1 ≤ count t h
count_of_has w t [] p = cc
count_of_has w t (x ∷ h) p = ground (arith, count_of_has w t h)

All-heappush {ℓ} :
    (P : Entry → Type ℓ) (e : Entry) (h : List Entry) → P e → All P h → All P (heappush e h)
unfolding heappush
All-heappush P e [] p a = (p, tt)
All-heappush P e (x ∷ h) p a = elim (Bool-cases (entry_leb e x)) [
  | inl b ↦ rw b (p, a)
  | inr b ↦ rw b (a.0, All-heappush P e h p a.1)
]

All-mono :
    (n : ℕ) {m : ℕ} (h : List Entry) → n ≤ m → All (λ x. m ≤ x.when) h → All (λ x. n ≤ x.when) h
All-mono n [] p a = tt
All-mono n (x ∷ h) p a = (omega arith, All-mono n h p a.1)

le_of_entry_leb : (a b : Entry) → entry_leb a b ≡ true → a.when ≤ b.when
le_of_entry_leb a b h = ground arith

ge_of_entry_leb : (a b : Entry) → entry_leb a b ≡ false → b.when ≤ a.when
ge_of_entry_leb a b h = ground arith

pub heappush-IsSorted : (e : Entry) (h : List Entry) → IsSorted h → IsSorted (heappush e h)
unfolding heappush
heappush-IsSorted e [] s = (tt, tt)
heappush-IsSorted e (x ∷ h) s = elim (Bool-cases (entry_leb e x)) [
  | inl b ↦ let le = le_of_entry_leb e x b in rw b ((le, All-mono e.when h le s.0), s)
  | inr b ↦ rw b (
    All-heappush (λ y. x.when ≤ y.when) e h (ge_of_entry_leb e x b) s.0,
    heappush-IsSorted e h s.1,
  )
]
