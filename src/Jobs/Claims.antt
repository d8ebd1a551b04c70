-- ===== src/Jobs/Claims.antt =====
-- Claims of common/database.py: which job a claim takes, and that no job is taken twice.
use native.Mathlib.Nat.{le_refl, le_trans}
use topicstreams.Jobs.{Row, Table, update, claimable, oldest, older, claim_row, claim_found, claim}
use topicstreams.Base.{
  ℕ, ◌≤◌, String, ◌≡◌, refl, ◌⊎◌, inl, inr, Bool, true, false, Option, none, some, List, [], ◌∷◌,
  arith, ltb, Bool-cases, All,
}

-- The row is one of the table's.
abbrev pub Holds : Row → List Row → Type 0
Holds r [] = ⊥
Holds r (x ∷ rows) = (x ≡ r) ⊎ Holds r rows

-- A row that passes the test, with none older that does.
pub record IsOldest (p : Row → Bool) (rows : List Row) (r : Row) : Type 0 where
  pub holds : Holds r rows
  pub passes : p r ≡ true
  pub least : All (λ x. p x ≡ true → r.created_at ≤ x.created_at) rows

-- The search finds an oldest row that passes, or none passes.
abbrev pub Finds : (Row → Bool) → List Row → Option Row → Type 0
Finds p rows none = All (λ x. p x ≡ false) rows
Finds p rows (some r) = IsOldest p rows r

All-later :
    (p : Row → Bool) (n m : ℕ) (rows : List Row)
    → n ≤ m
    → All (λ x. p x ≡ true → m ≤ x.created_at) rows
    → All (λ x. p x ≡ true → n ≤ x.created_at) rows
All-later p n m [] le a = tt
All-later p n m (x ∷ rows) le a = (λ h. le_trans le (a.0 h), All-later p n m rows le a.1)

All-vacuous :
    (p : Row → Bool) (n : ℕ) (rows : List Row)
    → All (λ x. p x ≡ false) rows
    → All (λ x. p x ≡ true → n ≤ x.created_at) rows
All-vacuous p n [] a = tt
All-vacuous p n (x ∷ rows) a = (λ h. absurd (cc (a.0, h)), All-vacuous p n rows a.1)

keep-Finds :
    (p : Row → Bool) (x : Row) (rows : List Row) (found : Option Row)
    → p x ≡ true
    → Finds p rows found
    → Finds p (x ∷ rows) (some (older x found))
keep-Finds p x rows none h a = record {
  holds = inl refl;
  passes = h;
  least = (λ _. le_refl _, All-vacuous p _ rows a);
}
keep-Finds p x rows (some q) h f = elim (Bool-cases (ltb x.created_at q.created_at)) [
  | inl lt ↦ rw lt (record {
    holds = inl refl;
    passes = h;
    least = (λ _. le_refl _, All-later p _ q.created_at rows (ground arith) f.least);
  })
  | inr ge ↦
      rw ge
        (record { holds = inr f.holds; passes = f.passes; least = (λ _. ground arith, f.least) })
]

skip-Finds :
    (p : Row → Bool) (x : Row) (rows : List Row) (found : Option Row)
    → p x ≡ false
    → Finds p rows found
    → Finds p (x ∷ rows) found
skip-Finds p x rows none h a = (h, a)
skip-Finds p x rows (some q) h f = record {
  holds = inr f.holds;
  passes = f.passes;
  least = (λ e. absurd (cc (e, h)), f.least);
}

pub oldest-Finds : (p : Row → Bool) (rows : List Row) → Finds p rows (oldest p rows)
unfolding oldest
oldest-Finds p [] = tt
oldest-Finds p (x ∷ rows) = elim (Bool-cases (p x)) [
  | inl h ↦ rw h (keep-Finds p x rows _ h (oldest-Finds p rows))
  | inr h ↦ rw h (skip-Finds p x rows _ h (oldest-Finds p rows))
]

-- What a claim answers, and the table that it leaves.
abbrev pub ClaimedFrom : ℕ → String → Option ℕ → Table → Option (ℕ × String) × Table → Type 0
ClaimedFrom now engine max_age t (none, u) =
    All (λ x. claimable now engine max_age x ≡ false) t.rows × (u ≡ t)
ClaimedFrom now engine max_age t (some (i, query), u) =
    (r : Row) × IsOldest (claimable now engine max_age) t.rows r
    × (r.ident ≡ i)
    × (r.query ≡ query)
    × (u.rows ≡ update i (claim_row now) t.rows)

-- A claim takes the oldest pending job of its engine that is not too old, and marks it; it takes
-- none, and changes nothing, only if there is no such job.
pub claim-ClaimedFrom :
    (now : ℕ) (engine : String) (max_age : Option ℕ) (t : Table)
    → ClaimedFrom now engine max_age t (claim now engine max_age t)
unfolding claim
claim-ClaimedFrom now engine max_age t =
    go (oldest (claimable now engine max_age) t.rows) (oldest-Finds _ t.rows)
  where
    go :
        (found : Option Row)
        → Finds (claimable now engine max_age) t.rows found
        → ClaimedFrom now engine max_age t (claim_found now found t)
    go none a = unfold claim_found in (a, refl)
    go (some r) f = unfold claim_found in (r, f, refl, refl, refl)
