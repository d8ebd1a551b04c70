-- ===== src/Connections/Retries.antt =====
-- How often `retry_on_transient_error` of common/database.py calls, and how long it sleeps.
use topicstreams.Connections.{
  Attempt, returned, transient, fatal, Wrapped, value, raised, handle_attempt, retry_from,
  retry_on_transient_error,
}
use topicstreams.Cooldown.Backoff.{doubled}
use topicstreams.Base.{
  ℕ, zero, suc, ◌+◌, ◌*◌, ◌^◌, ◌<◌, ◌≡◌, refl, sym, ap, subst, ◌∙◌, ◌⊎◌, inl, inr, Bool, true,
  false, List, [], ◌∷◌, arith, length, all,
}

abbrev pub total : List ℕ → ℕ
total [] = 0
total (x ∷ xs) = x + total xs

-- The error of a call is transient.
abbrev pub is_transient : {A : Type 0} → Attempt A → Bool
is_transient (returned a) = false
is_transient (transient e) = true
is_transient (fatal e) = false

-- What the wrapper gives for the call at which it ends.
abbrev pub outcome_of : {A : Type 0} → Attempt A → Wrapped A
outcome_of (returned a) = value a
outcome_of (transient e) = raised e
outcome_of (fatal e) = raised e

-- The calls from one on, of a number, are transient.
abbrev pub AllTransient : {A : Type 0} → (ℕ → Attempt A) → ℕ → ℕ → Type 0
AllTransient call first zero = Unit
AllTransient call first (suc n) =
    (is_transient (call first) ≡ true) × AllTransient call (suc first) n

-- The loop makes `retries` transient calls and one more, which is not transient or is the last one.
pub record Retried {A : Type 0} (call : ℕ → Attempt A) (delay first attempts : ℕ)
    (result : Wrapped A × List ℕ) (retries : ℕ) : Type 0 where
  pub bounded : retries < attempts
  pub before : AllTransient call first retries
  pub last_call : is_transient (call (first + retries)) ≡ false ⊎ retries + 1 ≡ attempts
  pub outcome : result.0 ≡ outcome_of (call (first + retries))
  pub sleeps : length result.1 ≡ retries
  pub slept : total result.1 + delay * 2 ^ first ≡ delay * 2 ^ (first + retries)

module _ {A : Type 0} (call : ℕ → Attempt A) (delay : ℕ) where
  ends_here :
      (first left : ℕ) (result : Wrapped A × List ℕ)
      → is_transient (call first) ≡ false ⊎ 1 ≡ suc left
      → result.0 ≡ outcome_of (call first)
      → result.1 ≡ []
      → Retried call delay first (suc left) result 0
  ends_here first left result last_call outcome none_slept =
      let here : call first ≡ call (first + 0) = ap call (omega arith) in
      record {
        bounded = omega arith;
        before = tt;
        last_call = subst (λ (a : Attempt A). is_transient a ≡ false ⊎ 1 ≡ suc left) here last_call;
        outcome = outcome ∙ ap outcome_of here;
        sleeps = ap length none_slept;
        slept = omega (
          arith,
          ap total none_slept,
          ap (λ n. delay * 2 ^ n) {x = first} {y = first + 0} (omega arith),
        );
      }

  goes_on :
      (first left k : ℕ) (rest : Wrapped A × List ℕ)
      → is_transient (call first) ≡ true
      → Retried call delay (suc first) left rest k
      → Retried call delay first (suc left) (rest.0, delay * 2 ^ first ∷ rest.1) (suc k)
  goes_on first left k rest again r =
      let same : call (suc first + k) ≡ call (first + suc k) = ap call (omega arith) in
      record {
        bounded = omega (arith, r.bounded);
        before = (again, r.before);
        last_call = elim r.last_call [
          | inl ended ↦ inl (ap is_transient (sym same) ∙ ended)
          | inr all ↦ inr (omega (arith, all))
        ];
        outcome = r.outcome ∙ ap outcome_of same;
        sleeps = ap suc r.sleeps;
        slept = omega (
          arith,
          r.slept,
          doubled delay first,
          ap (λ n. delay * 2 ^ n) {x = suc first + k} {y = first + suc k} (omega arith),
        );
      }

  retry_step :
      (first left : ℕ) (a : Attempt A)
      → call first ≡ a
      → ((n : ℕ)
          → left ≡ suc n
          → (k : ℕ) × Retried call delay
              (suc first)
              left
              (retry_from call delay (suc first) left)
              k)
      → (k : ℕ) × Retried call delay first
          (suc left)
          (handle_attempt (delay * 2 ^ first) left a (retry_from call delay (suc first) left))
          k
  unfolding handle_attempt
  retry_step first left (returned a) e rest =
      (0, ends_here first left _ (inl (ap is_transient e)) (sym (ap outcome_of e)) refl)
  retry_step first left (fatal x) e rest =
      (0, ends_here first left _ (inl (ap is_transient e)) (sym (ap outcome_of e)) refl)
  retry_step first zero (transient x) e rest =
      (0, ends_here first zero _ (inr refl) (sym (ap outcome_of e)) refl)
  retry_step first (suc left) (transient x) e rest =
      let (k, r) = rest left refl in (suc k, goes_on first (suc left) k _ (ap is_transient e) r)

  retries_from :
      (left first : ℕ)
      → (k : ℕ) × Retried call delay first (suc left) (retry_from call delay first (suc left)) k
  unfolding retry_from
  retries_from zero first =
      retry_step first zero (call first) refl (λ n h. absurd (omega (arith, h)))
  retries_from (suc left) first =
      retry_step first (suc left) (call first) refl (λ n h. retries_from left (suc first))

  -- With at least one attempt the wrapper makes some transient calls and then one that is not
  -- transient or is the last, whose value or error it passes on; it sleeps once after each of the
  -- transient ones, and in all the delay times two to their number, less the delay.
  pub retry_on_transient_error-Retried :
      (attempts : ℕ)
      → 0 < attempts
      → (k : ℕ) × Retried call delay 0 attempts (retry_on_transient_error call delay attempts) k
  unfolding retry_on_transient_error
  retry_on_transient_error-Retried zero pos = absurd (omega arith)
  retry_on_transient_error-Retried (suc left) pos = retries_from left 0
