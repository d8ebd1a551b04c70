-- ===== src/Jobs/Once.antt =====
-- No statement of common/database.py on `web_search_jobs` makes a job that was taken pending again.
use topicstreams.Model.{WebResult}
use topicstreams.Jobs.{
  in_flight, oldest, claim_found, is_pending, JobOutcome, Row, Table, insert_job, enqueue_seen,
  update, claimable, claim_row, claim, finish_row, complete, delete, purge_stale,
}
use topicstreams.Jobs.Claims.{oldest-Finds, Finds, Holds, ClaimedFrom, claim-ClaimedFrom}
use topicstreams.Jobs.Rows.{Below}
use topicstreams.Base.{
  true, ◌≢◌, ltb, some, none, Bool-cases, inl, inr, refl, subst, All-filter, ℕ, ◌<◌, String, ◌≡◌,
  refl, subst, ◌≢◌, inl, inr, Bool, true, false, Option, none, some, List, [], ◌∷◌, arith, ltb,
  ◌==◌, if◌then◌else◌, Bool-cases, All, All-filter, All-map, All-imp,
}

-- One statement of any process; `max_in_flight`, the rows that its count sees, `max_age` and the results
-- are arbitrary.
pub data Statement (t : Table) : Table → Type 0 where
  enqueues :
      (seen : List Row) (now : ℕ) (query engine : String) (limit : Option ℕ)
      → Statement t (enqueue_seen seen now query engine limit t).1
  claims :
      (now : ℕ) (engine : String) (max_age : Option ℕ) → Statement t (claim now engine max_age t).1
  completes :
      (now i : ℕ) (o : JobOutcome) (results : Option (List WebResult)) (message : Option String)
      → Statement t (complete now i o results message t)
  deletes : (i : ℕ) → Statement t (delete i t)
  purges : (now max_age : ℕ) → Statement t (purge_stale now max_age t).1

pub data Statements (t : Table) : Table → Type 0 where
  finish : Statements t t
  next : {u v : Table} → Statements t u → Statement u v → Statements t v

-- The id was handed out, and no row with it is pending.
abbrev pub Settled : ℕ → Row → Type 0
Settled i r = r.ident ≡ i → is_pending r.status ≡ false

pub record IsTaken (i : ℕ) (t : Table) : Type 0 where
  pub known : i < t.next_id
  pub settled : All (Settled i) t.rows

insert-IsTaken :
    (i now : ℕ) (query engine : String) (t : Table)
    → IsTaken i t
    → IsTaken i (insert_job now query engine t).1
unfolding insert_job
insert-IsTaken i now query engine t k = record {
  known = omega arith;
  settled = (λ e. absurd (omega (arith, k.known)), k.settled);
}

enqueue-IsTaken :
    (i : ℕ) (seen : List Row) (now : ℕ) (query engine : String) (limit : Option ℕ) (t : Table)
    → IsTaken i t
    → IsTaken i (enqueue_seen seen now query engine limit t).1
unfolding enqueue_seen
enqueue-IsTaken i seen now query engine none t k = insert-IsTaken i now query engine t k
enqueue-IsTaken i seen now query engine (some n) t k =
    elim (Bool-cases (ltb (in_flight engine seen) n)) [
      | inl room ↦ rw room (insert-IsTaken i now query engine t k)
      | inr full ↦ rw full k
    ]

update-Settled :
    (i j : ℕ) (f : Row → Row) (rows : List Row)
    → ((r : Row) → Settled i r → Settled i (f r))
    → All (Settled i) rows
    → All (Settled i) (update j f rows)
unfolding update
update-Settled i j f rows keeps a =
    All-map (Settled i) _ rows (All-imp (Settled i) _ rows (λ r s. go r s (r.ident == j)) a)
  where
    go : (r : Row) → Settled i r → (b : Bool) → Settled i (if b then f r else r)
    go r s true = keeps r s
    go r s false = s

claim-IsTaken :
    (i now : ℕ) (engine : String) (max_age : Option ℕ) (t : Table)
    → IsTaken i t
    → IsTaken i (claim now engine max_age t).1
unfolding claim
claim-IsTaken i now engine max_age t k = go (oldest (claimable now engine max_age) t.rows)
  where
    go : (found : Option Row) → IsTaken i (claim_found now found t).1
    go none = unfold claim_found in k
    go (some r) =
        unfold claim_found in
        record {
          known = k.known;
          settled = update-Settled i r.ident (claim_row now) t.rows (λ x s e. refl) k.settled;
        }

Statement-IsTaken : (i : ℕ) {t u : Table} → Statement t u → IsTaken i t → IsTaken i u
unfolding complete delete purge_stale
Statement-IsTaken i {t} (enqueues seen now query engine limit) k =
    enqueue-IsTaken i seen now query engine limit t k
Statement-IsTaken i {t} (claims now engine max_age) k = claim-IsTaken i now engine max_age t k
Statement-IsTaken i {t} (completes now j o results message) k = record {
  known = k.known;
  settled = update-Settled i j (finish_row now o results message) t.rows (λ x s e. refl) k.settled;
}
Statement-IsTaken i {t} (deletes j) k = record {
  known = k.known;
  settled = All-filter (Settled i) _ t.rows k.settled;
}
Statement-IsTaken i {t} (purges now max_age) k = record {
  known = k.known;
  settled = All-filter (Settled i) _ t.rows k.settled;
}

Statements-IsTaken : (i : ℕ) {t u : Table} → Statements t u → IsTaken i t → IsTaken i u
Statements-IsTaken i finish k = k
Statements-IsTaken i (next r st) k = Statement-IsTaken i st (Statements-IsTaken i r k)

Settled-of_Holds :
    (i : ℕ) (r : Row) (rows : List Row) → All (Settled i) rows → Holds r rows → Settled i r
Settled-of_Holds i r [] a h = absurd h
Settled-of_Holds i r (x ∷ rows) a (inl e) = subst (Settled i) e a.0
Settled-of_Holds i r (x ∷ rows) a (inr h) = Settled-of_Holds i r rows a.1 h

update_self-Settled :
    (i now : ℕ) (rows : List Row) → All (Settled i) (update i (claim_row now) rows)
unfolding update
update_self-Settled i now [] = tt
update_self-Settled i now (r ∷ rows) = (ground arith, update_self-Settled i now rows)

Holds-Below : (n : ℕ) (r : Row) (rows : List Row) → Below n rows → Holds r rows → r.ident < n
Holds-Below n r [] b h = absurd h
Holds-Below n r (x ∷ rows) b (inl e) = subst (λ y. y.ident < n) e b.0
Holds-Below n r (x ∷ rows) b (inr h) = Holds-Below n r rows b.1 h

-- A claimed job is taken.
taken :
    (now i : ℕ) (engine query : String) (max_age : Option ℕ) (t : Table)
    → Below t.next_id t.rows
    → (claim now engine max_age t).0 ≡ some (i, query)
    → IsTaken i (claim now engine max_age t).1
unfolding claim
taken now i engine query max_age t b =
    go (oldest (claimable now engine max_age) t.rows) (oldest-Finds _ t.rows)
  where
    go :
        (found : Option Row)
        → Finds (claimable now engine max_age) t.rows found
        → (claim_found now found t).0 ≡ some (i, query)
        → IsTaken i (claim_found now found t).1
    go none f e = absurd (unfold claim_found in cc e)
    go (some r) f e =
        let same : r.ident ≡ i = unfold claim_found in ground (arith, e) in
        subst (λ j. IsTaken j (claim_found now (some r) t).1) same
          (unfold claim_found in
            record {
              known = Holds-Below t.next_id r t.rows b f.holds;
              settled = update_self-Settled r.ident now t.rows;
            })

not_claimed :
    (later i : ℕ) (engine : String) (max_age : Option ℕ) (u : Table)
    (answer : Option (ℕ × String) × Table)
    → IsTaken i u
    → ClaimedFrom later engine max_age u answer
    → (query : String) → answer.0 ≢ some (i, query)
unfolding claimable
not_claimed later i engine max_age u (none, v) k c query e = cc
not_claimed later i engine max_age u (some (j, q), v) k (r, old, same, text, rows) query e =
    let at : r.ident ≡ i = ground (arith, e, same) in
    let settled = Settled-of_Holds i r u.rows k.settled old.holds at in
    let waits : is_pending r.status ≡ true = ground (arith, old.passes) in cc (settled, waits)

-- A job that a claim took is never given to a later claim, of any engine and age limit, whatever
-- statements come in between.
pub claim_once :
    (now later i : ℕ) (engine engine' query query' : String) (max_age max_age' : Option ℕ)
    (t u : Table)
    → Below t.next_id t.rows
    → (claim now engine max_age t).0 ≡ some (i, query)
    → Statements (claim now engine max_age t).1 u
    → (claim later engine' max_age' u).0 ≢ some (i, query')
claim_once now later i engine engine' query query' max_age max_age' t u b e r =
    not_claimed later i engine' max_age' u _
      (Statements-IsTaken i r (taken now i engine query max_age t b e))
      (claim-ClaimedFrom later engine' max_age' u) query'
