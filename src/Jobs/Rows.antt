-- ===== src/Jobs/Rows.antt =====
-- Each statement of common/database.py on `web_search_jobs`, read back by `fetch`.
use topicstreams.Model.{WebResult}
use topicstreams.Jobs.{JobOutcome, Row, Table, update, finish_row, complete, fetch, delete}
use topicstreams.Base.{
  ℕ, ◌<◌, String, ◌≡◌, refl, not, Option, none, some, List, [], ◌∷◌, arith, ◌==◌, if◌then◌else◌,
  filter, All,
}

-- The row with the changes, if there is one.
abbrev pub changed : (Row → Row) → Option Row → Option Row
changed f none = none
changed f (some r) = some (f r)

fetch-update :
    (i j : ℕ) (f : Row → Row) (rows : List Row)
    → ((r : Row) → (f r).ident ≡ r.ident)
    → fetch j (update i f rows) ≡ (if i == j then changed f (fetch j rows) else fetch j rows)
unfolding fetch update
fetch-update i j f [] keeps = ground arith
fetch-update i j f (r ∷ rows) keeps = ground (arith, keeps r, fetch-update i j f rows keeps)

pub fetch-complete :
    (now i j : ℕ) (o : JobOutcome) (results : Option (List WebResult)) (error : Option String)
    (t : Table)
    → fetch j (complete now i o results error t).rows ≡ (
        if i == j
        then changed (finish_row now o results error) (fetch j t.rows)
        else fetch j t.rows)
unfolding complete
fetch-complete now i j o results error t =
    fetch-update i j (finish_row now o results error) t.rows (λ r. refl)

fetch-without :
    (i j : ℕ) (rows : List Row)
    → fetch j (filter (λ r. not (r.ident == i)) rows) ≡ (if i == j then none else fetch j rows)
unfolding fetch
fetch-without i j [] = ground arith
fetch-without i j (r ∷ rows) = ground (arith, fetch-without i j rows)

pub fetch-delete :
    (i j : ℕ) (t : Table) → fetch j (delete i t).rows ≡ (if i == j then none else fetch j t.rows)
unfolding delete
fetch-delete i j t = fetch-without i j t.rows

-- Ids are handed out in order, so no row has the id of another.
abbrev pub Below : ℕ → List Row → Type 0
Below n rows = All (λ r. r.ident < n) rows

abbrev pub Distinct : List Row → Type 0
Distinct [] = Unit
Distinct (r ∷ rows) = Below r.ident rows × Distinct rows

pub record IsValid (t : Table) : Type 0 where
  pub below : Below t.next_id t.rows
  pub distinct : Distinct t.rows
