-- ===== src/Jobs.antt =====
-- The table `web_search_jobs` and its statements, in common/database.py and postgres/init.sql. The
-- table is a list, newest row first; each statement is atomic, and `now` is the database's clock in
-- ticks. Results are stored as they are: writing them to JSON and reading them back is not modelled.
pub mod Rows
pub mod Claims
pub mod Once
pub mod Capacity
mod Tests
use topicstreams.Model.{WebResult}
use topicstreams.Base.{
  ℕ, zero, suc, ◌+◌, ◌-◌, ◌*◌, ◌/◌, ◌%◌, ◌^◌, ◌≤◌, ◌<◌, min, max, String, ◌≡◌, refl, sym, ap, ap₂,
  subst, ◌∙◌, ◌≢◌, ◌↔◌, ◌⊎◌, inl, inr, Bool, true, false, not, ◌&&◌, ◌||◌, Option, none, some, List,
  [], ◌∷◌, ◌++◌, map, reverse, arith, eq_iff, ltb, leb, ◌==◌, str_eq, if◌then◌else◌, ltb→lt, lt→ltb,
  leb→le, le→leb, ==_iff, tests, Bool-cases, Option-cases, length, take, any, all, cons_if, filter,
  is_empty, All, length-append, length-take, length-filter-le, length-cons_if-le, any-append,
  filter-append, length-map, member, add, discard, str_eq_self, member-add, member-discard, get,
  put, keys, values, get-put, get-put_self, get-put_ne, get_elem?, get_elem?-middle,
  get_elem?_total, append_assoc, append-nil, stretch, stretch-ge, stretch_mono,
}

pub data Status : Type 0 where
  pending claimed done : Status

pub data JobOutcome : Type 0 where
  ok empty blocked error cooling : JobOutcome

pub record Row : Type 0 where
  pub ident : ℕ
  pub query : String
  pub engine : String
  pub status : Status
  pub outcome : Option JobOutcome
  pub results : Option (List WebResult)
  pub error_text : Option String
  pub created_at : ℕ
  pub claimed_at : Option ℕ
  pub finished_at : Option ℕ

pub record Table : Type 0 where
  pub next_id : ℕ
  pub rows : List Row

abbrev pub is_pending : Status → Bool
is_pending pending = true
is_pending _ = false

-- `status IN ('pending', 'claimed')`
abbrev pub is_open : Status → Bool
is_open done = false
is_open _ = true

unfoldable pub in_flight : String → List Row → ℕ
in_flight engine rows = length (filter (λ r. str_eq r.engine engine && is_open r.status) rows)

abbrev pub new_row : ℕ → ℕ → String → String → Row
new_row now ident query engine = record {
  ident = ident;
  query = query;
  engine = engine;
  status = pending;
  outcome = none;
  results = none;
  error_text = none;
  created_at = now;
  claimed_at = none;
  finished_at = none;
}

unfoldable pub insert_job : ℕ → String → String → Table → Option ℕ × Table
insert_job now query engine t = (
  some t.next_id,
  record { next_id = suc t.next_id; rows = new_row now t.next_id query engine ∷ t.rows },
)

-- `enqueue_web_search`: no limit, or an insert on the condition that the engine has room. The statement
-- counts the rows that it sees, `seen`; when statements race, these may be older than the table into
-- which it inserts.
unfoldable pub enqueue_seen : List Row → ℕ → String → String → Option ℕ → Table → Option ℕ × Table
unfolding insert_job
enqueue_seen seen now query engine none t = insert_job now query engine t
enqueue_seen seen now query engine (some limit) t =
    if ltb (in_flight engine seen) limit then insert_job now query engine t else (none, t)

-- The statement when none races with it.
unfoldable pub enqueue : ℕ → String → String → Option ℕ → Table → Option ℕ × Table
unfolding enqueue_seen
enqueue now query engine limit t = enqueue_seen t.rows now query engine limit t

-- `created_at > NOW() - max_age`
abbrev pub is_young : ℕ → Option ℕ → ℕ → Bool
is_young now none created = true
is_young now (some age) created = ltb now (created + age)

unfoldable pub claimable : ℕ → String → Option ℕ → Row → Bool
claimable now engine max_age r =
    str_eq r.engine engine && is_pending r.status && is_young now max_age r.created_at

abbrev pub older : Row → Option Row → Row
older r none = r
older r (some q) = if ltb r.created_at q.created_at then r else q

-- `ORDER BY created_at LIMIT 1` among the rows that pass the test.
unfoldable pub oldest : (Row → Bool) → List Row → Option Row
oldest p [] = none
oldest p (r ∷ rs) = let later = oldest p rs in if p r then some (older r later) else later

-- `UPDATE … WHERE id = i`
unfoldable pub update : ℕ → (Row → Row) → List Row → List Row
update i f rows = map (λ r. if r.ident == i then f r else r) rows

abbrev pub claim_row : ℕ → Row → Row
claim_row now r = record r { status = claimed; claimed_at = some now }

unfoldable pub claim_found : ℕ → Option Row → Table → Option (ℕ × String) × Table
claim_found now none t = (none, t)
claim_found now (some r) t =
    (some (r.ident, r.query), record t { rows = update r.ident (claim_row now) t.rows })

-- `claim_web_search_job`
unfoldable pub claim : ℕ → String → Option ℕ → Table → Option (ℕ × String) × Table
claim now engine max_age t = claim_found now (oldest (claimable now engine max_age) t.rows) t

abbrev pub finish_row : ℕ → JobOutcome → Option (List WebResult) → Option String → Row → Row
finish_row now outcome results message r = record r {
  status = done;
  outcome = some outcome;
  results = results;
  error_text = message;
  finished_at = some now;
}

-- `complete_web_search_job`
unfoldable pub complete :
    ℕ → ℕ → JobOutcome → Option (List WebResult) → Option String → Table → Table
complete now i outcome results message t = record t {
  rows = update i (finish_row now outcome results message) t.rows;
}

-- `fetch_web_search_result`
unfoldable pub fetch : ℕ → List Row → Option Row
fetch i [] = none
fetch i (r ∷ rs) = if r.ident == i then some r else fetch i rs

-- `delete_web_search_job`
unfoldable pub delete : ℕ → Table → Table
delete i t = record t { rows = filter (λ r. not (r.ident == i)) t.rows }

-- `purge_stale_web_search_jobs`: deletes the rows with `created_at < NOW() - max_age`.
unfoldable pub purge_stale : ℕ → ℕ → Table → ℕ × Table
purge_stale now max_age t =
    let kept = filter (λ r. leb now (r.created_at + max_age)) t.rows in
    (length t.rows - length kept, record t { rows = kept })
