-- ===== src/Connections.antt =====
-- `retry_on_transient_error` and the connections of common/database.py. The calls of psycopg2 are
-- parameters: what a call gives, and whether it raises.
pub mod Retries
pub mod Slots
mod Tests
use topicstreams.Base.{
  ℕ, zero, suc, ◌+◌, ◌-◌, ◌*◌, ◌/◌, ◌%◌, ◌^◌, ◌≤◌, ◌<◌, min, max, String, ◌≡◌, refl, sym, ap, ap₂,
  subst, ◌∙◌, ◌≢◌, ◌↔◌, ◌⊎◌, inl, inr, Bool, true, false, not, ◌&&◌, ◌||◌, Option, none, some, List,
  [], ◌∷◌, ◌++◌, map, reverse, arith, eq_iff, ltb, leb, ◌==◌, str_eq, if◌then◌else◌, ltb→lt, lt→ltb,
  leb→le, le→leb, ==_iff, tests, Bool-cases, Option-cases, length, take, any, all, cons_if, filter,
  is_empty, All, length-append, length-take, length-filter-le, length-cons_if-le, any-append,
  filter-append, length-map, member, add, discard, str_eq_self, member-add, member-discard,
  member-filter, get, put, keys, values, get-put, get-put_self, get-put_ne, get_elem?,
  get_elem?-middle, get_elem?_total, append_assoc, append-nil, stretch, stretch-ge, stretch_mono,
  All-filter, All-map, All-imp, drop, DistinctKeys, get_absent, member-put, put-DistinctKeys,
  sort_desc, Descending, DistinctBy, filter-sort_desc, sort_desc-Descending, All-sort_desc,
  filter-Descending, below_middle, below_twice, last, last-append, take_full, All-middle, take_all,
  filter-All, filter_keeps, All-always, last-map, length-sort_desc, filter-DistinctBy, get_present,
  All-both, map-take,
}

-- A call returns, or raises one of TRANSIENT_ERRORS, or anything else.
pub data Attempt (A : Type 0) : Type 0 where
  returned : A → Attempt A
  transient : String → Attempt A
  fatal : String → Attempt A

-- What the wrapper does, with the times that it slept; it returns None when it made no attempt.
pub data Wrapped (A : Type 0) : Type 0 where
  value : A → Wrapped A
  raised : String → Wrapped A
  nothing : Wrapped A

-- The handling of one attempt, for the attempts that are left after it and what they give.
unfoldable pub handle_attempt :
    {A : Type 0} → ℕ → ℕ → Attempt A → Wrapped A × List ℕ → Wrapped A × List ℕ
handle_attempt backoff left (returned a) rest = (value a, [])
handle_attempt backoff left (fatal e) rest = (raised e, [])
handle_attempt backoff zero (transient e) rest = (raised e, [])
handle_attempt backoff (suc left) (transient e) rest = (rest.0, backoff ∷ rest.1)

module _ {A : Type 0} (call : ℕ → Attempt A) (delay : ℕ) where
  -- The loop from an attempt on, with the attempts that are left.
  unfoldable pub retry_from : ℕ → ℕ → Wrapped A × List ℕ
  retry_from attempt zero = (nothing, [])
  retry_from attempt (suc left) =
      handle_attempt (delay * 2 ^ attempt) left (call attempt) (retry_from (suc attempt) left)

  -- The wrapper, for a number of attempts.
  unfoldable pub retry_on_transient_error : ℕ → Wrapped A × List ℕ
  retry_on_transient_error attempts = retry_from 0 attempts

-- The semaphore `_conn_slots`, and the connections that are checked out of the pool.
pub record Pool : Type 0 where
  pub free_slots : ℕ
  pub checked_out : ℕ

-- What the calls of a `with _Connection()` block do: whether the connection is got, whether the body
-- raises, whether the commit or the rollback raises, and whether putting it back does.
pub record Calls : Type 0 where
  pub opens : Bool
  pub body_raises : Bool
  pub finish_raises : Bool
  pub put_raises : Bool

pub data Finish : Type 0 where
  committed rolled_back unfinished : Finish

-- `acquire` waits while there is no slot.
unfoldable pub acquire : Pool → Option Pool
acquire p = if p.free_slots == 0 then none else some (record p { free_slots = p.free_slots - 1 })

abbrev pub release : Pool → Pool
release p = record p { free_slots = suc p.free_slots }

-- `__enter__`, after the slot is acquired: none when it raises.
unfoldable pub enter : Calls → Pool → Option Pool × Pool
enter c p =
    if c.opens then (some (record p { checked_out = suc p.checked_out }), p) else (none, release p)

-- `__exit__`: the transaction ends, the connection is put back, whatever that raises, and the slot is
-- released. A connection whose return raises stays checked out.
unfoldable pub exit : Calls → Pool → Finish × Pool
exit c p = (
  if c.finish_raises then unfinished else if c.body_raises then rolled_back else committed,
  release (record p { checked_out = if c.put_raises then p.checked_out else p.checked_out - 1 }),
)

-- The block: whether it raises, how the transaction ends, and the pool after it; none while it waits.
pub record Block : Type 0 where
  pub raises : Bool
  pub finish : Finish
  pub pool : Pool

abbrev pub run_block : Calls → Option Pool × Pool → Block
run_block c (none, p) = record { raises = true; finish = unfinished; pool = p }
run_block c (some entered, p) =
    let (finish, left) = exit c entered in
    record {
      raises = c.body_raises || c.finish_raises || c.put_raises;
      finish = finish;
      pool = left;
    }

abbrev pub after_acquire : Calls → Option Pool → Option Block
after_acquire c none = none
after_acquire c (some p) = some (run_block c (enter c p))

unfoldable pub with_connection : Calls → Pool → Option Block
with_connection c p = after_acquire c (acquire p)
