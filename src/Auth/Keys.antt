-- ===== src/Auth/Keys.antt =====
-- The statements of common/database.py on `api_keys`.
pub mod Tokens
use topicstreams.Base.{
  ℕ, zero, suc, ◌+◌, ◌-◌, ◌*◌, ◌/◌, ◌%◌, ◌^◌, ◌≤◌, ◌<◌, min, max, String, ◌≡◌, refl, sym, ap, ap₂,
  subst, ◌∙◌, ◌≢◌, ◌↔◌, ◌⊎◌, inl, inr, Bool, true, false, not, ◌&&◌, ◌||◌, Option, none, some, List,
  [], ◌∷◌, ◌++◌, map, reverse, arith, eq_iff, ltb, leb, ◌==◌, str_eq, if◌then◌else◌, ltb→lt, lt→ltb,
  leb→le, le→leb, ==_iff, tests, Bool-cases, Option-cases, length, take, any, all, cons_if, filter,
  is_empty, All, length-append, length-take, length-filter-le, length-cons_if-le, any-append,
  filter-append, length-map, member, add, discard, str_eq_self, member-add, member-discard,
  member-filter, get, put, keys, values, get-put, get-put_self, get-put_ne, get_elem?,
  get_elem?-middle, get_elem?_total, append_assoc, append-nil, stretch, stretch-ge, stretch_mono,
  All-filter, All-map, All-imp, drop, DistinctKeys, get_absent, member-put, put-DistinctKeys,
  sort_desc, Descending, DistinctBy, filter-sort_desc, sort_desc-Descending, All-sort_desc,
  filter-Descending, below_middle, below_twice, last, last-append, take_full, All-middle, take_all,
  filter-All, filter_keeps, All-always, last-map, length-sort_desc, filter-DistinctBy, get_present,
  All-both, map-take,
}

pub record ApiKey : Type 0 where
  pub ident : ℕ
  pub token : String
  pub label : Option String
  pub is_active : Bool
  pub created_at : ℕ

pub record ApiKeys : Type 0 where
  pub rows : List ApiKey
  pub next_id : ℕ

unfoldable pub get_active_api_keys : List ApiKey → List String
get_active_api_keys rows = map (λ r. r.token) (filter (λ r. r.is_active) rows)

-- `COALESCE`
unfoldable pub coalesce : Option String → Option String → Option String
coalesce none old = old
coalesce (some new) old = some new

unfoldable pub find_token : String → List ApiKey → Option ℕ
find_token token [] = none
find_token token (r ∷ rows) = if str_eq r.token token then some r.ident else find_token token rows

abbrev pub reactivate : String → Option String → ApiKey → ApiKey
reactivate token label r =
    if str_eq r.token token
    then record r { is_active = true; label = coalesce label r.label }
    else r

-- The upsert of `add_api_key`, whose sequence moves on in a conflict too.
unfoldable pub upsert_key : ℕ → String → Option String → ApiKeys → Option ℕ → ℕ × ApiKeys
upsert_key now token label t none = (
  t.next_id,
  record {
    rows =
        record {
          ident = t.next_id;
          token = token;
          label = label;
          is_active = true;
          created_at = now;
        }
        ∷ t.rows;
    next_id = suc t.next_id;
  },
)
upsert_key now token label t (some i) =
    (i, record { rows = map (reactivate token label) t.rows; next_id = suc t.next_id })

unfoldable pub add_api_key : ℕ → String → Option String → ApiKeys → ℕ × ApiKeys
add_api_key now token label t = upsert_key now token label t (find_token token t.rows)

abbrev pub set_active : ℕ → Bool → ApiKey → ApiKey
set_active i active r = if r.ident == i then record r { is_active = active } else r

unfoldable pub set_api_key_active : ℕ → Bool → ApiKeys → Bool × ApiKeys
set_api_key_active i active t =
    (any (λ r. r.ident == i) t.rows, record t { rows = map (set_active i active) t.rows })

unfoldable pub delete_api_key : ℕ → ApiKeys → Bool × ApiKeys
delete_api_key i t =
    (any (λ r. r.ident == i) t.rows, record t { rows = filter (λ r. not (r.ident == i)) t.rows })
