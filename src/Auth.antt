-- ===== src/Auth.antt =====
-- The bearer tokens of the REST API, api/auth.py, and their table `api_keys` in common/database.py.
-- Times are milliseconds; the lock makes a refresh one step. What a read of the table gives is an
-- argument: none when it fails.
pub mod Keys
pub mod Freshness
pub mod Decisions
mod Tests
use topicstreams.Text.{codes, lower}
use topicstreams.Base.{
  ℕ, zero, suc, ◌+◌, ◌-◌, ◌*◌, ◌/◌, ◌%◌, ◌^◌, ◌≤◌, ◌<◌, min, max, String, ◌≡◌, refl, sym, ap, ap₂,
  subst, ◌∙◌, ◌≢◌, ◌↔◌, ◌⊎◌, inl, inr, Bool, true, false, not, ◌&&◌, ◌||◌, Option, none, some, List,
  [], ◌∷◌, ◌++◌, map, reverse, arith, eq_iff, ltb, leb, ◌==◌, str_eq, if◌then◌else◌, ltb→lt, lt→ltb,
  leb→le, le→leb, ==_iff, tests, Bool-cases, Option-cases, length, take, any, all, cons_if, filter,
  is_empty, All, length-append, length-take, length-filter-le, length-cons_if-le, any-append,
  filter-append, length-map, member, add, discard, str_eq_self, member-add, member-discard,
  member-filter, get, put, keys, values, get-put, get-put_self, get-put_ne, get_elem?,
  get_elem?-middle, get_elem?_total, append_assoc, append-nil, stretch, stretch-ge, stretch_mono,
  All-filter, All-map, All-imp, drop, DistinctKeys, get_absent, member-put, put-DistinctKeys,
  sort_desc, Descending, DistinctBy, filter-sort_desc, sort_desc-Descending, All-sort_desc,
  filter-Descending, below_middle, below_twice, last, last-append, take_full, All-middle, take_all,
  filter-All, filter_keeps, All-always, last-map, length-sort_desc, filter-DistinctBy, get_present,
  All-both, map-take,
}

pub record Cache : Type 0 where
  pub db_keys : List String
  pub expires_at : ℕ

abbrev pub error_backoff : ℕ
error_backoff = 5000

-- The end of `_refresh_db_keys` after its read.
unfoldable pub refreshed : ℕ → ℕ → Option (List String) → Cache → Cache
refreshed now ttl none c = record c { expires_at = now + min ttl error_backoff }
refreshed now ttl (some keys) c = record { db_keys = keys; expires_at = now + ttl }

-- `_refresh_db_keys`, at the time at which it has the lock.
unfoldable pub refresh_db_keys : ℕ → ℕ → Option (List String) → Cache → Cache
refresh_db_keys now ttl loaded c = if ltb now c.expires_at then c else refreshed now ttl loaded c

-- `_valid_db_keys` looks at the clock twice, before and in the threadpool; the tokens that it returns
-- are those of the cache that it leaves.
unfoldable pub valid_db_keys : ℕ → ℕ → ℕ → Option (List String) → Cache → Cache
valid_db_keys now later ttl loaded c =
    if ltb now c.expires_at then c else refresh_db_keys later ttl loaded c

unfoldable pub warm_api_key_cache : ℕ → ℕ → Option (List String) → Cache → Cache
warm_api_key_cache now ttl loaded c = refresh_db_keys now ttl loaded (record c { expires_at = 0 })

unfoldable pub reset_api_key_cache : Cache → Cache
reset_api_key_cache c = record { db_keys = []; expires_at = 0 }

pub record Credentials : Type 0 where
  pub scheme : String
  pub credentials : String

-- A request passes, is answered with 401, or fails in `compare_digest`.
pub data Verdict : Type 0 where
  granted unauthorized crashed : Verdict

abbrev pub same_codes : List ℕ → List ℕ → Bool
same_codes [] [] = true
same_codes [] (d ∷ t) = false
same_codes (c ∷ s) [] = false
same_codes (c ∷ s) (d ∷ t) = c == d && same_codes s t

abbrev pub is_ascii : String → Bool
is_ascii s = all (λ c. ltb c 128) (codes s)

-- `secrets.compare_digest` accepts two texts only if both are ASCII, and raises TypeError else.
unfoldable pub compare_digest : String → String → Option Bool
compare_digest s t = if is_ascii s && is_ascii t then some (str_eq s t) else none

-- The `any` over the tokens, which stops at the first match.
abbrev pub or_next : Option Bool → Verdict → Verdict
or_next none rest = crashed
or_next (some true) rest = granted
or_next (some false) rest = rest

unfoldable pub check_token : String → List String → Verdict
check_token token [] = unauthorized
check_token token (k ∷ ks) = or_next (compare_digest token k) (check_token token ks)

unfoldable pub check_credentials : List String → Option Credentials → Verdict
check_credentials keys none = unauthorized
check_credentials keys (some c) =
    if not (same_codes (lower (codes c.scheme)) (codes "bearer"))
    then unauthorized
    else check_token c.credentials keys

-- `require_api_key`, for the tokens of the environment and of the cache.
unfoldable pub require_api_key : List String → Cache → Option Credentials → Verdict
require_api_key env c credentials =
    if is_empty (env ++ c.db_keys)
    then granted
    else check_credentials (env ++ c.db_keys) credentials
