-- ===== src/Config.antt =====
-- The readers of `config.yml` in common/config.py. The file is a YAML value that a library has
-- parsed; a number is its literal. Loading the file and copying its example are not modelled.
pub mod Scraping
pub mod AntiDetection
pub mod HumanSimulation
pub mod Paths
mod Tests
use topicstreams.Base.{
  ℕ, zero, suc, ◌+◌, ◌-◌, ◌*◌, ◌/◌, ◌%◌, ◌^◌, ◌≤◌, ◌<◌, min, max, String, ◌≡◌, refl, sym, ap, ap₂,
  subst, ◌∙◌, ◌≢◌, ◌↔◌, ◌⊎◌, inl, inr, Bool, true, false, not, ◌&&◌, ◌||◌, Option, none, some, List,
  [], ◌∷◌, ◌++◌, map, reverse, arith, eq_iff, ltb, leb, ◌==◌, str_eq, if◌then◌else◌, ltb→lt, lt→ltb,
  leb→le, le→leb, ==_iff, tests, Bool-cases, Option-cases, length, take, any, all, cons_if, filter,
  is_empty, All, length-append, length-take, length-filter-le, length-cons_if-le, any-append,
  filter-append, length-map, member, add, discard, str_eq_self, member-add, member-discard,
  member-filter, get, put, keys, values, get-put, get-put_self, get-put_ne, get_elem?,
  get_elem?-middle, get_elem?_total, append_assoc, append-nil, stretch, stretch-ge, stretch_mono,
  All-filter, All-map, All-imp, drop, DistinctKeys, get_absent, member-put, put-DistinctKeys,
  sort_desc, Descending, DistinctBy, filter-sort_desc, sort_desc-Descending, All-sort_desc,
  filter-Descending, below_middle, below_twice, last, last-append, take_full, All-middle, take_all,
  filter-All, filter_keeps, All-always, last-map, length-sort_desc, filter-DistinctBy, get_present,
  All-both, map-take,
}

mutual
  pub data Yaml : Type 0 where
    null : Yaml
    flag : Bool → Yaml
    number : String → Yaml
    text : String → Yaml
    sequence : Items → Yaml
    mapping : Entries → Yaml

  pub data Items : Type 0 where
    no_items : Items
    item : Yaml → Items → Items

  pub data Entries : Type 0 where
    no_entries : Entries
    entry : String → Yaml → Entries → Entries

-- `value.get(key)`, where a missing key gives None as a null does.
unfoldable pub get_key : String → Entries → Yaml
get_key key no_entries = null
get_key key (entry k value rest) = if str_eq k key then value else get_key key rest

abbrev pub or_default : Yaml → Yaml → Yaml
or_default default null = default
or_default default (flag b) = flag b
or_default default (number n) = number n
or_default default (text s) = text s
or_default default (sequence s) = sequence s
or_default default (mapping m) = mapping m

-- The step of `_get` into one key: null is the end, with the default.
abbrev pub step : String → Yaml → Yaml
step key (mapping entries) = get_key key entries
step key null = null
step key (flag b) = null
step key (number n) = null
step key (text s) = null
step key (sequence s) = null

-- `_get`: a null on the way has no keys, so it ends at the default like a missing key does.
unfoldable pub get_value : Yaml → List String → Yaml → Yaml
get_value default [] value = or_default default value
get_value default (key ∷ keys) value = get_value default keys (step key value)

-- A property of a configuration: the keys that it reads and its default.
pub record Setting : Type 0 where
  pub path : List String
  pub default : Yaml

unfoldable pub read : Setting → Yaml → Yaml
read s config = get_value s.default s.path config

abbrev pub items_of : List String → Items
items_of [] = no_items
items_of (x ∷ xs) = item (text x) (items_of xs)

abbrev pub texts : List String → Yaml
texts xs = sequence (items_of xs)

-- `or []` and `or {}`: an empty text, sequence or mapping, zero and false give the fallback too.
unfoldable pub or_else : Yaml → Yaml → Yaml
or_else fallback null = fallback
or_else fallback (flag b) = if b then flag b else fallback
or_else fallback (number n) = if str_eq n "0" || str_eq n "0.0" then fallback else number n
or_else fallback (text s) = if str_eq s "" then fallback else text s
or_else fallback (sequence no_items) = fallback
or_else fallback (sequence (item x xs)) = sequence (item x xs)
or_else fallback (mapping no_entries) = fallback
or_else fallback (mapping (entry k v rest)) = mapping (entry k v rest)
