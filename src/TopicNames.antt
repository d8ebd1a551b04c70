-- ===== src/TopicNames.antt =====
-- `normalize_topic` of common/utils.py and `_normalize_or_400` of api/v1/topics.py, on the code points of
-- a text. `is_word`, an argument, is the class `\w` of a regular expression.
pub mod Edges
pub mod Canonical
pub mod Stable
mod Tests
use topicstreams.Text.{lower, is_space}
use topicstreams.Base.{
  ℕ, zero, suc, ◌+◌, ◌-◌, ◌*◌, ◌/◌, ◌%◌, ◌^◌, ◌≤◌, ◌<◌, min, max, String, ◌≡◌, refl, sym, ap, ap₂,
  subst, ◌∙◌, ◌≢◌, ◌↔◌, ◌⊎◌, inl, inr, Bool, true, false, not, ◌&&◌, ◌||◌, Option, none, some, List,
  [], ◌∷◌, ◌++◌, map, reverse, arith, eq_iff, ltb, leb, ◌==◌, str_eq, if◌then◌else◌, ltb→lt, lt→ltb,
  leb→le, le→leb, ==_iff, tests, Bool-cases, Option-cases, length, take, any, all, cons_if, filter,
  is_empty, All, length-append, length-take, length-filter-le, length-cons_if-le, any-append,
  filter-append, length-map, member, add, discard, str_eq_self, member-add, member-discard,
  member-filter, get, put, keys, values, get-put, get-put_self, get-put_ne, get_elem?,
  get_elem?-middle, get_elem?_total, append_assoc, append-nil, stretch, stretch-ge, stretch_mono,
  All-filter, All-map, All-imp, drop, DistinctKeys, get_absent, member-put, put-DistinctKeys,
  sort_desc, Descending, DistinctBy, filter-sort_desc, sort_desc-Descending, All-sort_desc,
  filter-Descending, below_middle, below_twice, last, last-append, take_full, All-middle, take_all,
  filter-All, filter_keeps, All-always, last-map, length-sort_desc, filter-DistinctBy, get_present,
  All-both, map-take, All-take,
}

abbrev pub blank : ℕ
blank = 32

abbrev pub is_hyphen : ℕ → Bool
is_hyphen c = c == 45

-- `re.sub(r"[^\w\s\-]", " ", topic)`
abbrev pub is_kept : (ℕ → Bool) → ℕ → Bool
is_kept is_word c = is_word c || is_space c || is_hyphen c

unfoldable pub clean : (ℕ → Bool) → List ℕ → List ℕ
clean is_word s = map (λ c. if is_kept is_word c then c else blank) s

-- `re.sub(r"\s+", " ", topic)`, where the argument says that a space stands just before.
unfoldable pub collapse_after : Bool → List ℕ → List ℕ
collapse_after spaced [] = []
collapse_after spaced (c ∷ s) =
    let after_space = collapse_after true s in
    let after_other = collapse_after false s in
    if is_space c then (if spaced then after_space else blank ∷ after_space) else c ∷ after_other

abbrev pub collapse : List ℕ → List ℕ
collapse s = collapse_after false s

abbrev pub starts : (ℕ → Bool) → List ℕ → Bool
starts p [] = false
starts p (c ∷ s) = p c

unfoldable pub lstrip_by : (ℕ → Bool) → List ℕ → List ℕ
lstrip_by p [] = []
lstrip_by p (c ∷ s) = let rest = lstrip_by p s in if p c then rest else c ∷ s

unfoldable pub rstrip_by : (ℕ → Bool) → List ℕ → List ℕ
rstrip_by p [] = []
rstrip_by p (c ∷ s) = let rest = rstrip_by p s in if is_empty rest && p c then [] else c ∷ rest

-- `re.sub(r"\s*-\s*", "-", topic)`
unfoldable pub tighten : List ℕ → List ℕ
unfolding lstrip_by
tighten [] = []
tighten (c ∷ s) =
    let rest = tighten s in
    if is_hyphen c
    then c ∷ lstrip_by is_space rest
    else if is_space c && starts is_hyphen rest
    then rest
    else c ∷ rest

abbrev pub strip_by : (ℕ → Bool) → List ℕ → List ℕ
strip_by p s = rstrip_by p (lstrip_by p s)

-- The hyphens at the ends go before the spaces.
unfoldable pub normalize_topic : (ℕ → Bool) → List ℕ → List ℕ
unfolding lower clean tighten
normalize_topic is_word topic =
    strip_by is_space (strip_by is_hyphen (tighten (collapse (clean is_word (lower topic)))))

-- None is the error INVALID_TOPIC_NAME.
unfoldable pub normalize_or_400 : (ℕ → Bool) → List ℕ → Option (List ℕ)
normalize_or_400 is_word raw =
    let normalized = normalize_topic is_word raw in
    if is_empty normalized then none else some normalized
