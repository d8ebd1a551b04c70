-- ===== src/Feed/Purge.antt =====
-- The retention of the feed, `purge_old_news_entries` of common/database.py.
use topicstreams.Feed.{Database, Match, Article, Pair, is_matched, pair_of}
use topicstreams.Feed.Reading.{purge_old_news_entries}
use topicstreams.Feed.Invariant.{UniquePairs, has_match, IsValid}
use topicstreams.Base.{
  ℕ, ◌+◌, String, ◌≡◌, refl, ap, inl, inr, Bool, true, false, not, ◌&&◌, List, [], ◌∷◌, arith,
  eq_iff, ltb, str_eq, Bool-cases, length, any, filter, All, member, str_eq_self, keys, All-filter,
  All-imp, filter-All, filter-DistinctBy, All-both,
}

is_matched-filter :
    (p : Pair) (keep : Match → Bool) (rows : List Match)
    → is_matched p rows ≡ false
    → is_matched p (filter keep rows) ≡ false
is_matched-filter p keep [] h = refl
is_matched-filter p keep (m ∷ rows) h = ground (arith, is_matched-filter p keep rows)

filter-UniquePairs :
    (keep : Match → Bool) (rows : List Match) → UniquePairs rows → UniquePairs (filter keep rows)
filter-UniquePairs keep [] u = tt
filter-UniquePairs keep (m ∷ rows) u = elim (Bool-cases (keep m)) [
  | inl e ↦ rw e (is_matched-filter (pair_of m) keep rows u.0, filter-UniquePairs keep rows u.1)
  | inr e ↦ rw e (filter-UniquePairs keep rows u.1)
]

member-filter-keys :
    (p : String → Bool) (k : String) (news : List (String × Article))
    → member k (keys (filter (λ a. p a.0) news)) ≡ (p k && member k (keys news))
unfolding member
member-filter-keys p k [] = ground arith
member-filter-keys p k (a ∷ news) = elim (Bool-cases (str_eq a.0 k)) [
  | inr other ↦ ground (arith, member-filter-keys p k news, other)
  | inl same ↦
      let alike : p a.0 ≡ p k = ap p ((eq_iff a.0 k).0 same) in
      ground (arith, member-filter-keys p k news, same, alike)
]

uses_own : (rows : List Match) → All (λ m. any (λ r. str_eq r.news_id m.news_id) rows ≡ true) rows
uses_own [] = tt
uses_own (m ∷ rows) = (
  ground (arith, str_eq_self m.news_id),
  All-imp _ _ rows (λ r h. ground (arith, h)) (uses_own rows),
)

length-complement :
    (p : Match → Bool) (rows : List Match)
    → length rows ≡ length (filter p rows) + length (filter (λ m. not (p m)) rows)
length-complement p [] = omega arith
length-complement p (m ∷ rows) = ground (arith, length-complement p rows)

-- The purge reports how many matches are past the retention and removes exactly these, it leaves no
-- article without a match, and the tables stay valid.
pub purge_old_news_entries-IsValid :
    (now retention : ℕ) (db : Database)
    → IsValid db
    → let r = purge_old_news_entries now retention db in
      let expired : Match → Bool = λ m. ltb (m.matched_at + retention) now in
      (r.0 ≡ length (filter expired db.matches.rows))
      × (r.1.matches.rows ≡ filter (λ m. not (expired m)) db.matches.rows)
      × All (λ a. any (λ m. str_eq m.news_id a.0) r.1.matches.rows ≡ true) r.1.news
      × IsValid r.1
unfolding purge_old_news_entries
purge_old_news_entries-IsValid now retention db v =
    let rows : List Match = db.matches.rows in
    let keep : Match → Bool = λ m. not (ltb (m.matched_at + retention) now) in
    let kept : List Match = filter keep rows in
    let used : String → Bool = λ i. any (λ m. str_eq m.news_id i) kept in
    let both : All (λ m. (member m.news_id (keys db.news) ≡ true) × (used m.news_id ≡ true)) kept =
      All-both _ _ kept (All-filter _ keep rows v.articles) (uses_own kept) in
    (
      omega (arith, length-complement (λ m. ltb (m.matched_at + retention) now) rows),
      refl,
      filter-All (λ a. used a.0) db.news,
      record {
        matches = record {
          below = All-filter _ keep rows v.matches.below;
          distinct = filter-DistinctBy (λ m. m.ident) keep rows v.matches.distinct;
          unique = filter-UniquePairs keep rows v.matches.unique;
        };
        articles =
            All-imp _ _ kept
              (λ m h. ground (arith, member-filter-keys used m.news_id db.news, h.0, h.1)) both;
        engines = filter-All (λ f. has_match f.topic_news_id kept) db.facts;
      },
    )
