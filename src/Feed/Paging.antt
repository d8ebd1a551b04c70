-- ===== src/Feed/Paging.antt =====
-- A client that follows `next_before_id` from the newest entry of a feed of api/v1/news.py.
use topicstreams.Feed.{Database, Match, Article}
use topicstreams.Feed.Reading.{
  FeedEntry, feed_entry, join_row, join, is_older, select, next_cursor, get_news_entries,
  get_news_count, in_topic,
}
use topicstreams.Feed.Invariant.{IsValid, HasArticles}
use topicstreams.Base.{
  ℕ, zero, suc, ◌+◌, ◌<◌, String, ◌≡◌, refl, sym, ap, subst, ◌∙◌, inl, inr, Bool, true, false,
  Option, none, some, List, [], ◌∷◌, ◌++◌, arith, ltb, leb, if◌then◌else◌, Bool-cases, length, take,
  all, filter, All, length-append, get, append_assoc, All-filter, sort_desc, Descending,
  filter-sort_desc, sort_desc-Descending, All-sort_desc, filter-Descending, below_middle,
  below_twice, take_full, All-middle, take_all, filter-All, filter_keeps, All-always, last-map,
  length-sort_desc, filter-DistinctBy, get_present,
}

-- What a client reads that follows the cursor with a number of requests: the entries of its pages, once
-- a page has no cursor, and none if the requests are used up before.
abbrev pub prepend : List FeedEntry → Option (List FeedEntry) → Option (List FeedEntry)
prepend entries none = none
prepend entries (some more) = some (entries ++ more)

abbrev pub then_page :
    List FeedEntry → (ℕ → Option (List FeedEntry)) → Option ℕ → Option (List FeedEntry)
then_page entries rest none = some entries
then_page entries rest (some b) = prepend entries (rest b)

unfoldable pub read_pages : (Option ℕ → List FeedEntry) → ℕ → ℕ → Option ℕ → Option (List FeedEntry)
read_pages page zero limit before = none
read_pages page (suc requests) limit before =
    then_page (page before) (λ b. read_pages page requests limit (some b))
      (next_cursor (page before) limit)

-- All entries of a feed.
abbrev pub whole : (Match → Bool) → Database → List FeedEntry
whole keep db = join db (sort_desc (λ m. m.ident) (filter keep db.matches.rows))

abbrev pub entry_id : FeedEntry → ℕ
entry_id e = e.ident

join_row-filter :
    (b : ℕ) (db : Database) (m : Match) (a : Option Article) (rest : List FeedEntry)
    → filter (λ e. ltb (entry_id e) b) (join_row db.facts m a rest) ≡ (
        if ltb m.ident b
        then join_row db.facts m a (filter (λ e. ltb (entry_id e) b) rest)
        else filter (λ e. ltb (entry_id e) b) rest)
unfolding feed_entry
join_row-filter b db m none rest = ground arith
join_row-filter b db m (some a) rest = ground arith

join-filter :
    (b : ℕ) (db : Database) (rows : List Match)
    → join db (filter (λ m. ltb m.ident b) rows) ≡ filter (λ e. ltb (entry_id e) b) (join db rows)
unfolding join
join-filter b db [] = refl
join-filter b db (m ∷ rows) = elim (Bool-cases (ltb m.ident b)) [
  | inl e ↦ rw e (
      ap (join_row db.facts m (get m.news_id db.news)) (join-filter b db rows)
      ∙ sym (join_row-filter b db m (get m.news_id db.news) (join db rows) ∙ rw e refl))
  | inr e ↦ rw e (
      join-filter b db rows
      ∙ sym (join_row-filter b db m (get m.news_id db.news) (join db rows) ∙ rw e refl))
]

join_row-All :
    (n : ℕ) (db : Database) (m : Match) (a : Option Article) (rest : List FeedEntry)
    → m.ident < n
    → All (λ e. entry_id e < n) rest
    → All (λ e. entry_id e < n) (join_row db.facts m a rest)
unfolding feed_entry
join_row-All n db m none rest h all = all
join_row-All n db m (some a) rest h all = (h, all)

join-All :
    (n : ℕ) (db : Database) (rows : List Match)
    → All (λ m. m.ident < n) rows
    → All (λ e. entry_id e < n) (join db rows)
unfolding join
join-All n db [] h = tt
join-All n db (m ∷ rows) h =
    join_row-All n db m (get m.news_id db.news) (join db rows) h.0 (join-All n db rows h.1)

join_row-Descending :
    (db : Database) (m : Match) (a : Option Article) (rest : List FeedEntry)
    → All (λ e. entry_id e < m.ident) rest
    → Descending entry_id rest
    → Descending entry_id (join_row db.facts m a rest)
unfolding feed_entry
join_row-Descending db m none rest h d = d
join_row-Descending db m (some a) rest h d = (h, d)

join-Descending :
    (db : Database) (rows : List Match)
    → Descending (λ m. m.ident) rows
    → Descending entry_id (join db rows)
unfolding join
join-Descending db [] d = tt
join-Descending db (m ∷ rows) d =
    join_row-Descending db m (get m.news_id db.news) (join db rows) (join-All m.ident db rows d.0)
      (join-Descending db rows d.1)

-- A page is the beginning of what is older than the cursor.
pub select-take :
    (keep : Match → Bool) (limit : ℕ) (before : Option ℕ) (db : Database)
    → select keep limit before db
      ≡ take limit (filter (λ e. is_older before (entry_id e)) (whole keep db))
unfolding select is_older
select-take keep limit none db =
    let rows : List Match = filter keep db.matches.rows in
    ap (λ z. take limit (join db (sort_desc (λ m. m.ident) z)))
      (filter_keeps (λ m. true) rows (All-always _ rows (λ m. refl)))
    ∙ sym (ap (take limit) (filter_keeps (λ e. true) (whole keep db) (All-always _ _ (λ e. refl))))
select-take keep limit (some b) db =
    ap (λ z. take limit (join db z))
      (filter-sort_desc (λ m. m.ident) b (filter keep db.matches.rows))
    ∙ ap (take limit) (join-filter b db (sort_desc (λ m. m.ident) (filter keep db.matches.rows)))

below_cursor :
    (b : Option ℕ) (c : ℕ) (L : List FeedEntry)
    → is_older b c ≡ true
    → filter (λ e. ltb (entry_id e) c) (filter (λ e. is_older b (entry_id e)) L)
      ≡ filter (λ e. ltb (entry_id e) c) L
unfolding is_older
below_cursor none c L h =
    ap (filter (λ e. ltb (entry_id e) c)) (filter_keeps (λ e. true) L (All-always _ L (λ e. refl)))
below_cursor (some b) c L h = below_twice entry_id c b L (ground (arith, h))

-- A full page names the entry after which it ends.
next_cursor-full :
    (front : List FeedEntry) (x : FeedEntry) (limit : ℕ)
    → length front + 1 ≡ limit
    → next_cursor (front ++ x ∷ []) limit ≡ some (entry_id x)
unfolding next_cursor
next_cursor-full front x limit l =
    let not_short : ltb (length (front ++ x ∷ [])) limit ≡ false =
      ground (arith, length-append front (x ∷ []), l) in
    rw not_short (last-map entry_id front x)

-- With more requests than entries are left the client reads them all.
read_pages-older :
    (page : Option ℕ → List FeedEntry) (limit : ℕ) (L : List FeedEntry)
    → ((b : Option ℕ) → page b ≡ take limit (filter (λ e. is_older b (entry_id e)) L))
    → 0 < limit
    → Descending entry_id L
    → (requests : ℕ) (before : Option ℕ)
    → length (filter (λ e. is_older before (entry_id e)) L) < requests
    → read_pages page requests limit before ≡ some (filter (λ e. is_older before (entry_id e)) L)
unfolding read_pages next_cursor is_older
read_pages-older page limit L serves pos d zero before h = absurd (omega arith)
read_pages-older page limit L serves pos d (suc requests) before h =
    let R : List FeedEntry = filter (λ e. is_older before (entry_id e)) L in
    elim (Bool-cases (leb limit (length R))) [
      | inr short ↦
          let whole_page : page before ≡ R =
            serves before ∙ take_all limit R (ground (arith, short)) in
          let ends : ltb (length R) limit ≡ true = ground (arith, short) in
          rw whole_page (rw ends refl)
      | inl full ↦
          let (front, x, after, t, e, l) = take_full limit R (ground (arith, full)) pos in
          let shown : page before ≡ front ++ x ∷ [] = serves before ∙ t in
          let older : is_older before (entry_id x) ≡ true =
            All-middle (λ z. is_older before (entry_id z) ≡ true) front x after
              (subst (All (λ z. is_older before (entry_id z) ≡ true)) e
                (filter-All (λ z. is_older before (entry_id z)) L)) in
          let left : filter (λ z. is_older (some (entry_id x)) (entry_id z)) L ≡ after =
            sym (below_cursor before (entry_id x) L older)
            ∙ ap (filter (λ z. ltb (entry_id z) (entry_id x))) e
            ∙ below_middle entry_id front x after
                (subst (Descending entry_id) e (filter-Descending entry_id _ L d)) in
          let fewer : length (filter (λ z. is_older (some (entry_id x)) (entry_id z)) L)
              < requests =
            omega (arith, ap length left, ap length e, length-append front (x ∷ after), h) in
          let rest =
            read_pages-older page limit L serves pos d requests (some (entry_id x)) fewer in
          rw shown (
            rw (next_cursor-full front x limit l) (
              ap (prepend (front ++ x ∷ [])) (rest ∙ ap some left)
              ∙ ap some (append_assoc front (x ∷ []) after ∙ sym e)))
    ]

join-length :
    (db : Database) (rows : List Match)
    → HasArticles db.news rows
    → length (join db rows) ≡ length rows
unfolding join
join-length db [] h = refl
join-length db (m ∷ rows) h =
    let (a, found) = get_present m.news_id db.news h.0 in
    rw found (ap suc (join-length db rows h.1))

-- From the newest entry on, a client that follows the cursor reaches a page without one, with no more
-- requests than the topic's count and one; what it has read then is exactly the matches of the topic (and
-- the engine, if it asks for one), each once and newest first, and as many as `get_news_count` says,
-- whatever its limit of at least one.
pub get_news_entries-read :
    (topic : String) (engine : Option String) (limit : ℕ) (db : Database)
    → 0 < limit
    → IsValid db
    → let entries = whole (in_topic topic engine db) db in
      (read_pages
          (λ b. get_news_entries topic limit b engine db)
          (suc (get_news_count topic engine db))
          limit
          none
        ≡ some entries)
      × Descending entry_id entries
      × (length entries ≡ get_news_count topic engine db)
unfolding get_news_entries get_news_count is_older
get_news_entries-read topic engine limit db pos valid =
    let keep : Match → Bool = in_topic topic engine db in
    let rows : List Match = filter keep db.matches.rows in
    let L : List FeedEntry = whole keep db in
    let everything : filter (λ e. is_older none (entry_id e)) L ≡ L =
      filter_keeps (λ e. is_older none (entry_id e)) L (All-always _ L (λ e. refl)) in
    let count : length L ≡ length rows =
      join-length db (sort_desc (λ m. m.ident) rows)
        (All-sort_desc (λ m. m.ident) _ rows (All-filter _ keep db.matches.rows valid.articles))
      ∙ length-sort_desc (λ m. m.ident) rows in
    let ordered : Descending entry_id L = join-Descending db (sort_desc (λ m. m.ident) rows) (
      sort_desc-Descending (λ m. m.ident) rows
        (filter-DistinctBy (λ m. m.ident) keep db.matches.rows valid.matches.distinct)) in
    (
      read_pages-older (λ b. select keep limit b db) limit L (λ b. select-take keep limit b db) pos
            ordered (suc (length rows)) none (omega (arith, ap length everything, count))
          ∙ ap some everything,
      ordered,
      count,
    )
