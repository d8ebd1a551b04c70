-- ===== src/Feed/Stored.antt =====
-- What `insert_news_entries` of common/database.py has done when it returns.
use topicstreams.Model.{NewsEntry}
use topicstreams.Feed.{
  Database, Matches, Article, Pair, Batch, size, has_pair, add_pair, is_matched, insert_page,
  insert_pages, gather, gather_entry, empty_batch, all_topics_known, store_batch,
  insert_news_entries,
}
use topicstreams.Feed.Pairs.{flatten, is_matched-insert_page, length-insert_page}
use topicstreams.Feed.Invariant.{ListsPairs}
use topicstreams.Feed.Articles.{
  upserted, get-upsert_news, gather-DistinctKeys, KeepsArticle, upserted-KeepsArticle, Shows,
  upserted-Shows, gather_longest,
}
use topicstreams.Base.{
  ℕ, suc, ◌+◌, ◌≤◌, String, ◌≡◌, refl, sym, ap, subst, ◌∙◌, inl, inr, true, ◌||◌, Option, none,
  some, List, [], ◌∷◌, arith, if◌then◌else◌, Bool-cases, length, is_empty, All, get, append-nil,
  All-imp,
}

-- What `execute_values` documents for its page size of 100: so many values go in one statement.
abbrev pub OneStatement : (List Pair → List (List Pair)) → Type 0
OneStatement statements =
    (ps : List Pair) → length ps ≤ 100 → (order : List Pair) × (statements ps ≡ order ∷ [])

length-add_pair : (p : Pair) (ps : List Pair) → length (add_pair p ps) ≤ suc (length ps)
unfolding add_pair
length-add_pair p ps = ground arith

length-gather :
    (news_id_for_url : String → String) (entries : List NewsEntry) (b : Batch)
    → length (gather news_id_for_url entries b).match_pairs ≤ length b.match_pairs + length entries
unfolding gather gather_entry
length-gather news_id_for_url [] b = omega arith
length-gather news_id_for_url (e ∷ entries) b = omega (
  arith,
  length-gather news_id_for_url entries (gather_entry news_id_for_url e b),
  length-add_pair (e.topic, news_id_for_url e.url) b.match_pairs,
)

-- What was there is kept; what was not may be anything.
abbrev pub KeepsAny : Option Article → Option Article → Type 0
KeepsAny none after = Unit
KeepsAny (some old) after = KeepsArticle old after

unchanged-KeepsAny : (o : Option Article) → KeepsAny o o
unchanged-KeepsAny none = tt
unchanged-KeepsAny (some old) = (refl, refl, refl, refl, omega arith)

upserted-KeepsAny : (new o : Option Article) → KeepsAny o (upserted new o)
upserted-KeepsAny new none = tt
upserted-KeepsAny new (some old) = upserted-KeepsArticle new old

-- The batch of `insert_news_entries`.
abbrev pub gathered : (String → String) → List NewsEntry → Batch
gathered news_id_for_url entries = gather news_id_for_url entries empty_batch

module _ (news_id_for_url : String → String) (statements : List Pair → List (List Pair)) where
  pub stored_batch :
      (now : ℕ) (entries : List NewsEntry) (db : Database) (r : ℕ × Database)
      → insert_news_entries news_id_for_url statements now entries db ≡ some r
      → (all_topics_known (gathered news_id_for_url entries).match_pairs db.topics ≡ true)
        × (r ≡ (
            if is_empty entries
            then (0, db)
            else store_batch news_id_for_url statements now (gathered news_id_for_url entries) db))
  unfolding insert_news_entries gather
  stored_batch now [] db r h = (refl, cc)
  stored_batch now (e ∷ entries) db r h =
      let b : Batch = gather news_id_for_url (e ∷ entries) empty_batch in
      elim (Bool-cases (all_topics_known b.match_pairs db.topics)) [
        | inl known ↦ (known, cc)
        | inr unknown ↦ absurd (cc)
      ]

  -- A batch of at most a hundred entries reports exactly the number of rows that it adds to
  -- `topic_news`, and afterwards a pair of a topic and an article is there if it was or is in the
  -- batch.
  pub insert_news_entries-Counts :
      (now : ℕ) (entries : List NewsEntry) (db : Database) (r : ℕ × Database) (q : Pair)
      → OneStatement statements
      → ListsPairs statements
      → length entries ≤ 100
      → insert_news_entries news_id_for_url statements now entries db ≡ some r
      → (length r.1.matches.rows ≡ length db.matches.rows + r.0)
        × (is_matched q r.1.matches.rows ≡ (
            has_pair q (gathered news_id_for_url entries).match_pairs
            || is_matched q db.matches.rows))
  unfolding store_batch insert_pages gather has_pair insert_news_entries
  insert_news_entries-Counts now [] db r q one lists few h =
      let same : (0, db) ≡ r = cc in
      subst
        (λ (z : ℕ × Database).
          (length z.1.matches.rows ≡ length db.matches.rows + z.0)
          × (is_matched q z.1.matches.rows ≡ is_matched q db.matches.rows))
        same (omega arith, refl)
  insert_news_entries-Counts now (e ∷ entries) db r q one lists few h =
      let b : Batch = gathered news_id_for_url (e ∷ entries) in
      let (order, alone) =
        one b.match_pairs
          (omega (arith, length-gather news_id_for_url (e ∷ entries) empty_batch)) in
      let page : ℕ × Matches = insert_page now order db.matches in
      let pages : insert_pages now (statements b.match_pairs) 0 db.matches ≡ page =
        ap (λ z. insert_pages now z 0 db.matches) alone in
      let listed : has_pair q order ≡ has_pair q b.match_pairs =
        ap (λ z. has_pair q z) (sym (append-nil order))
        ∙ sym (ap (λ z. has_pair q (flatten z)) alone)
        ∙ lists b.match_pairs q in
      let stored = (stored_batch now (e ∷ entries) db r h).1 in
      subst
        (λ (z : ℕ × Database).
          (length z.1.matches.rows ≡ length db.matches.rows + z.0)
          × (is_matched q z.1.matches.rows
              ≡ (has_pair q b.match_pairs || is_matched q db.matches.rows)))
        (sym stored)
        (subst
          (λ (z : ℕ × Matches).
            (length z.1.rows ≡ length db.matches.rows + z.0)
            × (is_matched q z.1.rows ≡ (has_pair q b.match_pairs || is_matched q db.matches.rows)))
          (sym pages)
          (
            length-insert_page now order db.matches,
            is_matched-insert_page now order q db.matches
                ∙ ap (λ z. z || is_matched q db.matches.rows) listed,
          ))

  -- After a stored batch every entry's article is there, also if there was none, with a snippet at least
  -- as long as the entry's; and an article of any id that was there before keeps its URL, title, domain
  -- and source, and its snippet never gets shorter.
  pub insert_news_entries-KeepsArticle :
      (now : ℕ) (entries : List NewsEntry) (db : Database) (r : ℕ × Database) (i : String)
      → insert_news_entries news_id_for_url statements now entries db ≡ some r
      → All (λ e. Shows (size e.snippet) (get (news_id_for_url e.url) r.1.news)) entries
        × KeepsAny (get i db.news) (get i r.1.news)
  unfolding store_batch insert_news_entries
  insert_news_entries-KeepsArticle now [] db r i h =
      let same : (0, db) ≡ r = cc in
      (
        tt,
        subst (λ (z : ℕ × Database). KeepsAny (get i db.news) (get i z.1.news)) same
            (unchanged-KeepsAny (get i db.news)),
      )
  insert_news_entries-KeepsArticle now (e ∷ entries) db r i h =
      let b : Batch = gathered news_id_for_url (e ∷ entries) in
      let stored = (stored_batch now (e ∷ entries) db r h).1 in
      let read : (i : String) → get i r.1.news ≡ upserted (get i b.news_by_id) (get i db.news) =
        λ i.
          ap (λ (z : ℕ × Database). get i z.1.news) stored
          ∙ get-upsert_news i b.news_by_id db.news
              (gather-DistinctKeys news_id_for_url (e ∷ entries) empty_batch tt) in
      (
        All-imp (λ x. Shows (size x.snippet) (get (news_id_for_url x.url) b.news_by_id))
            (λ x. Shows (size x.snippet) (get (news_id_for_url x.url) r.1.news)) (e ∷ entries)
            (λ x shows.
              subst (Shows (size x.snippet)) (sym (read (news_id_for_url x.url)))
                (upserted-Shows _ _ _ shows))
            (gather_longest news_id_for_url (e ∷ entries) empty_batch),
        subst (KeepsAny (get i db.news)) (sym (read i))
            (upserted-KeepsAny (get i b.news_by_id) (get i db.news)),
      )
