-- ===== src/Feed/Live.antt =====
-- A reader in the middle of a feed while batches are stored: the cursor of api/v1/news.py against
-- `insert_news_entries` of common/database.py.
use topicstreams.Model.{NewsEntry}
use topicstreams.Feed.{
  Database, Match, Matches, Pair, insert_match, insert_page, store_batch, insert_news_entries,
}
use topicstreams.Feed.Reading.{feed_entry, join, is_older, select, surfaced_by, get_news_entries}
use topicstreams.Feed.Pairs.{flatten, insert_pages-flatten}
use topicstreams.Feed.Invariant.{
  ListsPairs, HasArticles, Kept, IsValid, insert_news_entries-IsValid,
}
use topicstreams.Feed.Stored.{gathered, stored_batch}
use topicstreams.Base.{
  ℕ, ◌≤◌, String, ◌≡◌, refl, sym, ap, subst, ◌∙◌, Bool, true, ◌&&◌, none, some, List, [], ◌∷◌, map,
  arith, ltb, str_eq, take, filter, All-filter, sort_desc, All-sort_desc, get_present, map-take,
}

join_ids :
    (db : Database) (rows : List Match)
    → HasArticles db.news rows
    → map (λ e. e.ident) (join db rows) ≡ map (λ m. m.ident) rows
unfolding join feed_entry
join_ids db [] h = refl
join_ids db (m ∷ rows) h =
    let (a, found) = get_present m.news_id db.news h.0 in
    rw found (ap (λ z. m.ident ∷ z) (join_ids db rows h.1))

insert_match_older :
    (b now : ℕ) (keep : Match → Bool) (p : Pair) (t : Matches)
    → b ≤ t.next_id
    → (filter (λ m. ltb m.ident b) (filter keep (insert_match now p t).1.rows)
        ≡ filter (λ m. ltb m.ident b) (filter keep t.rows))
      × (b ≤ (insert_match now p t).1.next_id)
unfolding insert_match
insert_match_older b now keep p t h = (ground arith, ground arith)

-- The rows below the cursor are not changed by an insertion, which adds rows at the sequence.
insert_page_older :
    (b now : ℕ) (keep : Match → Bool) (ps : List Pair) (t : Matches)
    → b ≤ t.next_id
    → filter (λ m. ltb m.ident b) (filter keep (insert_page now ps t).1.rows)
      ≡ filter (λ m. ltb m.ident b) (filter keep t.rows)
unfolding insert_page
insert_page_older b now keep [] t h = refl
insert_page_older b now keep (p ∷ ps) t h =
    let (same, later) = insert_match_older b now keep p t h in
    insert_page_older b now keep ps (insert_match now p t).1 later ∙ same

-- The ids that a page shows are those of the rows.
page_ids :
    (topic : String) (limit b : ℕ) (db : Database)
    → IsValid db
    → map (λ e. e.ident) (get_news_entries topic limit (some b) none db)
      ≡ take limit (
          map
            (λ m. m.ident)
            (sort_desc
              (λ m. m.ident)
              (filter
                (λ m. ltb m.ident b)
                (filter (λ m. str_eq m.topic topic && true) db.matches.rows))))
unfolding get_news_entries select is_older surfaced_by
page_ids topic limit b db v =
    let rows : List Match =
      filter (λ m. ltb m.ident b) (filter (λ m. str_eq m.topic topic && true) db.matches.rows) in
    map-take (λ e. e.ident) limit (join db (sort_desc (λ m. m.ident) rows))
    ∙ ap (take limit) (
        join_ids db (sort_desc (λ m. m.ident) rows) (
          All-sort_desc (λ m. m.ident) _ rows
            (All-filter _ (λ m. ltb m.ident b) _
              (All-filter _ (λ m. str_eq m.topic topic && true) _ v.articles))))

module _ (news_id_for_url : String → String) (statements : List Pair → List (List Pair)) where
  stored_rows :
      (now : ℕ) (entries : List NewsEntry) (db : Database) (r : ℕ × Database)
      → insert_news_entries news_id_for_url statements now entries db ≡ some r
      → (ps : List Pair) × (r.1.matches.rows ≡ (insert_page now ps db.matches).1.rows)
  unfolding store_batch insert_page
  stored_rows now [] db r h =
      let stored = (stored_batch news_id_for_url statements now [] db r h).1 in
      ([], ap (λ (z : ℕ × Database). z.1.matches.rows) stored)
  stored_rows now (e ∷ entries) db r h =
      let pages : List (List Pair) =
        statements (gathered news_id_for_url (e ∷ entries)).match_pairs in
      let stored = (stored_batch news_id_for_url statements now (e ∷ entries) db r h).1 in
      (
        flatten pages,
        ap (λ (z : ℕ × Database). z.1.matches.rows) stored
            ∙ ap (λ (t : Matches). t.rows) (insert_pages-flatten now pages 0 db.matches),
      )

  -- A page of one topic's feed after a cursor that was handed out, read without an engine filter, shows the
  -- same matches after a batch is stored as before: new matches come before the cursor and cannot shift it.
  pub insert_news_entries-page :
      (now : ℕ) (entries : List NewsEntry) (db : Database) (r : ℕ × Database) (topic : String)
      (limit b : ℕ)
      → ListsPairs statements
      → IsValid db
      → b ≤ db.matches.next_id
      → insert_news_entries news_id_for_url statements now entries db ≡ some r
      → map (λ e. e.ident) (get_news_entries topic limit (some b) none r.1)
        ≡ map (λ e. e.ident) (get_news_entries topic limit (some b) none db)
  insert_news_entries-page now entries db r topic limit b lists v cursor h =
      let valid : IsValid r.1 =
        (subst (Kept news_id_for_url statements IsValid entries db) h
          (insert_news_entries-IsValid news_id_for_url statements now entries db lists v)).0 in
      let (ps, rows) = stored_rows now entries db r h in
      let keep : Match → Bool = λ m. str_eq m.topic topic && true in
      let older : filter (λ m. ltb m.ident b) (filter keep r.1.matches.rows)
          ≡ filter (λ m. ltb m.ident b) (filter keep db.matches.rows) =
        ap (λ z. filter (λ m. ltb m.ident b) (filter keep z)) rows
        ∙ insert_page_older b now keep ps db.matches cursor in
      page_ids topic limit b r.1 valid
      ∙ ap (λ z. take limit (map (λ m. m.ident) (sort_desc (λ m. m.ident) z))) older
      ∙ sym (page_ids topic limit b db v)
