-- ===== src/Feed/Rerun.antt =====
-- `insert_news_entries` of common/database.py called again with the same entries, as its retry after a
-- lost connection may.
use topicstreams.Model.{NewsEntry}
use topicstreams.Feed.{
  Database, Match, Matches, EngineFact, Pair, Batch, same_pair, has_pair, insert_page, insert_pages,
  find_pair, insert_fact, insert_facts, has_fact, is_matched, upsert_news, empty_batch, store_batch,
  insert_news_entries,
}
use topicstreams.Feed.Pairs.{
  flatten, is_matched-insert_page, insert_pages-flatten, insert_page_known,
}
use topicstreams.Feed.Invariant.{ListsPairs}
use topicstreams.Feed.Articles.{upserted, get-upsert_news, gather-DistinctKeys, upserted_twice}
use topicstreams.Feed.Stored.{gathered, stored_batch}
use topicstreams.Base.{
  ℕ, String, ◌≡◌, refl, sym, ap, subst, ◌∙◌, true, Option, none, some, List, [], ◌∷◌, arith, eq_iff,
  All, any-append, get, DistinctKeys,
}

-- Pages of pairs that are all there add nothing, and none of them counts.
insert_pages_known :
    (now : ℕ) (pages : List (List Pair)) (count : ℕ) (t : Matches)
    → count ≡ 0
    → ((q : Pair) → has_pair q (flatten pages) ≡ true → is_matched q t.rows ≡ true)
    → ((insert_pages now pages count t).0 ≡ 0) × ((insert_pages now pages count t).1.rows ≡ t.rows)
unfolding insert_pages has_pair
insert_pages_known now [] count t none_yet h = (none_yet, refl)
insert_pages_known now (ps ∷ pages) count t none_yet h =
    let first =
      insert_page_known now ps t
        (λ q e. h q (ground (arith, any-append (same_pair q) ps (flatten pages)))) in
    let known : (q : Pair)
        → has_pair q (flatten pages) ≡ true
        → is_matched q (insert_page now ps t).1.rows ≡ true =
      λ q e.
        ap (is_matched q) (first.1)
        ∙ h q (ground (arith, any-append (same_pair q) ps (flatten pages))) in
    let rest =
      insert_pages_known now pages (insert_page now ps t).0 (insert_page now ps t).1 first.0
        known in
    (rest.0, rest.1 ∙ first.1)

has_fact-insert_fact :
    (now : ℕ) (o : Option ℕ) (engine : String) (facts : List EngineFact) (i : ℕ) (x : String)
    → has_fact i x facts ≡ true
    → has_fact i x (insert_fact now o engine facts) ≡ true
unfolding insert_fact
has_fact-insert_fact now none engine facts i x h = h
has_fact-insert_fact now (some j) engine facts i x h = ground arith

has_fact-insert_facts :
    (now : ℕ) (batch : List (Pair × String)) (rows : List Match) (facts : List EngineFact) (i : ℕ)
    (x : String)
    → has_fact i x facts ≡ true
    → has_fact i x (insert_facts now batch rows facts) ≡ true
unfolding insert_facts
has_fact-insert_facts now [] rows facts i x h = h
has_fact-insert_facts now ((p, engine) ∷ batch) rows facts i x h =
    has_fact-insert_facts now batch rows (insert_fact now (find_pair p rows) engine facts) i x
      (has_fact-insert_fact now (find_pair p rows) engine facts i x h)

-- The match of the pair, if it is there, is attributed to the engine.
abbrev Attributed : List EngineFact → Option ℕ → String → Type 0
Attributed facts none engine = Unit
Attributed facts (some i) engine = has_fact i engine facts ≡ true

insert_fact-Attributed :
    (now : ℕ) (o : Option ℕ) (engine : String) (facts : List EngineFact)
    → Attributed (insert_fact now o engine facts) o engine
unfolding insert_fact
insert_fact-Attributed now none engine facts = tt
insert_fact-Attributed now (some i) engine facts = ground (arith, eq_iff engine engine)

keep-Attributed :
    (now : ℕ) (batch : List (Pair × String)) (rows : List Match) (facts : List EngineFact)
    (o : Option ℕ) (x : String)
    → Attributed facts o x
    → Attributed (insert_facts now batch rows facts) o x
keep-Attributed now batch rows facts none x h = tt
keep-Attributed now batch rows facts (some i) x h = has_fact-insert_facts now batch rows facts i x h

abbrev AllAttributed : List Match → List EngineFact → List (Pair × String) → Type 0
AllAttributed rows facts batch = All (λ f. Attributed facts (find_pair f.0 rows) f.1) batch

insert_facts-AllAttributed :
    (now : ℕ) (batch : List (Pair × String)) (rows : List Match) (facts : List EngineFact)
    → AllAttributed rows (insert_facts now batch rows facts) batch
unfolding insert_facts
insert_facts-AllAttributed now [] rows facts = tt
insert_facts-AllAttributed now ((p, engine) ∷ batch) rows facts =
    let first : List EngineFact = insert_fact now (find_pair p rows) engine facts in
    (
      keep-Attributed now batch rows first (find_pair p rows) engine
          (insert_fact-Attributed now (find_pair p rows) engine facts),
      insert_facts-AllAttributed now batch rows first,
    )

insert_fact_known :
    (now : ℕ) (o : Option ℕ) (engine : String) (facts : List EngineFact)
    → Attributed facts o engine
    → insert_fact now o engine facts ≡ facts
unfolding insert_fact
insert_fact_known now none engine facts h = refl
insert_fact_known now (some i) engine facts h = rw h refl

insert_facts_known :
    (now : ℕ) (batch : List (Pair × String)) (rows : List Match) (facts : List EngineFact)
    → AllAttributed rows facts batch
    → insert_facts now batch rows facts ≡ facts
unfolding insert_facts
insert_facts_known now [] rows facts h = refl
insert_facts_known now ((p, engine) ∷ batch) rows facts h =
    ap (insert_facts now batch rows) (insert_fact_known now (find_pair p rows) engine facts h.0)
    ∙ insert_facts_known now batch rows facts h.1

module _ (news_id_for_url : String → String) (statements : List Pair → List (List Pair)) where
  -- A second run of a stored batch finds everything there.
  store_batch_again :
      (now later : ℕ) (b : Batch) (db : Database)
      → ListsPairs statements
      → DistinctKeys b.news_by_id
      → let after = (store_batch news_id_for_url statements now b db).1 in
        let again = store_batch news_id_for_url statements later b after in
        (again.0 ≡ 0)
        × (again.1.matches.rows ≡ after.matches.rows)
        × (again.1.facts ≡ after.facts)
        × ((i : String) → get i again.1.news ≡ get i after.news)
        × (again.1.topics ≡ db.topics)
  unfolding store_batch
  store_batch_again now later b db lists d =
      let pages : List (List Pair) = statements b.match_pairs in
      let t : Matches = (insert_pages now pages 0 db.matches).1 in
      let known : (q : Pair) → has_pair q (flatten pages) ≡ true → is_matched q t.rows ≡ true =
        λ q e. ground (
          arith,
          ap (λ (z : Matches). is_matched q z.rows) (insert_pages-flatten now pages 0 db.matches),
          is_matched-insert_page now (flatten pages) q db.matches,
          e,
        ) in
      let second = insert_pages_known later pages 0 t refl known in
      let facts : List EngineFact = insert_facts now b.engine_facts t.rows db.facts in
      let attributed = insert_facts-AllAttributed now b.engine_facts t.rows db.facts in
      (
        second.0,
        second.1,
        ap (λ z. insert_facts later b.engine_facts z facts) second.1
            ∙ insert_facts_known later b.engine_facts t.rows facts attributed,
        λ i.
            get-upsert_news i b.news_by_id (upsert_news b.news_by_id db.news) d
            ∙ ap (upserted (get i b.news_by_id)) (get-upsert_news i b.news_by_id db.news d)
            ∙ upserted_twice (get i b.news_by_id) (get i db.news)
            ∙ sym (get-upsert_news i b.news_by_id db.news d),
        refl,
      )

  -- Storing the same entries again, at once or later, reports no new event and leaves the matches, the
  -- engines that surfaced them, the articles and the topics as they are.
  pub insert_news_entries-again :
      (now later : ℕ) (entries : List NewsEntry) (db : Database) (r : ℕ × Database)
      → ListsPairs statements
      → insert_news_entries news_id_for_url statements now entries db ≡ some r
      → (again : Database) × (insert_news_entries news_id_for_url statements later entries r.1
          ≡ some (0, again))
        × (again.matches.rows ≡ r.1.matches.rows)
        × (again.facts ≡ r.1.facts)
        × ((i : String) → get i again.news ≡ get i r.1.news)
        × (again.topics ≡ r.1.topics)
  unfolding insert_news_entries store_batch
  insert_news_entries-again now later [] db r lists h = (r.1, refl, refl, refl, (λ i. refl), refl)
  insert_news_entries-again now later (e ∷ entries) db r lists h =
      let b : Batch = gathered news_id_for_url (e ∷ entries) in
      let (known, stored) = stored_batch news_id_for_url statements now (e ∷ entries) db r h in
      let first : ℕ × Database = store_batch news_id_for_url statements now b db in
      let again : ℕ × Database = store_batch news_id_for_url statements later b first.1 in
      let same =
        store_batch_again now later b db lists
          (gather-DistinctKeys news_id_for_url (e ∷ entries) empty_batch tt) in
      let runs : insert_news_entries news_id_for_url statements later (e ∷ entries) first.1
          ≡ some (0, again.1) =
        rw known (ap (λ (c : ℕ). some (c, again.1)) same.0) in
      subst
        (λ (z : ℕ × Database).
          (again : Database) × (insert_news_entries news_id_for_url statements later (e ∷ entries)
              z.1
            ≡ some (0, again))
          × (again.matches.rows ≡ z.1.matches.rows)
          × (again.facts ≡ z.1.facts)
          × ((i : String) → get i again.news ≡ get i z.1.news)
          × (again.topics ≡ z.1.topics))
        (sym stored) (again.1, runs, same.1, same.2, same.3, same.4)
