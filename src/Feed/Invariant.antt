-- ===== src/Feed/Invariant.antt =====
-- What the constraints of `topic_news` and `topic_news_engines` and the sequence promise of the
-- tables of common/database.py, and `insert_news_entries` keeps.
use topicstreams.Model.{NewsEntry, Topic}
use topicstreams.Feed.{
  Database, Match, Matches, Article, EngineFact, Pair, Batch, same_pair, has_pair, add_pair,
  is_matched, pair_of, insert_match, insert_page, find_pair, insert_fact, insert_facts, has_fact,
  upsert_news, upsert_article, gather_entry, gather, merge_entry, empty_batch, all_topics_known,
  store_batch, insert_news_entries,
}
use topicstreams.Feed.Pairs.{has_pair-add_pair, same_pair_iff, flatten, insert_pages-flatten}
use topicstreams.Base.{
  ℕ, suc, ◌<◌, String, ◌≡◌, refl, sym, ap, subst, ◌∙◌, inl, inr, Bool, true, false, ◌&&◌, all, ◌||◌,
  Option, none, some, List, [], ◌∷◌, arith, eq_iff, ◌==◌, str_eq, Bool-cases, any, All, member, get,
  put, keys, All-imp, member-put, DistinctBy,
}

-- No pair of a topic and an article twice.
abbrev pub UniquePairs : List Match → Type 0
UniquePairs [] = Unit
UniquePairs (m ∷ rows) = (is_matched (pair_of m) rows ≡ false) × UniquePairs rows

pub record ValidMatches (t : Matches) : Type 0 where
  pub below : All (λ m. m.ident < t.next_id) t.rows
  pub distinct : DistinctBy (λ m. m.ident) t.rows
  pub unique : UniquePairs t.rows

-- Every row of the feed has its article, and every fact its row.
abbrev pub HasArticles : List (String × Article) → List Match → Type 0
HasArticles news rows = All (λ m. member m.news_id (keys news) ≡ true) rows

abbrev pub has_match : ℕ → List Match → Bool
has_match i rows = any (λ m. m.ident == i) rows

abbrev pub HasMatches : List Match → List EngineFact → Type 0
HasMatches rows facts = All (λ f. has_match f.topic_news_id rows ≡ true) facts

pub record IsValid (db : Database) : Type 0 where
  pub matches : ValidMatches db.matches
  pub articles : HasArticles db.news db.matches.rows
  pub engines : HasMatches db.matches.rows db.facts

-- `statements` lists the pairs of the set, and no others.
abbrev pub ListsPairs : (List Pair → List (List Pair)) → Type 0
ListsPairs statements =
    (ps : List Pair) (q : Pair) → has_pair q (flatten (statements ps)) ≡ has_pair q ps

insert_match-ValidMatches :
    (now : ℕ) (p : Pair) (t : Matches) → ValidMatches t → ValidMatches (insert_match now p t).1
unfolding insert_match
insert_match-ValidMatches now p t v =
    let older =
      All-imp (λ m. m.ident < t.next_id) (λ m. m.ident < suc t.next_id) t.rows
        (λ m h. omega (arith, h)) v.below in
    elim (Bool-cases (is_matched p t.rows)) [
      | inl e ↦ rw e (record { below = older; distinct = v.distinct; unique = v.unique })
      | inr e ↦ rw e (record {
        below = (omega arith, older);
        distinct = (All-imp _ _ t.rows (λ m h. inl h) v.below, v.distinct);
        unique = (e, v.unique);
      })
    ]

pub insert_page-ValidMatches :
    (now : ℕ) (ps : List Pair) (t : Matches)
    → ValidMatches t
    → ValidMatches (insert_page now ps t).1
unfolding insert_page
insert_page-ValidMatches now [] t v = v
insert_page-ValidMatches now (p ∷ ps) t v =
    insert_page-ValidMatches now ps (insert_match now p t).1 (insert_match-ValidMatches now p t v)

insert_match-articles :
    (now : ℕ) (p : Pair) (t : Matches) (news : List (String × Article))
    → member p.1 (keys news) ≡ true
    → HasArticles news t.rows
    → HasArticles news (insert_match now p t).1.rows
unfolding insert_match
insert_match-articles now p t news here h = elim (Bool-cases (is_matched p t.rows)) [
  | inl e ↦ rw e h
  | inr e ↦ rw e (here, h)
]

insert_page-articles :
    (now : ℕ) (ps : List Pair) (t : Matches) (news : List (String × Article))
    → ((q : Pair) → has_pair q ps ≡ true → member q.1 (keys news) ≡ true)
    → HasArticles news t.rows
    → HasArticles news (insert_page now ps t).1.rows
unfolding insert_page has_pair
insert_page-articles now [] t news here h = h
insert_page-articles now (p ∷ ps) t news here h =
    insert_page-articles now ps (insert_match now p t).1 news (λ q e. here q (ground arith))
      (insert_match-articles now p t news (here p (ground (arith, (same_pair_iff p p).1 refl))) h)

has_match-insert_page :
    (i now : ℕ) (ps : List Pair) (t : Matches)
    → has_match i t.rows ≡ true
    → has_match i (insert_page now ps t).1.rows ≡ true
unfolding insert_page insert_match
has_match-insert_page i now [] t h = h
has_match-insert_page i now (p ∷ ps) t h =
    has_match-insert_page i now ps (insert_match now p t).1 (ground arith)

find_pair-has_match :
    (p : Pair) (rows : List Match) (i : ℕ) → find_pair p rows ≡ some i → has_match i rows ≡ true
unfolding find_pair
find_pair-has_match p [] i h = cc
find_pair-has_match p (m ∷ rows) i h = ground (arith, find_pair-has_match p rows i)

insert_fact-HasMatches :
    (now : ℕ) (o : Option ℕ) (engine : String) (rows : List Match) (facts : List EngineFact)
    → ((i : ℕ) → o ≡ some i → has_match i rows ≡ true)
    → HasMatches rows facts
    → HasMatches rows (insert_fact now o engine facts)
unfolding insert_fact
insert_fact-HasMatches now none engine rows facts known h = h
insert_fact-HasMatches now (some i) engine rows facts known h =
    elim (Bool-cases (has_fact i engine facts)) [ inl e ↦ rw e h | inr e ↦ rw e (known i refl, h) ]

insert_facts-HasMatches :
    (now : ℕ) (batch : List (Pair × String)) (rows : List Match) (facts : List EngineFact)
    → HasMatches rows facts
    → HasMatches rows (insert_facts now batch rows facts)
unfolding insert_facts
insert_facts-HasMatches now [] rows facts h = h
insert_facts-HasMatches now ((p, engine) ∷ batch) rows facts h =
    insert_facts-HasMatches now batch rows _ (
      insert_fact-HasMatches now (find_pair p rows) engine rows facts (find_pair-has_match p rows)
        h)

pub member-upsert_news :
    (k : String) (batch news : List (String × Article))
    → member k (keys (upsert_news batch news)) ≡ (member k (keys batch) || member k (keys news))
unfolding upsert_news member
member-upsert_news k [] news = refl
member-upsert_news k ((i, a) ∷ batch) news = ground (
  arith,
  member-upsert_news k batch (put i (upsert_article a (get i news)) news),
  member-put i k (upsert_article a (get i news)) news,
)

-- Every pair of the batch has its article in the batch.
abbrev HasNews : Batch → Type 0
HasNews b = (q : Pair) → has_pair q b.match_pairs ≡ true → member q.1 (keys b.news_by_id) ≡ true

gather_entry-HasNews :
    (news_id_for_url : String → String) (e : NewsEntry) (b : Batch)
    → HasNews b
    → HasNews (gather_entry news_id_for_url e b)
unfolding gather_entry
gather_entry-HasNews news_id_for_url e b h q asked =
    let i : String = news_id_for_url e.url in
    let p : Pair = (e.topic, i) in
    member-put i q.1 (merge_entry e (get i b.news_by_id)) b.news_by_id
    ∙ elim (Bool-cases (same_pair q p)) [
      | inl e ↦
          let name : str_eq i q.1 ≡ true =
            (eq_iff i q.1).1 (sym (ap (λ r. r.1) ((same_pair_iff q p).0 e))) in
          rw name refl
      | inr other ↦
          let known : has_pair q b.match_pairs ≡ true =
            ground (arith, has_pair-add_pair p q b.match_pairs, asked, other) in
          ground (arith, h q known)
    ]

gather-HasNews :
    (news_id_for_url : String → String) (entries : List NewsEntry) (b : Batch)
    → HasNews b
    → HasNews (gather news_id_for_url entries b)
unfolding gather
gather-HasNews news_id_for_url [] b h = h
gather-HasNews news_id_for_url (e ∷ entries) b h =
    gather-HasNews news_id_for_url entries (gather_entry news_id_for_url e b)
      (gather_entry-HasNews news_id_for_url e b h)

abbrev pub is_known : List Topic → String → Bool
is_known topics name = any (λ t. str_eq t.name name) topics

has_pair-known :
    (p : Pair) (ps : List Pair) (topics : List Topic)
    → has_pair p ps ≡ true
    → all_topics_known ps topics ≡ true
    → is_known topics p.0 ≡ true
unfolding has_pair same_pair
has_pair-known p [] topics h k = absurd (cc)
has_pair-known p (q ∷ ps) topics h k = elim (Bool-cases (str_eq p.0 q.0 && str_eq p.1 q.1)) [
  | inl same ↦
      let name : p.0 ≡ q.0 = (eq_iff p.0 q.0).0 (ground (arith, same)) in
      rw name (ground (arith, k))
  | inr other ↦ has_pair-known p ps topics (ground (arith, h, other)) (ground (arith, k))
]

add_pair-known :
    (p : Pair) (ps : List Pair) (topics : List Topic)
    → all_topics_known (add_pair p ps) topics ≡ (is_known topics p.0 && all_topics_known ps topics)
unfolding add_pair
add_pair-known p ps topics = elim (Bool-cases (has_pair p ps)) [
  | inl there ↦ rw there (ground (arith, has_pair-known p ps topics there))
  | inr new ↦ rw new refl
]

gather-known :
    (news_id_for_url : String → String) (entries : List NewsEntry) (b : Batch) (topics : List Topic)
    → all_topics_known (gather news_id_for_url entries b).match_pairs topics
      ≡ (all (λ e. is_known topics e.topic) entries && all_topics_known b.match_pairs topics)
unfolding gather gather_entry
gather-known news_id_for_url [] b topics = refl
gather-known news_id_for_url (e ∷ entries) b topics = ground (
  arith,
  gather-known news_id_for_url entries (gather_entry news_id_for_url e b) topics,
  add_pair-known (e.topic, news_id_for_url e.url) b.match_pairs topics,
)

module _ (news_id_for_url : String → String) (statements : List Pair → List (List Pair)) where
  store_batch-IsValid :
      (now : ℕ) (b : Batch) (db : Database)
      → ListsPairs statements
      → HasNews b
      → IsValid db
      → IsValid (store_batch news_id_for_url statements now b db).1
  unfolding store_batch
  store_batch-IsValid now b db lists news v =
      let ps : List Pair = flatten (statements b.match_pairs) in
      let after : List (String × Article) = upsert_news b.news_by_id db.news in
      let same = sym (insert_pages-flatten now (statements b.match_pairs) 0 db.matches) in
      let keeps : (k : String) → member k (keys db.news) ≡ true → member k (keys after) ≡ true =
        λ k h. ground (arith, member-upsert_news k b.news_by_id db.news) in
      let brings : (q : Pair) → has_pair q ps ≡ true → member q.1 (keys after) ≡ true = λ q h.
        ground (
          arith,
          member-upsert_news q.1 b.news_by_id db.news,
          news q (sym (lists b.match_pairs q) ∙ h),
        ) in
      let final : Matches → Type 0 = λ t. IsValid (record {
        topics = db.topics;
        news = after;
        matches = t;
        facts = insert_facts now b.engine_facts t.rows db.facts;
      }) in
      subst final same (record {
        matches = insert_page-ValidMatches now ps db.matches v.matches;
        articles =
            insert_page-articles now ps db.matches after brings
              (All-imp _ _ db.matches.rows (λ m. keeps m.news_id) v.articles);
        engines =
            insert_facts-HasMatches now b.engine_facts (insert_page now ps db.matches).1.rows
              db.facts
              (All-imp _ _ db.facts (λ f. has_match-insert_page f.topic_news_id now ps db.matches)
                v.engines);
      })

  -- What is claimed of a result: a batch that is stored names known topics only, and one that is not names
  -- one that is unknown.
  abbrev pub Kept : (Database → Type 0) → List NewsEntry → Database → Option (ℕ × Database) → Type 0
  Kept P entries db none = all (λ e. is_known db.topics e.topic) entries ≡ false
  Kept P entries db (some r) =
      P r.1 × (all (λ e. is_known db.topics e.topic) entries ≡ true) × (r.1.topics ≡ db.topics)

  -- Storing a batch keeps the tables valid: ids stay distinct and below the sequence, no topic gets an
  -- article twice, every match has its article and every fact its match. It is stored exactly if the table
  -- of topics has the topic of each of its entries; else the foreign key refuses it, and no table is
  -- changed.
  pub insert_news_entries-IsValid :
      (now : ℕ) (entries : List NewsEntry) (db : Database)
      → ListsPairs statements
      → IsValid db
      → Kept IsValid entries db (insert_news_entries news_id_for_url statements now entries db)
  unfolding insert_news_entries has_pair store_batch
  insert_news_entries-IsValid now [] db lists v = (v, refl, refl)
  insert_news_entries-IsValid now (e ∷ entries) db lists v =
      let b : Batch = gather news_id_for_url (e ∷ entries) empty_batch in
      let names : all_topics_known b.match_pairs db.topics
          ≡ (all (λ x. is_known db.topics x.topic) (e ∷ entries) && true) =
        gather-known news_id_for_url (e ∷ entries) empty_batch db.topics in
      elim (Bool-cases (all_topics_known b.match_pairs db.topics)) [
        | inl known ↦ rw known (
          store_batch-IsValid now b db lists
              (gather-HasNews news_id_for_url (e ∷ entries) empty_batch (λ q h. absurd (cc))) v,
          ground (arith, names, known),
          refl,
        )
        | inr unknown ↦ rw unknown (ground (arith, names, unknown))
      ]
