-- ===== src/Feed.antt =====
-- The tables `topics`, `news`, `topic_news` and `topic_news_engines` and their statements, in
-- common/database.py, and the batch that `insert_news_entries` gathers. Times are ticks of the
-- database's clock. `news_id_for_url` is a parameter: it hashes a URL that urllib has taken apart.
-- A row that the database cannot store is not modelled, apart from a topic without a row.
pub mod Topics
pub mod Reading
pub mod Invariant
pub mod Purge
pub mod Articles
pub mod Stored
pub mod Live
pub mod Rerun
mod Tests
pub mod Pairs
pub mod Paging
use topicstreams.Model.{NewsEntry, Topic}
use topicstreams.Text.{codes}
use topicstreams.Base.{
  ℕ, zero, suc, ◌+◌, ◌-◌, ◌*◌, ◌/◌, ◌%◌, ◌^◌, ◌≤◌, ◌<◌, min, max, String, ◌≡◌, refl, sym, ap, ap₂,
  subst, ◌∙◌, ◌≢◌, ◌↔◌, ◌⊎◌, inl, inr, Bool, true, false, not, ◌&&◌, ◌||◌, Option, none, some, List,
  [], ◌∷◌, ◌++◌, map, reverse, arith, eq_iff, ltb, leb, ◌==◌, str_eq, if◌then◌else◌, ltb→lt, lt→ltb,
  leb→le, le→leb, ==_iff, tests, Bool-cases, Option-cases, length, take, any, all, cons_if, filter,
  is_empty, All, length-append, length-take, length-filter-le, length-cons_if-le, any-append,
  filter-append, length-map, member, add, discard, str_eq_self, member-add, member-discard,
  member-filter, get, put, keys, values, get-put, get-put_self, get-put_ne, get_elem?,
  get_elem?-middle, get_elem?_total, append_assoc, append-nil, stretch, stretch-ge, stretch_mono,
  All-filter, All-map, All-imp, drop, DistinctKeys, get_absent, member-put, put-DistinctKeys,
  sort_desc, Descending, DistinctBy, filter-sort_desc, sort_desc-Descending, All-sort_desc,
  filter-Descending, below_middle, below_twice, last, last-append, take_full, All-middle,
}

-- `if text:`
unfoldable pub is_text : Option String → Bool
is_text none = false
is_text (some s) = ltb 0 (length (codes s))

abbrev pub size : Option String → ℕ
size none = 0
size (some s) = length (codes s)

-- The columns of `news` but its id, which is the key of the table.
pub record Article : Type 0 where
  pub url : String
  pub title : String
  pub domain : String
  pub source : Option String
  pub snippet : Option String

pub record Match : Type 0 where
  pub ident : ℕ
  pub topic : String
  pub news_id : String
  pub matched_at : ℕ

-- `matches` is `topic_news` with the next value of its sequence.
pub record Matches : Type 0 where
  pub rows : List Match
  pub next_id : ℕ

pub record EngineFact : Type 0 where
  pub topic_news_id : ℕ
  pub engine : String
  pub seen_at : ℕ

pub record Database : Type 0 where
  pub topics : List Topic
  pub news : List (String × Article)
  pub matches : Matches
  pub facts : List EngineFact

-- The pairs of a topic and an article, `match_pairs`, and the triples of `engine_facts`.
abbrev pub Pair : Type 0
Pair = String × String

unfoldable pub same_pair : Pair → Pair → Bool
same_pair p q = str_eq p.0 q.0 && str_eq p.1 q.1

unfoldable pub has_pair : Pair → List Pair → Bool
has_pair p ps = any (same_pair p) ps

unfoldable pub add_pair : Pair → List Pair → List Pair
add_pair p ps = if has_pair p ps then ps else p ∷ ps

abbrev pub same_fact : Pair × String → Pair × String → Bool
same_fact f g = same_pair f.0 g.0 && str_eq f.1 g.1

unfoldable pub add_fact : Pair × String → List (Pair × String) → List (Pair × String)
add_fact f fs = if any (same_fact f) fs then fs else f ∷ fs

pub record Batch : Type 0 where
  pub news_by_id : List (String × Article)
  pub match_pairs : List Pair
  pub engine_facts : List (Pair × String)

-- The article of the batch after one more entry of the same id.
unfoldable pub merge_entry : NewsEntry → Option Article → Article
merge_entry e none = record {
  url = e.url;
  title = e.title;
  domain = e.domain;
  source = e.source;
  snippet = e.snippet;
}
merge_entry e (some row) =
    if is_text e.snippet && (not (is_text row.snippet) || ltb (size row.snippet) (size e.snippet))
    then record row { snippet = e.snippet }
    else row

unfoldable pub gather_fact : Option String → Pair → List (Pair × String) → List (Pair × String)
gather_fact none p fs = fs
gather_fact (some engine) p fs = if is_text (some engine) then add_fact (p, engine) fs else fs

module _ (news_id_for_url : String → String) where
  unfoldable pub gather_entry : NewsEntry → Batch → Batch
  gather_entry e b =
      let news_id = news_id_for_url e.url in
      record {
        news_by_id = put news_id (merge_entry e (get news_id b.news_by_id)) b.news_by_id;
        match_pairs = add_pair (e.topic, news_id) b.match_pairs;
        engine_facts = gather_fact e.engine (e.topic, news_id) b.engine_facts;
      }

  -- The loop of `insert_news_entries`.
  unfoldable pub gather : List NewsEntry → Batch → Batch
  gather [] b = b
  gather (e ∷ entries) b = gather entries (gather_entry e b)

abbrev pub empty_batch : Batch
empty_batch = record { news_by_id = []; match_pairs = []; engine_facts = [] }

-- The snippet of a row of `news` after the upsert: only a longer one replaces it.
unfoldable pub upsert_snippet : Option String → Option String → Option String
upsert_snippet none old = old
upsert_snippet (some s) none = some s
upsert_snippet (some s) (some t) =
    if ltb (length (codes t)) (length (codes s)) then some s else some t

unfoldable pub upsert_article : Article → Option Article → Article
upsert_article new none = new
upsert_article new (some row) = record row { snippet = upsert_snippet new.snippet row.snippet }

unfoldable pub upsert_news :
    List (String × Article) → List (String × Article) → List (String × Article)
upsert_news [] news = news
upsert_news ((news_id, article) ∷ batch) news =
    upsert_news batch (put news_id (upsert_article article (get news_id news)) news)

abbrev pub pair_of : Match → Pair
pair_of m = (m.topic, m.news_id)

abbrev pub is_matched : Pair → List Match → Bool
is_matched p rows = any (λ m. same_pair (pair_of m) p) rows

-- One row of the insertion into `topic_news`, with the number of rows that it adds. The sequence
-- moves on in a conflict too.
unfoldable pub insert_match : ℕ → Pair → Matches → ℕ × Matches
insert_match now p t = if is_matched p t.rows then (0, record t { next_id = suc t.next_id }) else (
  1,
  record {
    rows = record { ident = t.next_id; topic = p.0; news_id = p.1; matched_at = now } ∷ t.rows;
    next_id = suc t.next_id;
  },
)

-- One statement, and its `rowcount`.
unfoldable pub insert_page : ℕ → List Pair → Matches → ℕ × Matches
insert_page now [] t = (0, t)
insert_page now (p ∷ ps) t =
    let first = insert_match now p t in
    let rest = insert_page now ps first.1 in (first.0 + rest.0, rest.1)

-- `execute_values`: after the statements `rowcount` is that of the last one.
unfoldable pub insert_pages : ℕ → List (List Pair) → ℕ → Matches → ℕ × Matches
insert_pages now [] count t = (count, t)
insert_pages now (page ∷ pages) count t =
    let done = insert_page now page t in insert_pages now pages done.0 done.1

unfoldable pub find_pair : Pair → List Match → Option ℕ
find_pair p [] = none
find_pair p (m ∷ rows) = if same_pair (pair_of m) p then some m.ident else find_pair p rows

abbrev pub has_fact : ℕ → String → List EngineFact → Bool
has_fact i engine facts = any (λ f. f.topic_news_id == i && str_eq f.engine engine) facts

unfoldable pub insert_fact : ℕ → Option ℕ → String → List EngineFact → List EngineFact
insert_fact now none engine facts = facts
insert_fact now (some i) engine facts =
    if has_fact i engine facts
    then facts
    else record { topic_news_id = i; engine = engine; seen_at = now } ∷ facts

-- The engines of the batch, attributed to the rows of `topic_news` that they surfaced.
unfoldable pub insert_facts :
    ℕ → List (Pair × String) → List Match → List EngineFact → List EngineFact
insert_facts now [] rows facts = facts
insert_facts now ((p, engine) ∷ batch) rows facts =
    insert_facts now batch rows (insert_fact now (find_pair p rows) engine facts)

-- The foreign key of `topic_news` on `topics`.
abbrev pub all_topics_known : List Pair → List Topic → Bool
all_topics_known ps topics = all (λ p. any (λ t. str_eq t.name p.0) topics) ps

-- `statements` cuts the set of pairs, in the order in which it is listed, into the statements of
-- `execute_values`.
module _ (news_id_for_url : String → String) (statements : List Pair → List (List Pair)) where
  unfoldable pub store_batch : ℕ → Batch → Database → ℕ × Database
  store_batch now b db =
      let (new_events, matches) = insert_pages now (statements b.match_pairs) 0 db.matches in
      (
        new_events,
        record db {
          news = upsert_news b.news_by_id db.news;
          matches = matches;
          facts = insert_facts now b.engine_facts matches.rows db.facts;
        },
      )

  -- `insert_news_entries`; none when the foreign key fails and the transaction is rolled back.
  unfoldable pub insert_news_entries : ℕ → List NewsEntry → Database → Option (ℕ × Database)
  insert_news_entries now [] db = some (0, db)
  insert_news_entries now (e ∷ entries) db =
      let b = gather news_id_for_url (e ∷ entries) empty_batch in
      if all_topics_known b.match_pairs db.topics then some (store_batch now b db) else none
