-- ===== src/Feed/Tests.antt =====
-- Runs of the feed of common/database.py and api/v1/news.py on small tables.
use topicstreams.Model.{NewsEntry}
use topicstreams.Feed.{
  Database, Match, Pair, Article, is_text, size, same_pair, has_pair, add_pair, merge_entry,
  gather_entry, gather, upsert_snippet, upsert_article, upsert_news, insert_match, insert_page,
  insert_pages, store_batch, insert_news_entries, is_matched,
}
use topicstreams.Feed.Reading.{in_topic, get_news_entries, get_news_count, purge_old_news_entries}
use topicstreams.Feed.Invariant.{ListsPairs, Kept, IsValid, insert_news_entries-IsValid}
use topicstreams.Feed.Articles.{Shows}
use topicstreams.Feed.Paging.{entry_id, whole, read_pages, get_news_entries-read}
use topicstreams.Feed.Purge.{purge_old_news_entries-IsValid}
use topicstreams.Feed.Stored.{
  OneStatement, gathered, KeepsAny, insert_news_entries-Counts, insert_news_entries-KeepsArticle,
}
use topicstreams.Feed.Live.{insert_news_entries-page}
use topicstreams.Feed.Rerun.{insert_news_entries-again}
use topicstreams.Base.{
  ℕ, suc, ◌+◌, ◌≤◌, String, ◌≡◌, refl, ap, subst, Bool, true, false, not, ◌||◌, none, some, List,
  [], ◌∷◌, map, arith, ltb, str_eq, length, any, filter, All, get, put, append-nil, Descending,
}

abbrev article_id : String → String
article_id url = url

abbrev one_statement : List Pair → List (List Pair)
one_statement ps = ps ∷ []

one_statement-ListsPairs : ListsPairs one_statement
one_statement-ListsPairs ps q = ap (has_pair q) (append-nil ps)

one_statement-OneStatement : OneStatement one_statement
one_statement-OneStatement ps h = (ps, refl)

abbrev found_by : String → String → String → NewsEntry
found_by engine url snippet = record {
  topic = "btc";
  title = "News";
  url = url;
  domain = "a.com";
  source = none;
  snippet = some snippet;
  engine = some engine;
}

-- The first two entries are the same article.
abbrev batch : List NewsEntry
batch =
    found_by "bing" "a.com/1" "short"
    ∷ found_by "yahoo" "a.com/1" "longer text"
    ∷ found_by "bing" "a.com/2" "x"
    ∷ []

abbrev no_news : Database
no_news = record {
  topics = record { name = "btc"; created_at = 1; is_active = true } ∷ [];
  news = [];
  matches = record { rows = []; next_id = 1 };
  facts = [];
}

abbrev first_run : ℕ × Database
first_run = store_batch article_id one_statement 10 (gathered article_id batch) no_news

first_run_stored : insert_news_entries article_id one_statement 10 batch no_news ≡ some first_run
unfolding insert_news_entries gather gather_entry add_pair has_pair same_pair
first_run_stored = refl

first_run_new : first_run.0 ≡ 2
unfolding store_batch insert_pages insert_page insert_match gather gather_entry add_pair has_pair
    same_pair
first_run_new = refl

no_news-IsValid : IsValid no_news
no_news-IsValid = record {
  matches = record { below = tt; distinct = tt; unique = tt };
  articles = tt;
  engines = tt;
}

first_run-IsValid : IsValid first_run.1
first_run-IsValid =
    (subst (Kept article_id one_statement IsValid batch no_news) first_run_stored (
      insert_news_entries-IsValid article_id one_statement 10 batch no_news one_statement-ListsPairs
        no_news-IsValid)).0

insert_news_entries-IsValid_example :
    Kept article_id one_statement IsValid batch first_run.1
      (insert_news_entries article_id one_statement 20 batch first_run.1)
insert_news_entries-IsValid_example =
    insert_news_entries-IsValid article_id one_statement 20 batch first_run.1
      one_statement-ListsPairs first_run-IsValid

insert_news_entries-again_example :
    (again : Database) × (insert_news_entries article_id one_statement 20 batch first_run.1
      ≡ some (0, again))
    × (again.matches.rows ≡ first_run.1.matches.rows)
    × (again.facts ≡ first_run.1.facts)
    × ((i : String) → get i again.news ≡ get i first_run.1.news)
    × (again.topics ≡ first_run.1.topics)
insert_news_entries-again_example =
    insert_news_entries-again article_id one_statement 10 20 batch no_news first_run
      one_statement-ListsPairs first_run_stored

insert_news_entries-Counts_example :
    (length first_run.1.matches.rows ≡ 0 + first_run.0)
    × (is_matched ("btc", "a.com/2") first_run.1.matches.rows
        ≡ (has_pair ("btc", "a.com/2") (gathered article_id batch).match_pairs || false))
insert_news_entries-Counts_example =
    insert_news_entries-Counts article_id one_statement 10 batch no_news first_run
      ("btc", "a.com/2") one_statement-OneStatement one_statement-ListsPairs (omega arith)
      first_run_stored

abbrev first_article : Article
first_article = record {
  url = "a.com/1";
  title = "News";
  domain = "a.com";
  source = none;
  snippet = some "longer text";
}

first_article_stored : get "a.com/1" first_run.1.news ≡ some first_article
unfolding store_batch gather gather_entry get put upsert_news upsert_article upsert_snippet
    merge_entry is_text
first_article_stored = refl

-- Two statements: the batch adds two rows and reports the one of the last statement.
abbrev one_by_one : List Pair → List (List Pair)
one_by_one ps = map (λ p. p ∷ []) ps

last_statement :
    (insert_pages 10 (one_by_one (("btc", "a") ∷ ("btc", "b") ∷ [])) 0 no_news.matches).0 ≡ 1
unfolding insert_pages insert_page insert_match same_pair
last_statement = refl

abbrev third : List NewsEntry
third = found_by "brave" "a.com/1" "the longest text of all" ∷ []

abbrev second_run : ℕ × Database
second_run = store_batch article_id one_statement 20 (gathered article_id third) first_run.1

second_run_stored :
    insert_news_entries article_id one_statement 20 third first_run.1 ≡ some second_run
unfolding insert_news_entries store_batch gather gather_entry add_pair has_pair same_pair
second_run_stored = refl

insert_news_entries-KeepsArticle_example :
    All (λ e. Shows (size e.snippet) (get (article_id e.url) second_run.1.news)) third
    × KeepsAny (get "a.com/1" first_run.1.news) (get "a.com/1" second_run.1.news)
insert_news_entries-KeepsArticle_example =
    insert_news_entries-KeepsArticle article_id one_statement 20 third first_run.1 second_run
      "a.com/1" second_run_stored

cursor_known : 2 ≤ first_run.1.matches.next_id
unfolding store_batch insert_pages insert_page insert_match gather gather_entry add_pair has_pair
    same_pair
cursor_known = omega arith

insert_news_entries-page_example :
    map (λ e. e.ident) (get_news_entries "btc" 5 (some 2) none second_run.1)
    ≡ map (λ e. e.ident) (get_news_entries "btc" 5 (some 2) none first_run.1)
insert_news_entries-page_example =
    insert_news_entries-page article_id one_statement 20 third first_run.1 second_run "btc" 5 2
      one_statement-ListsPairs first_run-IsValid cursor_known second_run_stored

get_news_entries-read_example :
    let entries = whole (in_topic "btc" none first_run.1) first_run.1 in
    (read_pages
        (λ b. get_news_entries "btc" 1 b none first_run.1)
        (suc (get_news_count "btc" none first_run.1))
        1
        none
      ≡ some entries)
    × Descending entry_id entries
    × (length entries ≡ get_news_count "btc" none first_run.1)
get_news_entries-read_example =
    get_news_entries-read "btc" none 1 first_run.1 (omega arith) first_run-IsValid

purge_old_news_entries-IsValid_example :
    let r = purge_old_news_entries 100 30 first_run.1 in
    let expired : Match → Bool = λ m. ltb (m.matched_at + 30) 100 in
    (r.0 ≡ length (filter expired first_run.1.matches.rows))
    × (r.1.matches.rows ≡ filter (λ m. not (expired m)) first_run.1.matches.rows)
    × All (λ a. any (λ m. str_eq m.news_id a.0) r.1.matches.rows ≡ true) r.1.news
    × IsValid r.1
purge_old_news_entries-IsValid_example =
    purge_old_news_entries-IsValid 100 30 first_run.1 first_run-IsValid
