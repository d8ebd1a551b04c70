-- ===== src/Feed/Reading.antt =====
-- The reads of the feed in common/database.py, the purge, and the endpoints of api/v1/news.py.
use topicstreams.Feed.{Database, Match, Article, EngineFact, has_fact, is_text}
use topicstreams.Feed.Topics.{topic_exists}
use topicstreams.Sorting.{sorted}
use topicstreams.Base.{
  ℕ, ◌+◌, ◌-◌, String, Bool, true, not, ◌&&◌, Option, none, some, List, [], ◌∷◌, map, ltb, ◌==◌,
  str_eq, if◌then◌else◌, length, take, any, filter, add, get, sort_desc, last,
}

-- A row of `_FEED_SELECT`.
pub record FeedEntry : Type 0 where
  pub ident : ℕ
  pub topic : String
  pub title : String
  pub url : String
  pub domain : String
  pub source : Option String
  pub snippet : Option String
  pub scraped_at : ℕ
  pub engines : List String

unfoldable pub feed_entry : List EngineFact → Match → Article → FeedEntry
feed_entry facts m a = record {
  ident = m.ident;
  topic = m.topic;
  title = a.title;
  url = a.url;
  domain = a.domain;
  source = a.source;
  snippet = a.snippet;
  scraped_at = m.matched_at;
  engines = sorted (map (λ f. f.engine) (filter (λ f. f.topic_news_id == m.ident) facts));
}

-- The join with `news`.
abbrev pub join_row : List EngineFact → Match → Option Article → List FeedEntry → List FeedEntry
join_row facts m none rest = rest
join_row facts m (some a) rest = feed_entry facts m a ∷ rest

unfoldable pub join : Database → List Match → List FeedEntry
join db [] = []
join db (m ∷ rows) = join_row db.facts m (get m.news_id db.news) (join db rows)

-- `_ENGINE_EXISTS`, when the engine is set.
unfoldable pub surfaced_by : Option String → List EngineFact → ℕ → Bool
surfaced_by none facts i = true
surfaced_by (some engine) facts i = if is_text (some engine) then has_fact i engine facts else true

unfoldable pub is_older : Option ℕ → ℕ → Bool
is_older none i = true
is_older (some before) i = ltb i before

unfoldable pub select : (Match → Bool) → ℕ → Option ℕ → Database → List FeedEntry
select keep limit before db = take limit (
    join db (
      sort_desc (λ m. m.ident)
        (filter (λ m. is_older before m.ident) (filter keep db.matches.rows))))

abbrev pub in_topic : String → Option String → Database → Match → Bool
in_topic topic engine db m = str_eq m.topic topic && surfaced_by engine db.facts m.ident

abbrev pub in_active : Option String → Database → Match → Bool
in_active engine db m = topic_exists m.topic db.topics && surfaced_by engine db.facts m.ident

unfoldable pub get_news_entries : String → ℕ → Option ℕ → Option String → Database → List FeedEntry
get_news_entries topic limit before engine db = select (in_topic topic engine db) limit before db

unfoldable pub get_news_entries_all : ℕ → Option ℕ → Option String → Database → List FeedEntry
get_news_entries_all limit before engine db = select (in_active engine db) limit before db

abbrev pub first : List FeedEntry → Option FeedEntry
first [] = none
first (e ∷ entries) = some e

unfoldable pub get_news_entry : ℕ → Database → Option FeedEntry
get_news_entry i db = first (join db (filter (λ m. m.ident == i) db.matches.rows))

unfoldable pub get_news_count : String → Option String → Database → ℕ
get_news_count topic engine db = length (filter (in_topic topic engine db) db.matches.rows)

abbrev pub distinct : List String → List String
distinct [] = []
distinct (x ∷ xs) = add x (distinct xs)

-- `get_feed_engines`, for the window in ticks.
unfoldable pub get_feed_engines : ℕ → ℕ → Database → List String
get_feed_engines now window db =
    sorted (distinct (map (λ f. f.engine) (filter (λ f. ltb now (f.seen_at + window)) db.facts)))

-- `purge_old_news_entries`: the facts go with their row of `topic_news`, by the foreign key.
unfoldable pub purge_old_news_entries : ℕ → ℕ → Database → ℕ × Database
purge_old_news_entries now retention db =
    let kept = filter (λ m. not (ltb (m.matched_at + retention) now)) db.matches.rows in
    (
      length db.matches.rows - length kept,
      record db {
        news = filter (λ a. any (λ m. str_eq m.news_id a.0) kept) db.news;
        matches = record db.matches { rows = kept };
        facts = filter (λ f. any (λ m. m.ident == f.topic_news_id) kept) db.facts;
      },
    )

-- `_next_cursor`: the endpoints ask for a limit of at least one, so a full page has a last entry.
unfoldable pub next_cursor : List FeedEntry → ℕ → Option ℕ
next_cursor entries limit =
    if ltb (length entries) limit then none else last (map (λ e. e.ident) entries)

pub record NewsListResponse : Type 0 where
  pub entries : List FeedEntry
  pub limit : ℕ
  pub next_before_id : Option ℕ
  pub topic : Option String
  pub total : Option ℕ

unfoldable pub list_all_news : ℕ → Option ℕ → Option String → Database → NewsListResponse
list_all_news limit before engine db =
    let entries = get_news_entries_all limit before engine db in
    record {
      entries = entries;
      limit = limit;
      next_before_id = next_cursor entries limit;
      topic = none;
      total = none;
    }

-- None is the error TOPIC_NOT_FOUND. `name` is the normalized name of the topic.
unfoldable pub get_news : String → ℕ → Option ℕ → Option String → Database → Option NewsListResponse
get_news name limit before engine db =
    let entries = get_news_entries name limit before engine db in
    if topic_exists name db.topics
    then some (record {
      entries = entries;
      limit = limit;
      next_before_id = next_cursor entries limit;
      topic = some name;
      total = some (get_news_count name engine db);
    })
    else none
