-- ===== src/History.antt =====
-- The tables `scraper_logs` and `scraper_cycles` and their statements, in common/database.py. Times are
-- ticks of the database's clock.
use topicstreams.Model.{ScraperLog}
use topicstreams.Cycles.{Cycle}
use topicstreams.Base.{
  ℕ, ◌+◌, ◌-◌, ◌≤◌, String, ◌≡◌, true, not, Option, List, [], ◌∷◌, ◌++◌, arith, leb, length, take,
  filter, All, length-take, sort_desc, All-sort_desc, filter-All, All-take,
}

-- `insert_scraper_logs`, without the count that it returns.
unfoldable pub insert_scraper_logs : List ScraperLog → List ScraperLog → List ScraperLog
insert_scraper_logs logs table = table ++ logs

unfoldable pub get_scraper_logs : ℕ → List ScraperLog → List ScraperLog
get_scraper_logs limit table = take limit (sort_desc (λ l. l.scraped_at) table)

unfoldable pub get_recent_scrape_failures : ℕ → List ScraperLog → List ScraperLog
get_recent_scrape_failures limit table =
    take limit (sort_desc (λ l. l.scraped_at) (filter (λ l. not l.success) table))

-- `DELETE … WHERE … < NOW() - retention`, with the number of rows deleted.
unfoldable pub purge_old_scraper_logs : ℕ → ℕ → List ScraperLog → ℕ × List ScraperLog
purge_old_scraper_logs now retention table =
    let kept = filter (λ l. leb now (l.scraped_at + retention)) table in
    (length table - length kept, kept)

pub record CycleRow : Type 0 where
  pub started_at : ℕ
  pub finished_at : ℕ
  pub duration : ℕ
  pub cycle : Cycle
  pub engine : Option String

unfoldable pub insert_cycle : CycleRow → List CycleRow → List CycleRow
insert_cycle row table = table ++ row ∷ []

unfoldable pub get_recent_cycles : ℕ → List CycleRow → List CycleRow
get_recent_cycles limit table = take limit (sort_desc (λ c. c.started_at) table)

unfoldable pub purge_old_cycles : ℕ → ℕ → List CycleRow → ℕ × List CycleRow
purge_old_cycles now retention table =
    let kept = filter (λ c. leb now (c.started_at + retention)) table in
    (length table - length kept, kept)

-- No page of the logs is longer than its limit, and it never names a log that was purged.
purge_old_scraper_logs-Kept :
    (now retention limit : ℕ) (table : List ScraperLog)
    → let kept = (purge_old_scraper_logs now retention table).1 in
      All (λ l. leb now (l.scraped_at + retention) ≡ true) (get_scraper_logs limit kept)
      × (length (get_scraper_logs limit kept) ≤ limit)
unfolding purge_old_scraper_logs get_scraper_logs
purge_old_scraper_logs-Kept now retention limit table =
    let kept : List ScraperLog = filter (λ l. leb now (l.scraped_at + retention)) table in
    (
      All-take (λ (l : ScraperLog). l.scraped_at) _ limit (sort_desc (λ l. l.scraped_at) kept)
          (All-sort_desc (λ l. l.scraped_at) _ kept
            (filter-All (λ l. leb now (l.scraped_at + retention)) table)),
      omega (arith, length-take limit (sort_desc (λ l. l.scraped_at) kept)),
    )
