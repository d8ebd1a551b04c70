-- ===== src/Scraper/Pages.antt =====
-- `scrape_pages` of scraper/scraper.py: its requests, its entries and its logs.
use topicstreams.Model.{ScraperLog}
use topicstreams.TaskQueue.{Vertical}
use topicstreams.Scraper.{
  Visit, Handling, scrape_one_page, page_turn, is_last, pages_loop, arranged, scrape_pages,
}
use topicstreams.Base.{
  ℕ, zero, suc, ◌+◌, ◌≤◌, ◌<◌, String, ◌≡◌, refl, ap, true, false, some, List, [], ◌∷◌, ◌++◌, arith,
  ltb, if◌then◌else◌, length,
}

-- The sum of a measure over the logs.
abbrev pub total {ℓ} : {A : Type ℓ} → (A → ℕ) → List A → ℕ
total f [] = 0
total f (x ∷ xs) = f x + total f xs

total-append {ℓ} :
    {A : Type ℓ} (f : A → ℕ) (xs ys : List A) → total f (xs ++ ys) ≡ total f xs + total f ys
total-append f [] ys = omega arith
total-append f (x ∷ xs) ys = omega (arith, total-append f xs ys)

abbrev pub failures : ScraperLog → ℕ
failures log = if log.success then 0 else 1

module _ {Entry : Type 0} (handling : Handling) (stamp : String → Entry → Entry)
    (visit : String → String → Vertical → ℕ → ℕ → Visit Entry) where
  -- A page's log counts its entries, and a failed page has none.
  abbrev Honest : List Entry × ScraperLog → Type 0
  Honest page = page.1.entry_count ≡ length page.0

  -- A failed page has no entry.
  abbrev FailsEmpty : List Entry × ScraperLog → Type 0
  FailsEmpty page = page.1.success ≡ false → page.1.entry_count ≡ 0

  -- What is claimed of a crawl from a page on.
  abbrev pub Counts : List Entry × List ScraperLog × ℕ → Type 0
  Counts r = (total (λ log. log.entry_count) r.1 ≡ length r.0) × (total failures r.1 ≤ 1)

  module _ (engine topic : String) (vertical : Vertical) where
    -- Fuel that reaches past the limit is enough.
    loop_fuel :
        (fuel more limit page now : ℕ)
        → limit < fuel + page
        → limit < more + page
        → pages_loop handling stamp visit fuel engine topic vertical (some limit) page now
          ≡ pages_loop handling stamp visit more engine topic vertical (some limit) page now
    unfolding pages_loop
    loop_fuel zero zero limit page now h k = refl
    loop_fuel zero (suc more) limit page now h k =
        let over : ltb limit page ≡ true = ground arith in rw over refl
    loop_fuel (suc fuel) zero limit page now h k =
        let over : ltb limit page ≡ true = ground arith in rw over refl
    loop_fuel (suc fuel) (suc more) limit page now h k =
        let got = scrape_one_page handling stamp visit engine topic vertical now page in
        ap
          (λ rest.
            if ltb limit page
            then ([], [], now)
            else page_turn handling stamp visit (is_last handling stamp visit got) got rest)
          (loop_fuel fuel more limit (suc page) got.1.scraped_at (omega arith) (omega arith))

    -- The crawl ends by itself: with any more fuel than the limit needs it gives the same.
    scrape_pages_fuel :
        (crawl fuel limit now : ℕ)
        → limit ≤ fuel
        → scrape_pages handling stamp visit crawl engine topic vertical (some limit) now
          ≡ arranged handling stamp visit vertical
              (pages_loop handling stamp visit fuel engine topic vertical (some limit) 1 now)
    unfolding scrape_pages
    scrape_pages_fuel crawl fuel limit now le =
        ap (arranged handling stamp visit vertical)
          (loop_fuel (suc limit) fuel limit 1 now (omega arith) (omega arith))
