-- ===== src/Scraper/Topic.antt =====
-- `scrape_topic` of scraper/scraper.py: the fallback over the engines and the cooldown gate.
use topicstreams.Model.{ScraperLog}
use topicstreams.TaskQueue.{Vertical, news_vertical}
use topicstreams.Cooldown.{Decision, run, probe, skip, Tracker, decide, is_block, is_block_message}
use topicstreams.Text.{codes, lower, to_lower, contains, contains_intro, codes-append, lower-append}
use topicstreams.Scraper.{
  Loaded, crashed, shown, Fetched, unreachable, no_response, responded, Visit, Handling,
  is_rejected, is_over, scrape_loaded, yielded_results, blocked_text, scrape_fetched,
  scrape_one_page, page_turn, pages_loop, arranged, scrape_pages, Strategy, fallback, Scraped, gate,
  engine_turn, scrape_engine, engines_loop, scrape_topic, engines_for_cycle,
}
use mathlib.Core.List.{reverse_aux}
use Prim.Native.String.{◌++◌ as text_append}
use topicstreams.Base.{
  ℕ, zero, suc, String, ◌≡◌, refl, sym, ap, subst, ◌∙◌, ◌≢◌, inl, inr, Bool, true, false, Option,
  none, some, List, [], ◌∷◌, ◌++◌, arith, Bool-cases, All, any-append, append_assoc,
}

All-append {ℓ κ} :
    {A : Type ℓ} (P : A → Type κ) (xs ys : List A) → All P xs → All P ys → All P (xs ++ ys)
All-append P [] ys a b = b
All-append P (x ∷ xs) ys a b = (a.0, All-append P xs ys a.1 b)

All-reverse_aux {ℓ κ} :
    {A : Type ℓ} (P : A → Type κ) (xs ys : List A) → All P xs → All P ys → All P (reverse_aux xs ys)
All-reverse_aux P [] ys a b = b
All-reverse_aux P (x ∷ xs) ys a b = All-reverse_aux P xs (x ∷ ys) a.1 (a.0, b)

-- The message of a detected block holds the word.
blocked_text-contains :
    (engine reason : String)
    → contains (codes "block") (lower (codes (blocked_text engine reason))) ≡ true
unfolding blocked_text lower to_lower
blocked_text-contains engine reason =
    let tail = text_append " blocked: " reason in
    let split =
      ap lower
        (codes-append engine tail ∙ ap (λ v. codes engine ++ v) (codes-append " blocked: " reason))
      ∙ lower-append (codes engine) (codes " blocked: " ++ codes reason)
      ∙ ap (λ v. lower (codes engine) ++ v) (lower-append (codes " blocked: ") (codes reason)) in
    let front = lower (codes engine) in
    let rest = codes "ed: " ++ lower (codes reason) in
    rw split (
      subst (λ v. contains (codes "block") v ≡ true)
        (ap (λ v. v ++ rest) (append_assoc front (codes " ") (codes "block"))
          ∙ append_assoc front (codes " " ++ codes "block") rest)
        (contains_intro (front ++ codes " ") (codes "block") rest))

module _ {Entry : Type 0} (handling : Handling) (stamp : String → Entry → Entry)
    (visit : String → String → Vertical → ℕ → ℕ → Visit Entry) where
  -- The logs are of the engine.
  abbrev pub LogsOf : String → List ScraperLog → Type 0
  LogsOf engine logs = All (λ log. log.engine ≡ engine) logs

  loaded_engine :
      (engine topic : String) (v : Visit Entry) (code : ℕ) (l : Loaded Entry)
      → (scrape_loaded handling stamp visit engine topic v code l).1.engine ≡ engine
  unfolding scrape_loaded
  loaded_engine engine topic v code (crashed message) = refl
  loaded_engine engine topic v code (shown (some reason) items) = refl
  loaded_engine engine topic v code (shown none items) = refl

  fetched_engine :
      (engine topic : String) (v : Visit Entry) (f : Fetched Entry)
      → (scrape_fetched handling stamp visit engine topic v f).1.engine ≡ engine
  unfolding scrape_fetched
  fetched_engine engine topic v (unreachable message) = refl
  fetched_engine engine topic v no_response = refl
  fetched_engine engine topic v (responded code loaded) =
      elim (Bool-cases (is_rejected handling code)) [
        | inl refused ↦ rw refused refl
        | inr accepted ↦ rw accepted (loaded_engine engine topic v code loaded)
      ]

  turn-LogsOf :
      (engine : String) (b : Bool) (page : List Entry × ScraperLog)
      (rest : List Entry × List ScraperLog × ℕ)
      → page.1.engine ≡ engine
      → LogsOf engine rest.1
      → LogsOf engine (page_turn handling stamp visit b page rest).1
  unfolding page_turn
  turn-LogsOf engine true page rest e a = (e, tt)
  turn-LogsOf engine false page rest e a = (e, a)

  loop-LogsOf :
      (fuel : ℕ) (engine topic : String) (vertical : Vertical) (limit : Option ℕ) (page now : ℕ)
      → LogsOf engine (pages_loop handling stamp visit fuel engine topic vertical limit page now).1
  unfolding pages_loop scrape_one_page
  loop-LogsOf zero engine topic vertical limit page now = tt
  loop-LogsOf (suc fuel) engine topic vertical limit page now =
      elim (Bool-cases (is_over limit page)) [
        | inl over ↦ rw over tt
        | inr go ↦
            let v = visit engine topic vertical now page in
            rw go (
              turn-LogsOf engine _ _ _ (fetched_engine engine topic v v.fetched)
                (loop-LogsOf fuel engine topic vertical limit (suc page) _))
      ]

  pages-LogsOf :
      (crawl : ℕ) (engine topic : String) (limit : Option ℕ) (now : ℕ)
      → LogsOf engine
          (scrape_pages handling stamp visit crawl engine topic news_vertical limit now).1
  unfolding scrape_pages arranged
  pages-LogsOf crawl engine topic none now =
      All-reverse_aux _ _ [] (loop-LogsOf crawl engine topic news_vertical none 1 now) tt
  pages-LogsOf crawl engine topic (some limit) now =
      All-reverse_aux _ _ [] (loop-LogsOf (suc limit) engine topic news_vertical (some limit) 1 now)
        tt

  -- The logs before those of the last engine have no results.
  pub record FallsBack (logs : List ScraperLog) : Type 0 where
    pub before : List ScraperLog
    pub last : String
    pub final : List ScraperLog
    pub split : logs ≡ before ++ final
    pub fruitless : yielded_results before ≡ false
    pub of_last : LogsOf last final

  alone-FallsBack : (engine : String) (logs : List ScraperLog) → LogsOf engine logs → FallsBack logs
  unfolding yielded_results
  alone-FallsBack engine logs a = record {
    before = [];
    last = engine;
    final = logs;
    split = refl;
    fruitless = refl;
    of_last = a;
  }

  joined-FallsBack :
      (logs more : List ScraperLog)
      → false ≡ yielded_results logs
      → FallsBack more
      → FallsBack (logs ++ more)
  unfolding yielded_results
  joined-FallsBack logs more e f = record {
    before = logs ++ f.before;
    last = f.last;
    final = f.final;
    split = ap (λ x. logs ++ x) f.split ∙ sym (append_assoc logs f.before f.final);
    fruitless = any-append _ logs f.before ∙ (ground (arith, e, f.fruitless));
    of_last = f.of_last;
  }

  -- What becomes of a run over a list of engines, from a time and a tracker: a benched engine is passed
  -- over; an engine that yields results is the last that runs; after one that yields none the next engine
  -- has its turn, with the tracker and the time that it left; and the run ends after the last engine.
  pub data Falls (crawl : ℕ) (topic : String) (limit : Option ℕ)
      : List String → ℕ → Option Tracker → Scraped handling stamp visit → Type 0 where
    exhausted :
        (now : ℕ) (c : Option Tracker)
        → Falls crawl topic limit [] now c
            (record { entries = []; logs = []; tracker = c; ended_at = now })
    passed :
        (e : String) (es : List String) (now : ℕ) (c : Option Tracker)
        (r : Scraped handling stamp visit)
        → gate handling stamp visit now c e ≡ skip
        → Falls crawl topic limit es now c r
        → Falls crawl topic limit (e ∷ es) now c r
    yielded :
        (e : String) (es : List String) (now : ℕ) (c : Option Tracker)
        → gate handling stamp visit now c e ≢ skip
        → yielded_results (scrape_engine handling stamp visit crawl e topic limit now c).logs ≡ true
        → Falls crawl topic limit
            (e ∷ es)
            now
            c
            (scrape_engine handling stamp visit crawl e topic limit now c)
    fell_back :
        (e : String) (es : List String) (now : ℕ) (c : Option Tracker)
        (ran r : Scraped handling stamp visit)
        → gate handling stamp visit now c e ≢ skip
        → ran ≡ scrape_engine handling stamp visit crawl e topic limit now c
        → yielded_results ran.logs ≡ false
        → Falls crawl topic limit es ran.ended_at ran.tracker r
        → Falls crawl topic limit (e ∷ es) now c (record {
          entries = ran.entries ++ r.entries;
          logs = ran.logs ++ r.logs;
          tracker = r.tracker;
          ended_at = r.ended_at;
        })

  turn-Falls :
      (crawl : ℕ) (topic : String) (limit : Option ℕ) (e : String) (es : List String) (now : ℕ)
      (c : Option Tracker) (d : Decision) (stops : Bool)
      (skipped rest : Scraped handling stamp visit)
      → let ran = scrape_engine handling stamp visit crawl e topic limit now c in
        gate handling stamp visit now c e ≡ d
        → yielded_results ran.logs ≡ stops
        → Falls crawl topic limit es now c skipped
        → Falls crawl topic limit es ran.ended_at ran.tracker rest
        → Falls crawl topic limit
            (e ∷ es)
            now
            c
            (engine_turn handling stamp visit d stops skipped ran rest)
  unfolding engine_turn
  turn-Falls crawl topic limit e es now c skip stops skipped rest g y f h =
      passed e es now c skipped g f
  turn-Falls crawl topic limit e es now c run true skipped rest g y f h =
      yielded e es now c (λ s. absurd (cc (g, s))) y
  turn-Falls crawl topic limit e es now c probe true skipped rest g y f h =
      yielded e es now c (λ s. absurd (cc (g, s))) y
  turn-Falls crawl topic limit e es now c run false skipped rest g y f h =
      fell_back e es now c _ rest (λ s. absurd (cc (g, s))) refl y h
  turn-Falls crawl topic limit e es now c probe false skipped rest g y f h =
      fell_back e es now c _ rest (λ s. absurd (cc (g, s))) refl y h

  loop-Falls :
      (crawl : ℕ) (topic : String) (limit : Option ℕ) (engines : List String) (now : ℕ)
      (c : Option Tracker)
      → Falls crawl topic limit engines now c
          (engines_loop handling stamp visit crawl fallback topic limit engines now c)
  unfolding engines_loop
  loop-Falls crawl topic limit [] now c = exhausted now c
  loop-Falls crawl topic limit (e ∷ es) now c =
      let ran = scrape_engine handling stamp visit crawl e topic limit now c in
      turn-Falls crawl topic limit e es now c (gate handling stamp visit now c e)
        (yielded_results ran.logs)
        (engines_loop handling stamp visit crawl fallback topic limit es now c)
        (engines_loop handling stamp visit crawl fallback topic limit es ran.ended_at ran.tracker)
        refl refl (loop-Falls crawl topic limit es now c)
        (loop-Falls crawl topic limit es ran.ended_at ran.tracker)

  turn-FallsBack :
      (d : Decision) (stops : Bool) (engine : String)
      (skipped ran rest : Scraped handling stamp visit)
      → stops ≡ yielded_results ran.logs
      → LogsOf engine ran.logs
      → FallsBack skipped.logs
      → FallsBack rest.logs
      → FallsBack (engine_turn handling stamp visit d stops skipped ran rest).logs
  unfolding engine_turn
  turn-FallsBack skip stops engine skipped ran rest e a f g = f
  turn-FallsBack run true engine skipped ran rest e a f g = alone-FallsBack engine ran.logs a
  turn-FallsBack run false engine skipped ran rest e a f g = joined-FallsBack ran.logs rest.logs e g
  turn-FallsBack probe true engine skipped ran rest e a f g = alone-FallsBack engine ran.logs a
  turn-FallsBack probe false engine skipped ran rest e a f g =
      joined-FallsBack ran.logs rest.logs e g

  loop-FallsBack :
      (crawl : ℕ) (topic : String) (limit : Option ℕ) (engines : List String) (now : ℕ)
      (c : Option Tracker)
      → FallsBack (engines_loop handling stamp visit crawl fallback topic limit engines now c).logs
  unfolding engines_loop scrape_engine
  loop-FallsBack crawl topic limit [] now c = alone-FallsBack "" [] tt
  loop-FallsBack crawl topic limit (e ∷ es) now c =
      let ran = scrape_engine handling stamp visit crawl e topic limit now c in
      turn-FallsBack (gate handling stamp visit now c e) (yielded_results ran.logs) e
        (engines_loop handling stamp visit crawl fallback topic limit es now c) ran
        (engines_loop handling stamp visit crawl fallback topic limit es ran.ended_at ran.tracker)
        refl (pages-LogsOf crawl e topic limit now) (loop-FallsBack crawl topic limit es now c)
        (loop-FallsBack crawl topic limit es ran.ended_at ran.tracker)

  -- Under `fallback` a topic is scraped engine by engine, benched ones apart, until one yields results, and
  -- if none does, until each of the cycle's engines has had its turn; so the logs of all engines but the
  -- last that ran have no successful page with entries.
  pub scrape_topic-FallsBack :
      (crawl : ℕ) (sources : List String) (topic : String) (cycle : ℕ) (limit : Option ℕ) (now : ℕ)
      (c : Option Tracker)
      → let r = scrape_topic handling stamp visit crawl sources topic fallback cycle limit now c in
        Falls crawl topic limit (engines_for_cycle sources fallback cycle) now c r
        × FallsBack r.logs
  unfolding scrape_topic
  scrape_topic-FallsBack crawl sources topic cycle limit now c = (
    loop-Falls crawl topic limit (engines_for_cycle sources fallback cycle) now c,
    loop-FallsBack crawl topic limit (engines_for_cycle sources fallback cycle) now c,
  )

  loop_benched :
      (crawl : ℕ) (strategy : Strategy) (topic : String) (limit : Option ℕ) (engines : List String)
      (now : ℕ) (c : Tracker)
      → All (λ e. decide now c e ≡ skip) engines
      → engines_loop handling stamp visit crawl strategy topic limit engines now (some c)
        ≡ record { entries = []; logs = []; tracker = some c; ended_at = now }
  unfolding engines_loop engine_turn
  loop_benched crawl strategy topic limit [] now c a = refl
  loop_benched crawl strategy topic limit (e ∷ es) now c a =
      rw (a.0) (loop_benched crawl strategy topic limit es now c a.1)

  -- If all engines of the cycle are benched, a topic is not scraped at all: no entry, no log, no
  -- time, and the tracker as it was.
  scrape_topic_benched :
      (crawl : ℕ) (sources : List String) (topic : String) (strategy : Strategy) (cycle : ℕ)
      (limit : Option ℕ) (now : ℕ) (c : Tracker)
      → All (λ e. decide now c e ≡ skip) (engines_for_cycle sources strategy cycle)
      → scrape_topic handling stamp visit crawl sources topic strategy cycle limit now (some c)
        ≡ record { entries = []; logs = []; tracker = some c; ended_at = now }
  unfolding scrape_topic
  scrape_topic_benched crawl sources topic strategy cycle limit now c a =
      loop_benched crawl strategy topic limit (engines_for_cycle sources strategy cycle) now c a

  -- A page on which the source detects a block is logged so that the cooldown tracker takes the run
  -- for a block, whatever the engine's name, the reason and the status are.
  detected-is_block :
      (engine topic reason : String) (v : Visit Entry) (code : ℕ) (items : List (Option Entry))
      → is_block
          (scrape_loaded handling stamp visit engine topic v code (shown (some reason) items)).1
        ≡ true
  unfolding scrape_loaded is_block is_block_message
  detected-is_block engine topic reason v code items =
      ground (arith, blocked_text-contains engine reason)
