-- ===== src/Dispatch/Outcomes.antt =====
-- What `dispatch_web_search` of api/websearch.py reports.
use topicstreams.Text.{strip}
use topicstreams.Model.{WebResult}
use topicstreams.EngineTable.{EngineTable}
use topicstreams.Jobs.{Row, Table}
use topicstreams.Dispatch.{
  on_status, is_healthy, healthy_engines, SearchStatus, ok, timeout, busy, unavailable,
  WebSearchResult, status_of, or_nil, Settings, Attempt, refused, timed_out, answered, attempt,
  after_attempt, dispatch_loop, dispatch_web_search,
}
use topicstreams.Base.{
  ℕ, zero, suc, ◌≤◌, String, ◌≡◌, refl, sym, ap, subst, ◌∙◌, inl, inr, Bool, true, false, none,
  some, List, [], ◌∷◌, ◌++◌, arith, str_eq, Bool-cases, length, take, filter, All, length-take,
  member, str_eq_self, member-filter, get, append_assoc, append-nil, All-imp,
}

abbrev pub is_ok : SearchStatus → Bool
is_ok ok = true
is_ok _ = false

-- The engines that were added to the attempts are among those to try, each tried at most once for
-- each place it has in the list.
pub record Tries (engines before after : List String) : Type 0 where
  pub added : List String
  pub appended : after ≡ before ++ added
  pub bounded : length added ≤ length engines
  pub among : All (λ e. member e engines ≡ true) added

Tries-none : (engines before : List String) → Tries engines before before
Tries-none engines before = record {
  added = [];
  appended = sym (append-nil before);
  bounded = omega arith;
  among = tt;
}

All-member-cons :
    (e : String) (engines added : List String)
    → All (λ x. member x engines ≡ true) added
    → All (λ x. member x (e ∷ engines) ≡ true) added
unfolding member
All-member-cons e engines [] a = tt
All-member-cons e engines (x ∷ added) a = (ground (arith, a.0), All-member-cons e engines added a.1)

Tries-skip :
    (e : String) (engines before after : List String)
    → Tries engines before after
    → Tries (e ∷ engines) before after
Tries-skip e engines before after t = record {
  added = t.added;
  appended = t.appended;
  bounded = omega (arith, t.bounded);
  among = All-member-cons e engines t.added t.among;
}

Tries-add :
    (e : String) (engines before after : List String)
    → Tries engines (before ++ e ∷ []) after
    → Tries (e ∷ engines) before after
unfolding member
Tries-add e engines before after t = record {
  added = e ∷ t.added;
  appended = t.appended ∙ append_assoc before (e ∷ []) t.added;
  bounded = omega (arith, t.bounded);
  among = (ground (arith, str_eq_self e), All-member-cons e engines t.added t.among);
}

member-take-imp :
    (n : ℕ) (e : String) (xs : List String) → member e (take n xs) ≡ true → member e xs ≡ true
unfolding member
member-take-imp zero e xs h = absurd (cc h)
member-take-imp (suc n) e [] h = h
member-take-imp (suc n) e (x ∷ xs) h = ground (arith, member-take-imp n e xs)

member-filter-imp :
    (p : String → Bool) (e : String) (xs : List String)
    → member e (filter p xs) ≡ true
    → (p e ≡ true) × (member e xs ≡ true)
member-filter-imp p e xs h = ground (arith, member-filter p e xs)

module _ (others : ℕ → Table → Table) (settings : Settings) where
  -- The times and tables that a sequence of attempts leads through from a time and a table.
  pub data Reached (query : String) : ℕ → Table → ℕ → Table → Type 0 where
    here : (now : ℕ) (t : Table) → Reached query now t now t
    after :
        (e : String) (now : ℕ) (t : Table) (later : ℕ) (u : Table)
        → Reached query
            (attempt others settings query e now t).1
            (attempt others settings query e now t).2
            later
            u
        → Reached query now t later u

  -- The attempt of the engine, made at a time and a table that were reached, was answered by a row with
  -- the outcome `ok`, and the results are the row's.
  abbrev pub FoundBy : String → ℕ → Table → String → List WebResult → Type 0
  FoundBy query now t e results =
      (later : ℕ) × (u : Table) × (row : Row) × Reached query now t later u
      × ((attempt others settings query e later u).0 ≡ answered row)
      × (status_of row.outcome ≡ ok)
      × (results ≡ or_nil row.results)

  -- Results come with the status `ok` only, and are those that the engine that was tried last, and no other,
  -- has answered.
  pub record Reports (query : String) (now : ℕ) (t : Table) (r : WebSearchResult) : Type 0 where
    pub success :
        is_ok r.status ≡ true
        → (front : List String) × (e : String) × (r.engine ≡ some e)
          × (r.attempts ≡ front ++ e ∷ [])
          × FoundBy query now t e r.results
    pub failure : is_ok r.status ≡ false → (r.engine ≡ none) × (r.results ≡ [])

  after-Reports :
      (query e : String) (now : ℕ) (t : Table) (r : WebSearchResult)
      → Reports query
          (attempt others settings query e now t).1
          (attempt others settings query e now t).2
          r
      → Reports query now t r
  after-Reports query e now t r x = record {
    success = λ h.
        let (front, last, engine, attempts, (later, u, row, way, found, outcome, results)) =
          x.success h in
        (
          front,
          last,
          engine,
          attempts,
          (later, u, row, after e now t later u way, found, outcome, results),
        );
    failure = x.failure;
  }

  -- The result of the loop, for the attempts made before it.
  abbrev pub Loops :
      String → ℕ → Table → List String → List String → WebSearchResult × Table → Type 0
  Loops query now t engines before r = Tries engines before r.0.attempts × Reports query now t r.0

  status-Loops :
      (query e : String) (now : ℕ) (t : Table) (engines before : List String) (row : Row)
      (s : SearchStatus) (continue : SearchStatus → List String → WebSearchResult × Table)
      (u : Table)
      → (attempt others settings query e now t).0 ≡ answered row
      → status_of row.outcome ≡ s
      → ((x : SearchStatus) (b : List String)
          → is_ok x ≡ false
          → Loops query
              (attempt others settings query e now t).1
              (attempt others settings query e now t).2
              engines
              b
              (continue x b))
      → Loops query now t
          (e ∷ engines)
          before
          (on_status others settings query e (before ++ e ∷ []) (or_nil row.results) s continue u)
  unfolding on_status
  status-Loops query e now t engines before row ok continue u found outcome rest = (
    Tries-add e engines before _ (Tries-none engines (before ++ e ∷ [])),
    record {
      success = λ _. (before, e, refl, refl, (now, t, row, here now t, found, outcome, refl));
      failure = λ h. absurd (cc h);
    },
  )
  status-Loops query e now t engines before row s continue u found outcome rest =
      let (tries, reports) = rest s (before ++ e ∷ []) refl in
      (Tries-add e engines before _ tries, after-Reports query e now t _ reports)

  after-Loops :
      (query e : String) (now : ℕ) (t : Table) (engines before : List String) (a : Attempt)
      (continue : SearchStatus → List String → WebSearchResult × Table) (u : Table)
      → (attempt others settings query e now t).0 ≡ a
      → ((s : SearchStatus) (b : List String)
          → is_ok s ≡ false
          → Loops query
              (attempt others settings query e now t).1
              (attempt others settings query e now t).2
              engines
              b
              (continue s b))
      → Loops query now t
          (e ∷ engines)
          before
          (after_attempt others settings query e before a continue u)
  unfolding after_attempt
  after-Loops query e now t engines before refused continue u found rest =
      let (tries, reports) = rest busy before refl in
      (Tries-skip e engines before _ tries, after-Reports query e now t _ reports)
  after-Loops query e now t engines before timed_out continue u found rest =
      let (tries, reports) = rest timeout (before ++ e ∷ []) refl in
      (Tries-add e engines before _ tries, after-Reports query e now t _ reports)
  after-Loops query e now t engines before (answered r) continue u found rest =
      status-Loops query e now t engines before r (status_of r.outcome) continue u found refl rest

  dispatch_loop-Loops :
      (query : String) (engines before : List String) (last : SearchStatus) (now : ℕ) (t : Table)
      → is_ok last ≡ false
      → Loops query now t engines before
          (dispatch_loop others settings query engines before last now t)
  unfolding dispatch_loop
  dispatch_loop-Loops query [] before last now t h = (
    Tries-none [] before,
    record { success = λ e. absurd (cc (e, h)); failure = λ _. (refl, refl) },
  )
  dispatch_loop-Loops query (e ∷ engines) before last now t h =
      after-Loops query e now t engines before _ _ _ refl
        (λ s b g. dispatch_loop-Loops query engines b s _ _ g)

  -- What is claimed of a whole search: the engines that it tried are configured and healthy, and at
  -- most as many as the limit.
  abbrev pub Searches : String → ℕ → EngineTable → Table → WebSearchResult → Type 0
  Searches raw now cooldowns t r =
      All (λ e. (is_healthy now (get e cooldowns) ≡ true) × (member e settings.engines ≡ true))
        r.attempts
      × (length r.attempts ≤ settings.max_engine_attempts)
      × Reports (strip raw) now t r

  Loops-Searches :
      (raw : String) (now : ℕ) (cooldowns : EngineTable) (t : Table) (r : WebSearchResult × Table)
      → Loops
          (strip raw)
          now
          t
          (take settings.max_engine_attempts (healthy_engines now settings.engines cooldowns))
          []
          r
      → Searches raw now cooldowns t r.0
  unfolding healthy_engines
  Loops-Searches raw now cooldowns table r (t, reports) =
      let healthy = filter (λ e. is_healthy now (get e cooldowns)) settings.engines in
      let kept =
        All-imp _
          (λ e. (is_healthy now (get e cooldowns) ≡ true) × (member e settings.engines ≡ true))
          t.added
          (λ e m.
            member-filter-imp (λ x. is_healthy now (get x cooldowns)) e settings.engines
              (member-take-imp settings.max_engine_attempts e healthy m))
          t.among in
      (
        subst (All _) (sym t.appended) kept,
        omega (
          arith,
          ap length t.appended,
          t.bounded,
          length-take settings.max_engine_attempts healthy,
        ),
        reports,
      )

  -- A search tries only configured engines that are healthy when it starts, at most as many as the limit;
  -- it has an engine and results only with the status `ok`, and then the engine is the one that it tried
  -- last, and the results are those of the row with the outcome `ok` that answered this engine's attempt.
  pub dispatch_web_search-Searches :
      (raw : String) (now : ℕ) (cooldowns : EngineTable) (t : Table)
      → Searches raw now cooldowns t (dispatch_web_search others settings raw now cooldowns t).0
  unfolding dispatch_web_search
  dispatch_web_search-Searches raw now cooldowns t = elim (Bool-cases (str_eq (strip raw) "")) [
    | inl blank ↦
        rw blank
          (tt, omega arith, record { success = λ h. absurd (cc h); failure = λ _. (refl, refl) })
    | inr query ↦ rw query (
        let tried : List String =
          take settings.max_engine_attempts (healthy_engines now settings.engines cooldowns) in
        Loops-Searches raw now cooldowns t
          (dispatch_loop others settings (strip raw) tried [] unavailable now t)
          (dispatch_loop-Loops (strip raw) tried [] unavailable now t refl))
  ]

  -- A search reports `busy` when the last engine is at capacity, also if an engine before it took
  -- the search and gave no answer in time.
  busy_last :
      (query first second : String) (now : ℕ) (t : Table)
      → (attempt others settings query first now t).0 ≡ timed_out
      → (attempt others settings query second
          (attempt others settings query first now t).1
          (attempt others settings query first now t).2).0
        ≡ refused
      → ((dispatch_loop others settings query (first ∷ second ∷ []) [] unavailable now t).0.status
          ≡ busy)
        × ((dispatch_loop others settings query
              (first ∷ second ∷ [])
              []
              unavailable
              now
              t).0.attempts
            ≡ first ∷ [])
  unfolding dispatch_loop after_attempt
  busy_last query first second now t slow full = (rw (slow, full), rw (slow, full))
