-- ===== src/RateLimit/Decisions.antt =====
-- The answers of `RateLimitMiddleware.dispatch` of api/main.py are those of a limiter that keeps
-- every accepted request.
use topicstreams.RateLimit.{
  RateLimiter, Request, client_ip, is_recent, recent_hits, evict_over, dispatch, evict_stale,
  hits_of,
}
use topicstreams.RateLimit.Window.{times, All-snoc, append-Ascending, filter_later, Hits}
use topicstreams.RateLimit.Ideal.{
  stored, Remembers, evict-Remembers, times-append, recent-Hits, put-Remembers,
}
use native.Mathlib.Nat.{le_refl}
use topicstreams.Base.{
  ℕ, ◌≤◌, String, ◌≡◌, refl, sym, ap, ap₂, subst, ◌∙◌, inl, inr, Bool, true, false, not, List, [],
  ◌∷◌, ◌++◌, arith, ltb, leb, Bool-cases, length, filter, filter-append, str_eq_self, get, put,
  DistinctKeys,
}

-- The request may pass: the address has fewer accepted requests in the window than the limit.
abbrev pub allows : RateLimiter → List (String × ℕ) → ℕ → String → Bool
allows l log now ip = not (leb l.calls (length (filter (is_recent now l.period) (times ip log))))

abbrev pub logged : Bool → ℕ → String → List (String × ℕ) → List (String × ℕ)
logged true now ip log = log ++ (ip, now) ∷ []
logged false now ip log = log

over-Remembers :
    (now : ℕ) (log : List (String × ℕ)) (l : RateLimiter)
    → Remembers now log l
    → Remembers now log (evict_over now l)
unfolding evict_over
over-Remembers now log l r = elim (Bool-cases (ltb l.max_tracked (length l.requests))) [
  | inl over ↦ rw over (evict-Remembers now log l r)
  | inr under ↦ rw under r
]

rejected-Remembers :
    (until now : ℕ) (log : List (String × ℕ)) (ip : String) (l : RateLimiter)
    → until ≤ now
    → Remembers until log l
    → Remembers now log (record l { requests = put ip (recent_hits now ip l) l.requests })
unfolding recent_hits
rejected-Remembers until now log ip l le r =
    put-Remembers until now log log ip _ l le
      (recent-Hits until now l.period (stored ip l) le (r.hits ip))
      (λ later le'.
        filter_later now later l.period (stored ip l) le' ∙ r.same ip later (omega arith))
      (λ j other. refl) r

accepted-Remembers :
    (until now : ℕ) (log : List (String × ℕ)) (ip : String) (l : RateLimiter)
    → until ≤ now
    → Remembers until log l
    → Remembers now
        (logged true now ip log)
        (record l { requests = put ip (recent_hits now ip l ++ now ∷ []) l.requests })
unfolding recent_hits
accepted-Remembers until now log ip l le r =
    let kept = recent-Hits until now l.period (stored ip l) le (r.hits ip) in
    put-Remembers until now log (logged true now ip log) ip _ l le
      (append-Ascending now _ kept, All-snoc (λ t. t ≤ now) _ now kept.1 (le_refl now))
      (λ later le'.
        filter-append (is_recent later l.period) (recent_hits now ip l) (now ∷ [])
        ∙ ap (λ ts. ts ++ filter (is_recent later l.period) (now ∷ []))
            (filter_later now later l.period (stored ip l) le' ∙ r.same ip later (omega arith))
        ∙ sym (filter-append (is_recent later l.period) (times ip log) (now ∷ []))
        ∙ ap (filter (is_recent later l.period)) (sym (own_log ip now log)))
      (λ j other. times-append ip j now log ∙ (rw other refl)) r
  where
    own_log :
        (ip : String) (now : ℕ) (log : List (String × ℕ))
        → times ip (log ++ (ip, now) ∷ []) ≡ times ip log ++ now ∷ []
    own_log ip now log = times-append ip ip now log ∙ (rw (str_eq_self ip) refl)

-- One request: the limiter that forgets answers as the one that does not, and goes on to remember
-- what matters.
dispatch-Remembers :
    (until now : ℕ) (log : List (String × ℕ)) (req : Request) (l : RateLimiter)
    → until ≤ now
    → Remembers until log l
    → ((dispatch now req l).0 ≡ allows l log now (client_ip l req))
      × Remembers now
          (logged (dispatch now req l).0 now (client_ip l req) log)
          (dispatch now req l).1
unfolding dispatch
dispatch-Remembers until now log req l le r =
    let ip = client_ip l req in
    let same : recent_hits now ip l ≡ filter (is_recent now l.period) (times ip log) =
      unfold recent_hits in (r.same ip now le) in
    elim (Bool-cases (leb l.calls (length (recent_hits now ip l)))) [
      | inl full ↦
          rw full (rw (sym same) (rw full refl), rejected-Remembers until now log ip l le r)
      | inr open_slot ↦ rw open_slot (
        rw (sym same) (rw open_slot refl),
        over-Remembers now _ _ (accepted-Remembers until now log ip l le r),
      )
    ]

-- The settings of two limiters are the same.
abbrev SameSettings : RateLimiter → RateLimiter → Type 0
SameSettings l m =
    (m.calls ≡ l.calls) × (m.period ≡ l.period) × (m.trusted_proxies ≡ l.trusted_proxies)

over-SameSettings :
    (now : ℕ) (l m : RateLimiter) → SameSettings l m → SameSettings l (evict_over now m)
unfolding evict_over evict_stale
over-SameSettings now l m e = elim (Bool-cases (ltb m.max_tracked (length m.requests))) [
  | inl over ↦ rw over e
  | inr under ↦ rw under e
]

dispatch-SameSettings :
    (now : ℕ) (req : Request) (l m : RateLimiter)
    → SameSettings l m
    → SameSettings l (dispatch now req m).1
unfolding dispatch
dispatch-SameSettings now req l m e =
    elim (Bool-cases (leb m.calls (length (recent_hits now (client_ip m req) m)))) [
      | inl full ↦ rw full e
      | inr open_slot ↦ rw open_slot (over-SameSettings now l _ e)
    ]

-- The answers to requests, each at its time.
abbrev pub answers : List (ℕ × Request) → RateLimiter → List Bool
answers [] l = []
answers ((now, req) ∷ rs) l = (dispatch now req l).0 ∷ answers rs (dispatch now req l).1

-- Those of a limiter with the settings that keeps a log of all that it accepted.
abbrev pub ideal_answers : RateLimiter → List (String × ℕ) → List (ℕ × Request) → List Bool
ideal_answers l log [] = []
ideal_answers l log ((now, req) ∷ rs) =
    let passes = allows l log now (client_ip l req) in
    passes ∷ ideal_answers l (logged passes now (client_ip l req) log) rs

-- The times of the requests do not go back.
abbrev pub Timed : ℕ → List (ℕ × Request) → Type 0
Timed until [] = Unit
Timed until ((now, req) ∷ rs) = (until ≤ now) × Timed now rs

allows_settings :
    (l m : RateLimiter) (log : List (String × ℕ)) (now : ℕ) (ip : String)
    → SameSettings l m
    → allows m log now ip ≡ allows l log now ip
allows_settings l m log now ip (c, p, t) = rw (c, p) refl

client_ip_settings :
    (l m : RateLimiter) (req : Request) → SameSettings l m → client_ip m req ≡ client_ip l req
unfolding client_ip
client_ip_settings l m req (c, p, t) = rw t refl

answers_from :
    (rs : List (ℕ × Request)) (until : ℕ) (log : List (String × ℕ)) (l m : RateLimiter)
    → Timed until rs
    → SameSettings l m
    → Remembers until log m
    → answers rs m ≡ ideal_answers l log rs
answers_from [] until log l m timed e r = refl
answers_from ((now, req) ∷ rs) until log l m timed e r =
    let (same, remembers) = dispatch-Remembers until now log req m timed.0 r in
    let ip : client_ip m req ≡ client_ip l req = client_ip_settings l m req e in
    let passes : (dispatch now req m).0 ≡ allows l log now (client_ip l req) =
      same ∙ ap (allows m log now) ip ∙ allows_settings l m log now (client_ip l req) e in
    let grown : Remembers now
        (logged (allows l log now (client_ip l req)) now (client_ip l req) log)
        (dispatch now req m).1 =
      subst (λ b. Remembers now (logged b now (client_ip l req) log) (dispatch now req m).1) passes
        (subst (λ a. Remembers now (logged (dispatch now req m).0 now a log) (dispatch now req m).1)
          ip remembers) in
    ap₂ ◌∷◌ passes (
      answers_from rs now _ l (dispatch now req m).1 timed.1 (dispatch-SameSettings now req l m e)
        grown)

-- From a start with no request on record, for requests in the order of their times, the limiter
-- passes exactly those that a limiter which forgets nothing would pass: an address with fewer
-- accepted requests in the window than the limit. Dropping old hits and evicting silent addresses
-- never changes an answer.
pub answers_ideal :
    (rs : List (ℕ × Request)) (l : RateLimiter)
    → Timed 0 rs
    → l.requests ≡ []
    → answers rs l ≡ ideal_answers l [] rs
unfolding get
answers_ideal rs l timed empty_start =
    answers_from rs 0 [] l l timed (refl, refl, refl)
      (record {
        distinct = subst DistinctKeys (sym empty_start) tt;
        hits = λ ip. subst (λ d. Hits 0 (hits_of (get ip d))) (sym empty_start) (tt, tt);
        same = λ ip later le. rw empty_start refl;
      })
