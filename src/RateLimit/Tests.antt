-- ===== src/RateLimit/Tests.antt =====
-- Requests of two clients to a limiter of two calls.
use topicstreams.RateLimit.{RateLimiter, Request}
use topicstreams.RateLimit.Decisions.{answers, ideal_answers, answers_ideal}
use topicstreams.Base.{ℕ, String, ◌≡◌, refl, none, some, List, [], ◌∷◌, arith}

abbrev limiter : RateLimiter
limiter = record { calls = 2; period = 60; trusted_proxies = 1; max_tracked = 1; requests = [] }

abbrev request : String → Request
request host = record { forwarded_for = none; peer = some host }

abbrev traffic : List (ℕ × Request)
traffic =
    (100, request "a")
    ∷ (101, request "b")
    ∷ (102, request "a")
    ∷ (103, request "a")
    ∷ (200, request "a")
    ∷ []

answers_ideal_example : answers traffic limiter ≡ ideal_answers limiter [] traffic
answers_ideal_example =
    answers_ideal traffic limiter
      (omega arith, (omega arith, (omega arith, (omega arith, (omega arith, tt))))) refl
