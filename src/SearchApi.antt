-- ===== src/SearchApi.antt =====
-- api/v1/search.py: the endpoint over the dispatcher, and the HTTP status of each outcome.
mod Tests
use topicstreams.Model.{WebResult}
use topicstreams.EngineTable.{EngineTable}
use topicstreams.Jobs.{Table}
use topicstreams.Dispatch.{
  SearchStatus, ok, empty, blocked, error, cooling, timeout, busy, unavailable, WebSearchResult,
  Settings, dispatch_web_search,
}
use topicstreams.Base.{
  ℕ, zero, suc, ◌+◌, ◌-◌, ◌*◌, ◌/◌, ◌%◌, ◌^◌, ◌≤◌, ◌<◌, min, max, String, ◌≡◌, refl, sym, ap, ap₂,
  subst, ◌∙◌, ◌≢◌, ◌↔◌, ◌⊎◌, inl, inr, Bool, true, false, not, ◌&&◌, ◌||◌, Option, none, some, List,
  [], ◌∷◌, ◌++◌, map, reverse, arith, eq_iff, ltb, leb, ◌==◌, str_eq, if◌then◌else◌, ltb→lt, lt→ltb,
  leb→le, le→leb, ==_iff, tests, Bool-cases, Option-cases, length, take, any, all, cons_if, filter,
  is_empty, All, length-append, length-take, length-filter-le, length-cons_if-le, any-append,
  filter-append, length-map, member, add, discard, str_eq_self, member-add, member-discard,
  member-filter, get, put, keys, values, get-put, get-put_self, get-put_ne, get_elem?,
  get_elem?-middle, get_elem?_total, append_assoc, append-nil, stretch, stretch-ge, stretch_mono,
  All-filter, All-map, All-imp, drop, DistinctKeys, get_absent, member-put, put-DistinctKeys,
}

-- `_ERROR_STATUS.get(status)`
unfoldable pub error_status : SearchStatus → Option ℕ
error_status busy = some 429
error_status unavailable = some 503
error_status timeout = some 504
error_status blocked = some 502
error_status error = some 502
error_status cooling = some 502
error_status ok = none
error_status empty = none

abbrev pub retry_after_seconds : ℕ
retry_after_seconds = 5

-- A response with status 200, or an `HTTPException`: its status, its `Retry-After` and, after a
-- dispatch, the search that it reports.
pub data Response : Type 0 where
  found : WebSearchResult → Response
  http_error : ℕ → Option ℕ → Option WebSearchResult → Response

unfoldable pub retry_after : SearchStatus → Option ℕ
retry_after busy = some retry_after_seconds
retry_after _ = none

unfoldable pub respond : WebSearchResult → Option ℕ → Response
respond r none = found r
respond r (some code) = http_error code (retry_after r.status) (some r)

-- `web_search`, with the dispatch of a search on the table that the workers share.
unfoldable pub web_search :
    (ℕ → Table → Table)
    → Settings
    → Bool
    → String
    → String
    → ℕ
    → EngineTable
    → Table
    → Response × Table
web_search others settings enabled q vertical now cooldowns t =
    if not (str_eq vertical "web")
    then (http_error 400 none none, t)
    else if not enabled
    then (http_error 503 none none, t)
    else (let searched = dispatch_web_search others settings q now cooldowns t in
        (respond searched.0 (error_status searched.0.status), searched.1))

-- The status is one of a search that ran.
abbrev pub ran : SearchStatus → Bool
ran ok = true
ran empty = true
ran _ = false

-- How a response to a search reports it: with 200 if it ran, else with a code of at least 429, and
-- with a `Retry-After` exactly when the engines were at capacity.
abbrev pub Reported : WebSearchResult → Response → Type 0
Reported r (found r') = (ran r.status ≡ true) × (r' ≡ r)
Reported r (http_error code retry none) = ⊥
Reported r (http_error code retry (some r')) =
    (ran r.status ≡ false)
    × (429 ≤ code)
    × (code ≤ 504)
    × (r' ≡ r)
    × ((retry ≢ none) ↔ (r.status ≡ busy))

-- `Retry-After` is sent exactly for `busy`.
retry_after_iff : (s : SearchStatus) → (retry_after s ≢ none) ↔ (s ≡ busy)
unfolding retry_after
retry_after_iff busy = (λ _. refl, λ _ e. absurd (cc e))
retry_after_iff ok = (λ h. absurd (h refl), λ e. absurd (cc e))
retry_after_iff empty = (λ h. absurd (h refl), λ e. absurd (cc e))
retry_after_iff blocked = (λ h. absurd (h refl), λ e. absurd (cc e))
retry_after_iff error = (λ h. absurd (h refl), λ e. absurd (cc e))
retry_after_iff cooling = (λ h. absurd (h refl), λ e. absurd (cc e))
retry_after_iff timeout = (λ h. absurd (h refl), λ e. absurd (cc e))
retry_after_iff unavailable = (λ h. absurd (h refl), λ e. absurd (cc e))

-- A search that ran is answered with 200 and its result; any other with a code from 429 to 504 that
-- carries the result, and with a `Retry-After` exactly when its status is `busy`.
respond-Reported : (r : WebSearchResult) → Reported r (respond r (error_status r.status))
unfolding respond error_status
respond-Reported r = go r.status refl
  where
    go : (s : SearchStatus) → s ≡ r.status → Reported r (respond r (error_status s))
    go ok e = (ap ran (sym e), refl)
    go empty e = (ap ran (sym e), refl)
    go busy e = (ap ran (sym e), omega arith, omega arith, refl, retry_after_iff r.status)
    go unavailable e = (ap ran (sym e), omega arith, omega arith, refl, retry_after_iff r.status)
    go timeout e = (ap ran (sym e), omega arith, omega arith, refl, retry_after_iff r.status)
    go blocked e = (ap ran (sym e), omega arith, omega arith, refl, retry_after_iff r.status)
    go error e = (ap ran (sym e), omega arith, omega arith, refl, retry_after_iff r.status)
    go cooling e = (ap ran (sym e), omega arith, omega arith, refl, retry_after_iff r.status)
