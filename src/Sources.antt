-- ===== src/Sources.antt =====
-- scraper/sources: the registry of the engines, and how an engine tells a blocked page. Texts are lists of
-- code points. `urlsplit` is left to the caller, who gives the network location and the path.
pub mod Hosts
mod Tests
use topicstreams.Text.{codes, lower, contains, is_prefix_of, is_space}
use topicstreams.TopicNames.{blank, collapse, strip_by}
use topicstreams.Base.{
  ℕ, zero, suc, ◌+◌, ◌-◌, ◌*◌, ◌/◌, ◌%◌, ◌^◌, ◌≤◌, ◌<◌, min, max, String, ◌≡◌, refl, sym, ap, ap₂,
  subst, ◌∙◌, ◌≢◌, ◌↔◌, ◌⊎◌, inl, inr, Bool, true, false, not, ◌&&◌, ◌||◌, Option, none, some, List,
  [], ◌∷◌, ◌++◌, map, reverse, arith, eq_iff, ltb, leb, ◌==◌, str_eq, if◌then◌else◌, ltb→lt, lt→ltb,
  leb→le, le→leb, ==_iff, tests, Bool-cases, Option-cases, length, take, any, all, cons_if, filter,
  is_empty, All, length-append, length-take, length-filter-le, length-cons_if-le, any-append,
  filter-append, length-map, member, add, discard, str_eq_self, member-add, member-discard,
  member-filter, get, put, keys, values, get-put, get-put_self, get-put_ne, get_elem?,
  get_elem?-middle, get_elem?_total, append_assoc, append-nil, stretch, stretch-ge, stretch_mono,
  All-filter, All-map, All-imp, drop, DistinctKeys, get_absent, member-put, put-DistinctKeys,
  sort_desc, Descending, DistinctBy, filter-sort_desc, sort_desc-Descending, All-sort_desc,
  filter-Descending, below_middle, below_twice, last, last-append, take_full, All-middle, take_all,
  filter-All, filter_keeps, All-always, last-map, length-sort_desc, filter-DistinctBy, get_present,
  All-both, map-take, All-take,
}

pub data Engine : Type 0 where
  google bing yahoo brave : Engine

-- `_SOURCES` with `get_source`: none is the ValueError.
unfoldable pub get_source : String → Option Engine
get_source name =
    if str_eq name "google"
    then some google
    else if str_eq name "bing"
    then some bing
    else if str_eq name "yahoo"
    then some yahoo
    else if str_eq name "brave"
    then some brave
    else none

abbrev pub engine_name : Engine → String
engine_name google = "google"
engine_name bing = "bing"
engine_name yahoo = "yahoo"
engine_name brave = "brave"

abbrev pub results_host : Engine → String
results_host google = "google.com"
results_host bing = "bing.com"
results_host yahoo = "yahoo.com"
results_host brave = "brave.com"

abbrev pub results_path_prefix : Engine → String
results_path_prefix google = "/search"
results_path_prefix bing = "/"
results_path_prefix yahoo = "/search"
results_path_prefix brave = "/"

-- `==` on texts.
unfoldable pub same_codes : List ℕ → List ℕ → Bool
same_codes [] [] = true
same_codes [] (d ∷ t) = false
same_codes (c ∷ s) [] = false
same_codes (c ∷ s) (d ∷ t) = c == d && same_codes s t

-- `str.endswith`
unfoldable pub ends_with : List ℕ → List ℕ → Bool
ends_with p [] = same_codes p []
ends_with p (c ∷ s) = same_codes p (c ∷ s) || ends_with p s

-- `host == d or host.endswith("." + d)`
unfoldable pub under_host : List ℕ → List ℕ → Bool
under_host d host = same_codes host d || ends_with (b'.' ∷ d) host

unfoldable pub is_discussion : List String → List ℕ → Bool
is_discussion hosts host = any (λ d. under_host (codes d) host) hosts

abbrev pub discussion_hosts : List String
discussion_hosts =
    "reddit.com" ∷ "x.com" ∷ "twitter.com" ∷ "medium.com" ∷ "facebook.com" ∷ "tiktok.com"
    ∷ "threads.com" ∷ "threads.net" ∷ "instagram.com" ∷ "linkedin.com" ∷ "quora.com"
    ∷ "substack.com" ∷ "stackexchange.com" ∷ "stackoverflow.com" ∷ "ycombinator.com" ∷ []

abbrev pub without_www : List ℕ → List ℕ
without_www host = if is_prefix_of (codes "www.") host then drop 4 host else host

-- `domain_of`, from the network location of the URL.
unfoldable pub domain_of : List ℕ → List ℕ
domain_of netloc = without_www (lower netloc)

-- `format_query`
unfoldable pub format_query : List ℕ → List ℕ
format_query query = map (λ c. if c == blank then b'+' else c) (collapse (strip_by is_space query))

-- Why a page is taken for blocked, in place of the text that is made of it.
pub data BlockReason : Type 0 where
  sorry_page : BlockReason
  keyword_found : String → BlockReason
  captcha_interstitial : BlockReason
  redirected : List ℕ → List ℕ → BlockReason

unfoldable pub redirected_off_results : Engine → List ℕ → List ℕ → Option BlockReason
redirected_off_results e netloc path =
    let host = lower netloc in
    if under_host (codes (results_host e)) host && is_prefix_of (codes (results_path_prefix e)) path
    then none
    else some (redirected host path)

unfoldable pub first_keyword : List String → List ℕ → Option BlockReason
first_keyword [] html = none
first_keyword (keyword ∷ keywords) html =
    let later = first_keyword keywords html in
    if contains (lower (codes keyword)) html then some (keyword_found keyword) else later

-- The properties of `anti_detection_config` that the detection reads.
pub record CaptchaConfig : Type 0 where
  pub captcha_detection_enabled : Bool
  pub captcha_keywords : List String

unfoldable pub detect_block : CaptchaConfig → Engine → List ℕ → List ℕ → Option BlockReason
detect_block config google final_url html =
    if not config.captcha_detection_enabled
    then none
    else if contains (codes "/sorry/") final_url
    then some sorry_page
    else first_keyword config.captcha_keywords (lower html)
detect_block config bing final_url html = none
detect_block config yahoo final_url html = none
detect_block config brave final_url html =
    if contains (codes "decided to schedule a captcha") (lower html)
      || contains (codes "\"/captcha\"") (lower html)
    then some captcha_interstitial
    else none

-- `or` on reasons: no reason is an empty text.
abbrev pub or_reason : Option BlockReason → Option BlockReason → Option BlockReason
or_reason (some reason) later = some reason
or_reason none later = later

-- `source.detect_block(...) or source.redirected_off_results(...)`
unfoldable pub blocked_reason :
    CaptchaConfig → Engine → List ℕ → List ℕ → List ℕ → List ℕ → Option BlockReason
blocked_reason config e final_url netloc path html =
    or_reason (detect_block config e final_url html) (redirected_off_results e netloc path)
