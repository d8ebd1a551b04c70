-- ===== src/Sources/Tests.antt =====
-- Pages of scraper/sources, blocked and not.
use topicstreams.Text.{codes, lower, to_lower, is_prefix_of}
use topicstreams.Sources.{
  Engine, google, bing, yahoo, brave, get_source, engine_name, same_codes, ends_with, under_host,
  is_discussion, discussion_hosts, domain_of, CaptchaConfig, blocked_reason,
}
use topicstreams.Sources.Hosts.{Clear, OnResults, blocked_reason_iff}
use topicstreams.Base.{◌≡◌, refl, ◌↔◌, true, false, none, some, [], ◌∷◌}

source_by_name : (e : Engine) → get_source (engine_name e) ≡ some e
unfolding get_source
source_by_name google = refl
source_by_name bing = refl
source_by_name yahoo = refl
source_by_name brave = refl

discussion_found : is_discussion discussion_hosts (domain_of (codes "www.Old.Reddit.com")) ≡ true
unfolding is_discussion domain_of lower to_lower is_prefix_of under_host same_codes ends_with
discussion_found = refl

look_alike : is_discussion discussion_hosts (codes "notreddit.com") ≡ false
unfolding is_discussion under_host same_codes ends_with
look_alike = refl

abbrev defaults : CaptchaConfig
defaults = record { captcha_detection_enabled = true; captcha_keywords = "unusual traffic" ∷ [] }

blocked_reason_iff_example :
    (blocked_reason defaults google
        (codes "https://www.google.com/search?q=x")
        (codes "www.google.com")
        (codes "/search")
        (codes "<p>News</p>")
      ≡ none)
    ↔ (Clear defaults google (codes "https://www.google.com/search?q=x") (codes "<p>News</p>")
        × OnResults google (codes "www.google.com") (codes "/search"))
blocked_reason_iff_example =
    blocked_reason_iff defaults google (codes "https://www.google.com/search?q=x")
      (codes "www.google.com") (codes "/search") (codes "<p>News</p>")
