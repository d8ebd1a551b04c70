-- ===== src/Sources/Hosts.antt =====
-- Which pages of scraper/sources pass for the results of an engine.
use topicstreams.Text.{codes, lower, contains, is_prefix_of, is_prefix_of-append, prefix_rest}
use topicstreams.Sources.{
  Engine, google, bing, yahoo, brave, results_host, results_path_prefix, same_codes, ends_with,
  under_host, BlockReason, sorry_page, redirected_off_results, first_keyword, CaptchaConfig,
  detect_block, or_reason, blocked_reason,
}
use topicstreams.Base.{
  ℕ, String, ◌≡◌, refl, sym, ap, ap₂, subst, ◌↔◌, ◌⊎◌, inl, inr, Bool, true, false, not, Option,
  none, some, List, [], ◌∷◌, ◌++◌, arith, ◌==◌, if◌then◌else◌, ==_iff, Bool-cases, All,
}

same_codes_iff : (s t : List ℕ) → (same_codes s t ≡ true) ↔ (s ≡ t)
unfolding same_codes
same_codes_iff [] [] = (λ h. refl, λ h. refl)
same_codes_iff [] (d ∷ t) = (λ h. absurd (cc), λ h. absurd (cc))
same_codes_iff (c ∷ s) [] = (λ h. absurd (cc), λ h. absurd (cc))
same_codes_iff (c ∷ s) (d ∷ t) = (
  λ h. ap₂ ◌∷◌ ((==_iff c d).0 (ground (arith, h))) ((same_codes_iff s t).0 (ground (arith, h))),
  λ h.
      let first : c ≡ d = cc in
      let others : s ≡ t = cc in
      let same : (c == d) ≡ true = (==_iff c d).1 first in rw same ((same_codes_iff s t).1 others),
)

ends_with_elim : (p s : List ℕ) → ends_with p s ≡ true → (before : List ℕ) × (s ≡ before ++ p)
unfolding ends_with
ends_with_elim p [] h = ([], sym ((same_codes_iff p []).0 h))
ends_with_elim p (c ∷ s) h = elim (Bool-cases (same_codes p (c ∷ s))) [
  | inl here ↦ ([], sym ((same_codes_iff p (c ∷ s)).0 here))
  | inr further ↦
      let (before, e) = ends_with_elim p s (ground (arith, h, further)) in
      (c ∷ before, ap (◌∷◌ c) e)
]

ends_with_intro : (before p : List ℕ) → ends_with p (before ++ p) ≡ true
unfolding ends_with
ends_with_intro [] [] = (same_codes_iff [] []).1 refl
ends_with_intro [] (c ∷ p) = let same = (same_codes_iff (c ∷ p) (c ∷ p)).1 refl in rw same refl
ends_with_intro (c ∷ before) p = ground (arith, ends_with_intro before p)

-- The host itself or a name under it.
abbrev pub Under : List ℕ → List ℕ → Type 0
Under d host = host ≡ d ⊎ ((below : List ℕ) × (host ≡ below ++ b'.' ∷ d))

under_host_iff : (d host : List ℕ) → (under_host d host ≡ true) ↔ Under d host
unfolding under_host
under_host_iff d host = (
  λ h. elim (Bool-cases (same_codes host d)) [
    | inl same ↦ inl ((same_codes_iff host d).0 same)
    | inr other ↦ inr (ends_with_elim (b'.' ∷ d) host (ground (arith, h, other)))
  ],
  λ h. elim h [
    | inl same ↦ let found = (same_codes_iff host d).1 same in rw found refl
    | inr (below, e) ↦
        let found : ends_with (b'.' ∷ d) host ≡ true =
          subst (λ t. ends_with (b'.' ∷ d) t ≡ true) (sym e) (ends_with_intro below (b'.' ∷ d)) in
        ground (arith, found)
  ],
)

prefix_iff : (p s : List ℕ) → (is_prefix_of p s ≡ true) ↔ ((after : List ℕ) × (s ≡ p ++ after))
prefix_iff p s = (
  prefix_rest p s,
  λ x. subst (λ t. is_prefix_of p t ≡ true) (sym x.1) (is_prefix_of-append p x.0),
)

abbrev pub OnResults : Engine → List ℕ → List ℕ → Type 0
OnResults e netloc path =
    Under (codes (results_host e)) (lower netloc)
    × ((after : List ℕ) × (path ≡ codes (results_path_prefix e) ++ after))

redirected_off_results_iff :
    (e : Engine) (netloc path : List ℕ)
    → (redirected_off_results e netloc path ≡ none) ↔ OnResults e netloc path
unfolding redirected_off_results
redirected_off_results_iff e netloc path = (
  λ h. (
    (under_host_iff (codes (results_host e)) (lower netloc)).0 (ground (arith, h)),
    (prefix_iff (codes (results_path_prefix e)) path).0 (ground (arith, h)),
  ),
  λ x.
      let host = (under_host_iff (codes (results_host e)) (lower netloc)).1 x.0 in
      let start = (prefix_iff (codes (results_path_prefix e)) path).1 x.1 in rw host rw start refl,
)

first_keyword_iff :
    (keywords : List String) (html : List ℕ)
    → (first_keyword keywords html ≡ none)
      ↔ All (λ k. contains (lower (codes k)) html ≡ false) keywords
unfolding first_keyword
first_keyword_iff [] html = (λ h. tt, λ h. refl)
first_keyword_iff (k ∷ ks) html = elim (Bool-cases (contains (lower (codes k)) html)) [
  | inl found ↦ rw found (λ h. absurd (cc), λ h. absurd (cc))
  | inr clear ↦
      rw clear
        (λ h. (refl, (first_keyword_iff ks html).0 h), λ h. (first_keyword_iff ks html).1 h.1)
]

-- What `detect_block` of the engine looks for is not there.
abbrev pub Clear : CaptchaConfig → Engine → List ℕ → List ℕ → Type 0
Clear config google final_url html =
    config.captcha_detection_enabled ≡ false
    ⊎ ((contains (codes "/sorry/") final_url ≡ false)
        × All (λ k. contains (lower (codes k)) (lower html) ≡ false) config.captcha_keywords)
Clear config brave final_url html =
    (contains (codes "decided to schedule a captcha") (lower html) ≡ false)
    × (contains (codes "\"/captcha\"") (lower html) ≡ false)
Clear config bing final_url html = Unit
Clear config yahoo final_url html = Unit

sorry_iff :
    (enabled is_sorry : Bool) (found : Option BlockReason)
    → ((if not enabled then none else if is_sorry then some sorry_page else found) ≡ none)
      ↔ (enabled ≡ false ⊎ ((is_sorry ≡ false) × (found ≡ none)))
sorry_iff false is_sorry found = (λ h. inl refl, λ h. refl)
sorry_iff true true found =
    (λ h. absurd (cc), λ h. elim h [ inl e ↦ absurd (cc) | inr x ↦ absurd (cc) ])
sorry_iff true false found = (λ h. inr (refl, h), λ h. elim h [ inl e ↦ absurd (cc) | inr x ↦ x.1 ])

google_iff :
    (config : CaptchaConfig) (final_url html : List ℕ)
    → (detect_block config google final_url html ≡ none) ↔ Clear config google final_url html
unfolding detect_block
google_iff config final_url html =
    let words = first_keyword_iff config.captcha_keywords (lower html) in
    let (there, back) =
      sorry_iff config.captcha_detection_enabled (contains (codes "/sorry/") final_url)
        (first_keyword config.captcha_keywords (lower html)) in
    (
      λ h. elim (there h) [ inl off ↦ inl off | inr x ↦ inr (x.0, words.0 x.1) ],
      λ h. back (elim h [ inl off ↦ inl off | inr x ↦ inr (x.0, words.1 x.1) ]),
    )

or_reason_iff :
    (o later : Option BlockReason) → (or_reason o later ≡ none) ↔ ((o ≡ none) × (later ≡ none))
or_reason_iff none later = (λ h. (refl, h), λ x. x.1)
or_reason_iff (some reason) later = (λ h. absurd (cc), λ x. absurd (cc))

detect_block_iff :
    (config : CaptchaConfig) (e : Engine) (final_url html : List ℕ)
    → (detect_block config e final_url html ≡ none) ↔ Clear config e final_url html
unfolding detect_block
detect_block_iff config google final_url html = google_iff config final_url html
detect_block_iff config bing final_url html = (λ h. tt, λ h. refl)
detect_block_iff config yahoo final_url html = (λ h. tt, λ h. refl)
detect_block_iff config brave final_url html =
    (λ h. (ground (arith, h), ground (arith, h)), λ x. ground (arith, x.0, x.1))

-- A page passes exactly if the engine's own signals are absent and the page is on the engine's host, or
-- under it, with a path that starts as that of the results.
pub blocked_reason_iff :
    (config : CaptchaConfig) (e : Engine) (final_url netloc path html : List ℕ)
    → (blocked_reason config e final_url netloc path html ≡ none)
      ↔ (Clear config e final_url html × OnResults e netloc path)
unfolding blocked_reason
blocked_reason_iff config e final_url netloc path html =
    let both =
      or_reason_iff (detect_block config e final_url html) (redirected_off_results e netloc path) in
    let own = detect_block_iff config e final_url html in
    let landed = redirected_off_results_iff e netloc path in
    (λ h. let x = both.0 h in (own.0 x.0, landed.0 x.1), λ x. both.1 (own.1 x.0, landed.1 x.1))
