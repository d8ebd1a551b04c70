-- ===== src/TopicNames/Stable.antt =====
-- The names that `normalize_topic` of common/utils.py leaves as they are.
use topicstreams.Text.{lower, to_lower, is_space}
use topicstreams.TopicNames.{
  blank, is_hyphen, is_kept, clean, collapse_after, starts, rstrip_by, tighten, strip_by,
  normalize_topic,
}
use topicstreams.TopicNames.Edges.{no_pair, ends, lstrip_by-stripped, rstrip_by-stripped}
use topicstreams.TopicNames.Canonical.{
  is_loose, is_edge, is_plain, Canonical, hyphen_solid, starts-loose, normalize_topic-Canonical,
}
use topicstreams.Base.{
  ℕ, ◌≡◌, refl, sym, ap, ap₂, subst, ◌∙◌, ◌↔◌, inl, inr, Bool, true, false, ◌&&◌, List, [], ◌∷◌,
  arith, ==_iff, Bool-cases, all,
}

lower-plain :
    (is_word : ℕ → Bool) (s : List ℕ)
    → all (is_plain is_word) s ≡ true
    → clean is_word (lower s) ≡ s
unfolding clean lower
lower-plain is_word [] h = refl
lower-plain is_word (c ∷ s) h =
    let same : to_lower c ≡ c = (==_iff (to_lower c) c).0 (ground (arith, h)) in
    let kept : is_kept is_word c ≡ true = ground (arith, h) in
    rw same rw kept rw (lower-plain is_word s (ground (arith, h))) refl

collapse-Canonical :
    (is_word : ℕ → Bool) (spaced : Bool) (s : List ℕ)
    → all (is_plain is_word) s ≡ true
    → no_pair is_loose s ≡ true
    → (spaced && starts is_space s) ≡ false
    → collapse_after spaced s ≡ s
unfolding collapse_after
collapse-Canonical is_word spaced [] p a h = refl
collapse-Canonical is_word spaced (c ∷ s) p a h = elim (Bool-cases (is_space c)) [
  | inl space ↦
      let single : spaced ≡ false = ground (arith, h, space) in
      let is_blank : c ≡ blank = (==_iff c blank).0 (ground (arith, p, space)) in
      rw space rw single (
        ap₂ ◌∷◌ (sym is_blank) (
          collapse-Canonical is_word true s (ground (arith, p)) (ground (arith, a))
            (ground (arith, a, space, starts-loose c s))))
  | inr solid ↦
      rw solid (
        ap (◌∷◌ c)
          (collapse-Canonical is_word false s (ground (arith, p)) (ground (arith, a)) refl))
]

tighten_tight : (s : List ℕ) → no_pair is_loose s ≡ true → tighten s ≡ s
unfolding tighten
tighten_tight [] a = refl
tighten_tight (c ∷ s) a = elim (Bool-cases (is_hyphen c)) [
  | inl hyphen ↦ rw hyphen rw (tighten_tight s (ground (arith, a))) (
      ap (◌∷◌ c) (
        lstrip_by-stripped is_space s
          (ground (arith, a, hyphen, hyphen_solid c hyphen, starts-loose c s))))
  | inr other ↦
      let none_next : (is_space c && starts is_hyphen s) ≡ false =
        ground (arith, a, other, starts-loose c s) in
      rw other rw (tighten_tight s (ground (arith, a))) rw none_next refl
]

solid_ends :
    (s : List ℕ) → ends is_edge s ≡ false → (ends is_space s ≡ false) × (ends is_hyphen s ≡ false)
solid_ends [] h = (refl, refl)
solid_ends (c ∷ []) h = (ground (arith, h), ground (arith, h))
solid_ends (c ∷ d ∷ s) h = solid_ends (d ∷ s) h

solid_starts :
    (s : List ℕ)
    → starts is_edge s ≡ false
    → (starts is_space s ≡ false) × (starts is_hyphen s ≡ false)
solid_starts [] h = (refl, refl)
solid_starts (c ∷ s) h = (ground (arith, h), ground (arith, h))

strip_by_stripped :
    (p : ℕ → Bool) (s : List ℕ) → starts p s ≡ false → ends p s ≡ false → strip_by p s ≡ s
strip_by_stripped p s f e = ap (rstrip_by p) (lstrip_by-stripped p s f) ∙ rstrip_by-stripped p s e

normalized_already :
    (is_word : ℕ → Bool) (s : List ℕ) → Canonical is_word s → normalize_topic is_word s ≡ s
unfolding normalize_topic
normalized_already is_word s k =
    ap (λ x. strip_by is_space (strip_by is_hyphen (tighten (collapse_after false x))))
      (lower-plain is_word s k.plain)
    ∙ ap (λ x. strip_by is_space (strip_by is_hyphen (tighten x)))
        (collapse-Canonical is_word false s k.plain k.apart refl)
    ∙ ap (λ x. strip_by is_space (strip_by is_hyphen x)) (tighten_tight s k.apart)
    ∙ ap (strip_by is_space)
        (strip_by_stripped is_hyphen s (solid_starts s k.first).1 (solid_ends s k.final).1)
    ∙ strip_by_stripped is_space s (solid_starts s k.first).0 (solid_ends s k.final).0

-- The names that `normalize_topic` leaves as they are are exactly the canonical ones: in lower case and
-- made of characters that are kept, each space a single blank, no space beside a hyphen, and neither a
-- space nor a hyphen at an end. Every result is such a name, so a second normalization changes nothing.
pub normalize_topic-normalize_topic :
    (is_word : ℕ → Bool) (topic : List ℕ)
    → Canonical is_word (normalize_topic is_word topic)
      × (normalize_topic is_word (normalize_topic is_word topic) ≡ normalize_topic is_word topic)
      × (Canonical is_word topic ↔ (normalize_topic is_word topic ≡ topic))
normalize_topic-normalize_topic is_word topic =
    let result = normalize_topic-Canonical is_word topic in
    (
      result,
      normalized_already is_word (normalize_topic is_word topic) result,
      (normalized_already is_word topic, λ same. subst (Canonical is_word) same result),
    )
