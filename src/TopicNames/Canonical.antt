-- ===== src/TopicNames/Canonical.antt =====
-- The form of a topic's name after `normalize_topic` of common/utils.py.
use topicstreams.Text.{lower, to_lower, to_lower_idem, is_space}
use topicstreams.TopicNames.{
  blank, is_hyphen, is_kept, clean, collapse_after, starts, lstrip_by, rstrip_by, tighten,
  normalize_topic,
}
use topicstreams.TopicNames.Edges.{
  no_pair, ends, lstrip_by-no_pair, starts-lstrip_by, ends-lstrip_by, starts-rstrip_by,
  ends-rstrip_by, rstrip_by-no_pair, lstrip_by-every, rstrip_by-every,
}
use topicstreams.Base.{
  ℕ, ◌≡◌, refl, inl, inr, Bool, true, false, not, ◌&&◌, ◌||◌, List, [], ◌∷◌, arith, ◌==◌,
  if◌then◌else◌, ==_iff, Bool-cases, all, is_empty,
}

abbrev pub is_double : ℕ → ℕ → Bool
is_double c d = is_space c && is_space d

-- A space beside a space or a hyphen.
abbrev pub is_loose : ℕ → ℕ → Bool
is_loose c d = (is_space c && (is_space d || is_hyphen d)) || (is_hyphen c && is_space d)

abbrev pub is_edge : ℕ → Bool
is_edge c = is_space c || is_hyphen c

-- The character is kept, in lower case, and a blank if it is a space.
abbrev pub is_lowered : (ℕ → Bool) → ℕ → Bool
is_lowered is_word c = is_kept is_word c && to_lower c == c

abbrev pub is_plain : (ℕ → Bool) → ℕ → Bool
is_plain is_word c = is_lowered is_word c && (not (is_space c) || c == blank)

pub record Canonical (is_word : ℕ → Bool) (s : List ℕ) : Type 0 where
  pub plain : all (is_plain is_word) s ≡ true
  pub apart : no_pair is_loose s ≡ true
  pub first : starts is_edge s ≡ false
  pub final : ends is_edge s ≡ false

blank-IsSpace : is_space blank ≡ true
unfolding is_space
blank-IsSpace = refl

pub hyphen_solid : (c : ℕ) → is_hyphen c ≡ true → is_space c ≡ false
unfolding is_space
hyphen_solid c h = rw ((==_iff c 45).0 h) refl

blank_lowered : (is_word : ℕ → Bool) → is_lowered is_word blank ≡ true
unfolding is_space to_lower
blank_lowered is_word = ground arith

cleaned-lowered :
    (is_word : ℕ → Bool) (c : ℕ)
    → is_lowered is_word (if is_kept is_word (to_lower c) then to_lower c else blank) ≡ true
cleaned-lowered is_word c = elim (Bool-cases (is_kept is_word (to_lower c))) [
  | inl kept ↦ rw kept rw kept rw (to_lower_idem c) ((==_iff (to_lower c) (to_lower c)).1 refl)
  | inr dropped ↦ rw dropped (blank_lowered is_word)
]

clean-lowered :
    (is_word : ℕ → Bool) (s : List ℕ) → all (is_lowered is_word) (clean is_word (lower s)) ≡ true
unfolding clean lower
clean-lowered is_word [] = refl
clean-lowered is_word (c ∷ s) = ground (arith, cleaned-lowered is_word c, clean-lowered is_word s)

collapse-plain :
    (is_word : ℕ → Bool) (spaced : Bool) (s : List ℕ)
    → all (is_lowered is_word) s ≡ true
    → all (is_plain is_word) (collapse_after spaced s) ≡ true
unfolding collapse_after
collapse-plain is_word spaced [] h = refl
collapse-plain is_word spaced (c ∷ s) h = ground (
  arith,
  h,
  blank_lowered is_word,
  (==_iff blank blank).1 refl,
  collapse-plain is_word true s,
  collapse-plain is_word false s,
)

collapse-single :
    (spaced : Bool) (s : List ℕ)
    → (no_pair is_double (collapse_after spaced s) ≡ true)
      × ((spaced && starts is_space (collapse_after spaced s)) ≡ false)
unfolding collapse_after
collapse-single spaced [] = (refl, ground arith)
collapse-single spaced (c ∷ s) =
    ground (arith, blank-IsSpace, collapse-single true s, collapse-single false s)

starts-tighten : (s : List ℕ) → starts is_space s ≡ false → starts is_space (tighten s) ≡ false
unfolding tighten
starts-tighten [] h = refl
starts-tighten (c ∷ s) h = ground (arith, h)

pub starts-loose :
    (c : ℕ) (s : List ℕ)
    → starts (is_loose c) s ≡ (
        (is_space c && (starts is_space s || starts is_hyphen s))
        || (is_hyphen c && starts is_space s))
starts-loose c [] = ground arith
starts-loose c (d ∷ s) = refl

starts-double : (c : ℕ) (s : List ℕ) → starts (is_double c) s ≡ (is_space c && starts is_space s)
starts-double c [] = ground arith
starts-double c (d ∷ s) = refl

tighten-apart : (s : List ℕ) → no_pair is_double s ≡ true → no_pair is_loose (tighten s) ≡ true
unfolding tighten
tighten-apart [] h = refl
tighten-apart (c ∷ s) h = elim (Bool-cases (is_hyphen c)) [
  | inl hyphen ↦ rw hyphen (
      ground (
        arith,
        starts-loose c (lstrip_by is_space (tighten s)),
        hyphen_solid c hyphen,
        starts-lstrip_by is_space (tighten s),
        lstrip_by-no_pair is_loose is_space (tighten s) (tighten-apart s (ground (arith, h))),
      ))
  | inr other ↦ rw other (
      ground (
        arith,
        h,
        starts-loose c (tighten s),
        other,
        starts-double c s,
        starts-tighten s,
        tighten-apart s,
      ))
]

tighten-plain : (p : ℕ → Bool) (s : List ℕ) → all p s ≡ true → all p (tighten s) ≡ true
unfolding tighten
tighten-plain p [] h = refl
tighten-plain p (c ∷ s) h =
    ground (arith, h, tighten-plain p s, lstrip_by-every is_space p (tighten s))

-- Spaces that are taken off the ends leave no hyphen there.
lstrip_by-solid :
    (s : List ℕ)
    → no_pair is_loose s ≡ true
    → starts is_hyphen s ≡ false
    → starts is_edge (lstrip_by is_space s) ≡ false
unfolding lstrip_by
lstrip_by-solid [] a h = refl
lstrip_by-solid (c ∷ s) a h = elim (Bool-cases (is_space c)) [
  | inl space ↦
      rw space (lstrip_by-solid s (ground (arith, a)) (ground (arith, a, space, starts-loose c s)))
  | inr solid ↦ rw solid (ground (arith, solid, h))
]

rstrip_by-spaces :
    (c : ℕ) (s : List ℕ) → is_empty (rstrip_by is_space (c ∷ s)) ≡ true → is_space c ≡ true
unfolding rstrip_by
rstrip_by-spaces c s h = ground (arith, h)

solid_before :
    (c : ℕ) (rest : List ℕ)
    → ends is_edge rest ≡ false
    → (is_empty rest ≡ true → is_edge c ≡ false)
    → ends is_edge (if is_empty rest && is_space c then [] else c ∷ rest) ≡ false
solid_before c [] h alone = ground (arith, alone refl)
solid_before c (d ∷ rest) h alone = h

rstrip_by-solid :
    (s : List ℕ)
    → no_pair is_loose s ≡ true
    → ends is_hyphen s ≡ false
    → ends is_edge (rstrip_by is_space s) ≡ false
unfolding rstrip_by
rstrip_by-solid [] a h = refl
rstrip_by-solid (c ∷ []) a h = ground (arith, h)
rstrip_by-solid (c ∷ d ∷ s) a h =
    solid_before c (rstrip_by is_space (d ∷ s)) (rstrip_by-solid (d ∷ s) (ground (arith, a)) h)
      (λ e. ground (arith, a, rstrip_by-spaces d s e))

pub normalize_topic-Canonical :
    (is_word : ℕ → Bool) (topic : List ℕ) → Canonical is_word (normalize_topic is_word topic)
unfolding normalize_topic
normalize_topic-Canonical is_word topic =
    let cleaned = clean is_word (lower topic) in
    let tight = tighten (collapse_after false cleaned) in
    let left = lstrip_by is_hyphen tight in
    let bare = rstrip_by is_hyphen left in
    let inner = lstrip_by is_space bare in
    let left_apart : no_pair is_loose left ≡ true =
      lstrip_by-no_pair is_loose is_hyphen tight
        (tighten-apart (collapse_after false cleaned) (collapse-single false cleaned).0) in
    let bare_apart : no_pair is_loose bare ≡ true =
      rstrip_by-no_pair is_loose is_hyphen left left_apart in
    let inner_apart : no_pair is_loose inner ≡ true =
      lstrip_by-no_pair is_loose is_space bare bare_apart in
    record {
      plain = rstrip_by-every is_space (is_plain is_word) inner (
          lstrip_by-every is_space (is_plain is_word) bare (
            rstrip_by-every is_hyphen (is_plain is_word) left (
              lstrip_by-every is_hyphen (is_plain is_word) tight (
                tighten-plain (is_plain is_word) (collapse_after false cleaned)
                  (collapse-plain is_word false cleaned (clean-lowered is_word topic))))));
      apart = rstrip_by-no_pair is_loose is_space inner inner_apart;
      first = starts-rstrip_by is_space is_edge inner (
          lstrip_by-solid bare bare_apart
            (starts-rstrip_by is_hyphen is_hyphen left (starts-lstrip_by is_hyphen tight)));
      final =
          rstrip_by-solid inner inner_apart
            (ends-lstrip_by is_space is_hyphen bare (ends-rstrip_by is_hyphen left));
    }
