-- ===== src/Text.antt =====
-- Texts as the lists of their code points, for the places where the program looks into a text.
use Prim.Native.Char.{code, Char}
use Prim.Native.String.append
use Prim.Native.String.{◌++◌ as text_append}
use topicstreams.Base.{
  ℕ, ◌+◌, String, ◌≡◌, refl, sym, ap, ap₂, ◌∙◌, inl, inr, Bool, true, false, ◌&&◌, ◌||◌, List, [],
  ◌∷◌, ◌++◌, map, arith, leb, ◌==◌, if◌then◌else◌, Bool-cases,
}

abbrev pub codes : String → List ℕ
codes String.[] = []
codes (String.◌∷◌ c s) = code c ∷ codes s

-- `str.lower` on one character. Letters outside ASCII stay as they are.
unfoldable pub to_lower : ℕ → ℕ
to_lower c = if leb b'A' c && leb c b'Z' then c + 32 else c

unfoldable pub lower : List ℕ → List ℕ
unfolding to_lower
lower = map to_lower

unfoldable pub is_prefix_of : List ℕ → List ℕ → Bool
is_prefix_of [] s = true
is_prefix_of (p ∷ ps) [] = false
is_prefix_of (p ∷ ps) (c ∷ s) = p == c && is_prefix_of ps s

-- `p in s`
unfoldable pub contains : List ℕ → List ℕ → Bool
unfolding is_prefix_of
contains p [] = is_prefix_of p []
contains p (c ∷ s) = is_prefix_of p (c ∷ s) || contains p s

pub is_prefix_of-append : (p after : List ℕ) → is_prefix_of p (p ++ after) ≡ true
unfolding is_prefix_of
is_prefix_of-append [] after = refl
is_prefix_of-append (c ∷ p) after = ground (arith, is_prefix_of-append p after)

pub prefix_rest : (p s : List ℕ) → is_prefix_of p s ≡ true → (after : List ℕ) × (s ≡ p ++ after)
unfolding is_prefix_of
prefix_rest [] s h = (s, refl)
prefix_rest (c ∷ p) [] h = cc
prefix_rest (c ∷ p) (d ∷ s) h =
    let (after, e) = prefix_rest p s (ground arith) in
    let same : c ≡ d = ground arith in (after, ap₂ ◌∷◌ (sym same) e)

pub contains_intro : (before p after : List ℕ) → contains p (before ++ p ++ after) ≡ true
unfolding contains is_prefix_of
contains_intro [] [] [] = refl
contains_intro [] [] (c ∷ after) = refl
contains_intro [] (c ∷ p) after = ground (arith, is_prefix_of-append (c ∷ p) after)
contains_intro (b ∷ before) p after = ground (arith, contains_intro before p after)

pub contains_elim :
    (p s : List ℕ)
    → contains p s ≡ true
    → (before : List ℕ) × (after : List ℕ) × (s ≡ before ++ p ++ after)
unfolding contains
contains_elim p [] h = let (after, e) = prefix_rest p [] h in ([], after, e)
contains_elim p (c ∷ s) h = elim (Bool-cases (is_prefix_of p (c ∷ s))) [
  | inl here ↦ let (after, e) = prefix_rest p (c ∷ s) here in ([], after, e)
  | inr further ↦
      let (before, after, e) = contains_elim p s (ground arith) in (c ∷ before, after, ap (◌∷◌ c) e)
]

pub to_lower_idem : (c : ℕ) → to_lower (to_lower c) ≡ to_lower c
unfolding to_lower
to_lower_idem c = ground arith

pub lower-append : (s t : List ℕ) → lower (s ++ t) ≡ lower s ++ lower t
unfolding lower
lower-append [] t = refl
lower-append (c ∷ s) t = ap (◌∷◌ (to_lower c)) (lower-append s t)

-- `str.isspace` on one character.
unfoldable pub is_space : ℕ → Bool
is_space c =
    (leb 9 c && leb c 13)
    || (leb 28 c && leb c 32)
    || c == 0x85
    || c == 0xa0
    || c == 0x1680
    || (leb 0x2000 c && leb c 0x200a)
    || c == 0x2028
    || c == 0x2029
    || c == 0x202f
    || c == 0x205f
    || c == 0x3000

unfoldable pub lstrip : String → String
unfolding is_space
lstrip String.[] = String.[]
lstrip (String.◌∷◌ c s) = let rest = lstrip s in if is_space (code c) then rest else String.◌∷◌ c s

abbrev pub rstrip_cons : Char → String → String
rstrip_cons c String.[] = if is_space (code c) then String.[] else String.◌∷◌ c String.[]
rstrip_cons c (String.◌∷◌ d s) = String.◌∷◌ c (String.◌∷◌ d s)

unfoldable pub rstrip : String → String
unfolding is_space
rstrip String.[] = String.[]
rstrip (String.◌∷◌ c s) = rstrip_cons c (rstrip s)

-- `str.strip`
unfoldable pub strip : String → String
unfolding lstrip rstrip
strip s = rstrip (lstrip s)

pub codes-append : (s t : String) → codes (text_append s t) ≡ codes s ++ codes t
codes-append String.[] t = ap codes (append.nil t)
codes-append (String.◌∷◌ c s) t =
    ap codes (append.cons c s t) ∙ ap (λ v. code c ∷ v) (codes-append s t)
