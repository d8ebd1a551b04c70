-- ===== src/RateLimit/Window.antt =====
-- The hits of an address in the window of `RateLimitMiddleware` of api/main.py.
use topicstreams.RateLimit.{is_recent, is_stale}
use topicstreams.Base.{
  ℕ, ◌≤◌, String, ◌≡◌, refl, ap, subst, ◌≢◌, inl, inr, Bool, true, false, List, [], ◌∷◌, ◌++◌,
  arith, str_eq, Bool-cases, cons_if, filter, All, All-filter,
}

-- The times of an address in a log of accepted requests.
abbrev pub times : String → List (String × ℕ) → List ℕ
times ip [] = []
times ip (e ∷ log) = cons_if (str_eq e.0 ip) e.1 (times ip log)

-- In order, and none after the time.
abbrev pub Ascending : List ℕ → Type 0
Ascending [] = Unit
Ascending (t ∷ ts) = All (λ u. t ≤ u) ts × Ascending ts

abbrev pub Hits : ℕ → List ℕ → Type 0
Hits until ts = Ascending ts × All (λ t. t ≤ until) ts

pub filter-Ascending : (p : ℕ → Bool) (ts : List ℕ) → Ascending ts → Ascending (filter p ts)
filter-Ascending p [] a = tt
filter-Ascending p (t ∷ ts) a = elim (Bool-cases (p t)) [
  | inl held ↦ rw held (All-filter (λ u. t ≤ u) p ts a.0, filter-Ascending p ts a.1)
  | inr missed ↦ rw missed (filter-Ascending p ts a.1)
]

pub All-snoc : (P : ℕ → Type 0) (ts : List ℕ) (u : ℕ) → All P ts → P u → All P (ts ++ u ∷ [])
All-snoc P [] u a p = (p, tt)
All-snoc P (t ∷ ts) u a p = (a.0, All-snoc P ts u a.1 p)

pub append-Ascending : (now : ℕ) (ts : List ℕ) → Hits now ts → Ascending (ts ++ now ∷ [])
append-Ascending now [] h = (tt, tt)
append-Ascending now (t ∷ ts) (a, b) =
    (All-snoc (λ u. t ≤ u) ts now a.0 b.0, append-Ascending now ts (a.1, b.1))

-- A hit that is recent later was recent before.
pub filter_later :
    (now later period : ℕ) (ts : List ℕ)
    → now ≤ later
    → filter (is_recent later period) (filter (is_recent now period) ts)
      ≡ filter (is_recent later period) ts
filter_later now later period [] le = refl
filter_later now later period (t ∷ ts) le = elim (Bool-cases (is_recent now period t)) [
  | inl held ↦
      rw held (ap (cons_if (is_recent later period t) t) (filter_later now later period ts le))
  | inr missed ↦
      let gone : is_recent later period t ≡ false = ground arith in
      rw (missed, gone) (filter_later now later period ts le)
]

cons_not_nil : (t : ℕ) (ts : List ℕ) → t ∷ ts ≢ []
cons_not_nil t ts e = cc (e)

none_recent :
    (now period u : ℕ) (ts : List ℕ)
    → filter (is_recent now period) (u ∷ ts) ≡ []
    → is_recent now period u ≡ false
none_recent now period u ts e = elim (Bool-cases (is_recent now period u)) [
  | inr missed ↦ missed
  | inl held ↦
      let ts' = filter (is_recent now period) ts in
      absurd (cons_not_nil u ts' (subst (λ b. cons_if b u ts' ≡ []) held e))
]

-- A list whose last hit is out of the window has no recent hit.
pub stale_none :
    (now later period : ℕ) (ts : List ℕ)
    → now ≤ later
    → Ascending ts
    → is_stale now period ts ≡ true
    → filter (is_recent later period) ts ≡ []
unfolding is_stale
stale_none now later period [] le a e = refl
stale_none now later period (t ∷ []) le a e =
    let gone : is_recent later period t ≡ false = ground arith in rw gone refl
stale_none now later period (t ∷ u ∷ ts) le a e =
    let rest = stale_none now later period (u ∷ ts) le a.1 e in
    let gone : is_recent later period u ≡ false = none_recent later period u ts rest in
    let gone' : is_recent later period t ≡ false = ground (arith, a.0.0) in rw gone' rest
