-- ===== src/Cooldown/Backoff.antt =====
-- The window of scraper/cooldown.py: exponential from the base, and capped.
use native.Mathlib.Nat.{pow-suc}
use topicstreams.Cooldown.{Tracker, window_for}
use topicstreams.Base.{
  Bool-cases, inl, inr, leb, leb→le, zero, ℕ, zero, suc, ◌-◌, ◌*◌, ◌^◌, ◌≤◌, min, ◌≡◌, inl, inr,
  arith, leb, leb→le, Bool-cases,
}

pub doubled : (b n : ℕ) → b * 2 ^ suc n ≡ 2 * (b * 2 ^ n)
doubled b n = rw (pow-suc) (omega arith)

scaled_mono : (b m n : ℕ) → m ≤ n → b * 2 ^ m ≤ b * 2 ^ n
scaled_mono b m zero h = let e : m ≡ 0 = omega arith in rw e (omega arith)
scaled_mono b m (suc n) h = elim (Bool-cases (leb m n)) [
  | inl le ↦ omega (arith, doubled b n, scaled_mono b m n (leb→le m n le))
  | inr gt ↦ let e : m ≡ suc n = ground arith in rw e (omega arith)
]

window_for-first : (c : Tracker) → window_for c 1 ≡ min c.max_seconds c.base_seconds
unfolding window_for
window_for-first c = omega arith

window_for-double :
    (c : Tracker) (n : ℕ)
    → window_for c (suc (suc n)) ≡ min c.max_seconds (2 * window_for c (suc n))
unfolding window_for
window_for-double c n =
    let e : suc (suc n) - 1 ≡ suc n = omega arith in
    let f : suc n - 1 ≡ n = omega arith in rw (e, f) (omega (arith, doubled c.base_seconds n))

window_for_mono :
    (c : Tracker) (m n : ℕ)
    → m ≤ n
    → (window_for c m ≤ window_for c n) × (window_for c n ≤ c.max_seconds)
unfolding window_for
window_for_mono c m n h =
    (omega (arith, scaled_mono c.base_seconds (m - 1) (n - 1) (omega arith)), omega arith)

-- The first window is the base, and each further failure doubles it, up to the cap; it never shrinks
-- as failures add up, and never passes the cap.
window_for_lem :
    (c : Tracker) (m n : ℕ)
    → m ≤ n
    → (window_for c 1 ≡ min c.max_seconds c.base_seconds)
      × (window_for c (suc (suc n)) ≡ min c.max_seconds (2 * window_for c (suc n)))
      × (window_for c m ≤ window_for c n)
      × (window_for c n ≤ c.max_seconds)
window_for_lem c m n le =
    let (grows, capped) = window_for_mono c m n le in
    (window_for-first c, window_for-double c n, grows, capped)
