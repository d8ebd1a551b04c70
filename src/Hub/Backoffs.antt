-- ===== src/Hub/Backoffs.antt =====
-- How long the listener of api/v1/websocket/manager.py waits for Postgres to come back.
use topicstreams.Cooldown.Backoff.{doubled}
use topicstreams.Hub.{then_slept, reconnect_from, reconnect_with_backoff}
use topicstreams.Base.{
  ℕ, zero, suc, ◌*◌, ◌^◌, ◌<◌, min, ◌≡◌, refl, ap, ◌∙◌, Bool, true, false, some, List, [], ◌∷◌,
  arith,
}

abbrev backoff : ℕ → ℕ
backoff n = min (1000 * 2 ^ n) 60000

backoff_next : (n : ℕ) → min (backoff n * 2) 60000 ≡ backoff (suc n)
backoff_next n = omega (arith, doubled 1000 n)

-- The first attempts fail and the one after them connects.
abbrev pub ConnectsAfter : (ℕ → Bool) → ℕ → ℕ → Type 0
ConnectsAfter connects first zero = connects first ≡ true
ConnectsAfter connects first (suc n) =
    (connects first ≡ false) × ConnectsAfter connects (suc first) n

-- The waits of a number of failures from one on.
abbrev pub waits : ℕ → ℕ → List ℕ
waits first zero = []
waits first (suc n) = min (1000 * 2 ^ first) 60000 ∷ waits (suc first) n

reconnect_from-Connects :
    (connects : ℕ → Bool) (fuel n first : ℕ)
    → n < fuel
    → ConnectsAfter connects first n
    → reconnect_from connects first (backoff first) fuel ≡ some (waits first n)
unfolding reconnect_from
reconnect_from-Connects connects zero n first h c = absurd (omega arith)
reconnect_from-Connects connects (suc fuel) zero first h c = rw c refl
reconnect_from-Connects connects (suc fuel) (suc n) first h c =
    let next : reconnect_from connects (suc first) (min (backoff first * 2) 60000) fuel
        ≡ some (waits (suc first) n) =
      ap (λ d. reconnect_from connects (suc first) d fuel) (backoff_next first)
      ∙ reconnect_from-Connects connects fuel n (suc first) (omega arith) c.1 in
    rw (c.0) (ap (then_slept (backoff first)) next)

-- When the first `n` attempts fail and the next one finds Postgres back, also when that is the very first,
-- the loop connects at it: it has slept exactly once after each failure, a second first and then twice as
-- long each time, up to a minute.
pub reconnect_with_backoff-Connects :
    (connects : ℕ → Bool) (fuel n : ℕ)
    → n < fuel
    → ConnectsAfter connects 0 n
    → reconnect_with_backoff connects fuel ≡ some (waits 0 n)
unfolding reconnect_with_backoff
reconnect_with_backoff-Connects connects fuel n h c = reconnect_from-Connects connects fuel n 0 h c
