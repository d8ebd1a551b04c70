-- ===== src/Base/Jitter.antt =====
-- `interval * (1.0 + u)` for a jitter `u` in thousandths.
use Prim.Native.Nat.{ℕ, ◌+◌, ◌*◌, ◌/◌, ◌≤◌}
use native.Mathlib.Omega.{arith}

abbrev pub stretch : ℕ → ℕ → ℕ
stretch interval u = interval * (1000 + u) / 1000

pub stretch-ge : (interval u : ℕ) → interval ≤ stretch interval u
stretch-ge interval u = omega arith

product_mono : (i u v : ℕ) → u ≤ v → i * u ≤ i * v
product_mono i u v h = grind arith

pub stretch_mono : (interval u v : ℕ) → u ≤ v → stretch interval u ≤ stretch interval v
stretch_mono interval u v h = omega (arith, product_mono interval u v h)
