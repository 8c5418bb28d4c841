-- ===== src/Base/Pow.antt =====
-- Powers of two.
use Prim.Native.Nat.{ℕ, zero, suc, ◌+◌, ◌*◌, ◌^◌, ◌≤◌}
use mathlib.Core.Path.{◌≡◌, ap}
use native.Mathlib.Nat.{pow-suc, pow-le-pow_right, add-suc, add-zero}
use native.Mathlib.Omega.{arith}

pub pow-add : (k j : ℕ) → 2 ^ (k + j) ≡ 2 ^ k * 2 ^ j
pow-add k zero = rw add-zero (omega arith)
pow-add k (suc j) = omega (
  arith,
  pow-add k j,
  ap (λ (t : ℕ). 2 ^ t) (add-suc k j),
  pow-suc 2 (k + j),
  pow-suc 2 j,
  ap (λ (t : ℕ). 2 ^ k * t) (pow-suc 2 j),
)

pub pow_mono : (k j : ℕ) → k ≤ j → 2 ^ k ≤ 2 ^ j
pow_mono k j h = pow-le-pow_right (omega arith) h
