-- ===== src/Base/Bits.antt =====
-- `&` on native numbers: the law of the lowest digit, the complement within a width and low masks.
use Prim.Native.Nat.{ℕ, zero, suc, ◌+◌, ◌-◌, ◌*◌, ◌/◌, ◌%◌, ◌^◌, ◌≤◌, ◌<◌, min, bit_and}
use Prim.Native.Nat.{digits, bit_and-bitwise}
use mathlib.Core.Path.{◌≡◌, refl}
use mathlib.Core.Path.{ap}
use mathlib.Core.WellFounded
use libdane.Base.Order.{lt_wf}
use native.Mathlib.Nat.{pow-suc, one-le-pow}
use native.Mathlib.Omega.{arith}

abbrev shared_digits : ℕ → ℕ → ℕ → ℕ
shared_digits = digits (λ y. zero) min

-- Any number of digits from the first operand on is enough.
shared_digits-bit_and : (x fuel y : ℕ) → x ≤ fuel → shared_digits fuel x y ≡ bit_and x y
shared_digits-bit_and x = WellFounded.induction lt_wf {C = Enough} x halve
  where
    Enough : ℕ → Type 0
    Enough k = (fuel y : ℕ) → k ≤ fuel → shared_digits fuel k y ≡ bit_and k y

    halve : (k : ℕ) → ((m : ℕ) → m < k → Enough m) → Enough k
    halve zero ih zero y le = omega (arith, bit_and-bitwise zero y)
    halve zero ih (suc fuel) y le = omega (arith, bit_and-bitwise zero y)
    halve (suc k) ih zero y le = absurd (omega arith)
    halve (suc k) ih (suc fuel) y le = omega (
      arith,
      ih (suc k / 2) (omega arith) fuel (y / 2) (omega arith),
      ih (suc k / 2) (omega arith) k (y / 2) (omega arith),
      bit_and-bitwise (suc k) y,
    )

pub bit_and_step : (x y : ℕ) → bit_and x y ≡ bit_and (x / 2) (y / 2) * 2 + min (x % 2) (y % 2)
bit_and_step zero y = omega (arith, bit_and-bitwise zero y, bit_and-bitwise zero (y / 2))
bit_and_step (suc x) y =
    omega
      (arith, shared_digits-bit_and (suc x / 2) x (y / 2) (omega arith), bit_and-bitwise (suc x) y)

-- Within `w` bits a number is the sum of its parts under a mask and under the mask's complement.
pub bit_and_split :
    (w x m : ℕ) → x < 2 ^ w → m < 2 ^ w → bit_and x (2 ^ w - 1 - m) + bit_and x m ≡ x
bit_and_split zero zero zero p q = refl
bit_and_split zero zero (suc m) p q = absurd (omega arith)
bit_and_split zero (suc x) m p q = absurd (omega arith)
bit_and_split (suc w) x m p q = omega (
  arith,
  bit_and_step x m,
  bit_and_step x (2 ^ suc w - 1 - m),
  pow-suc 2 w,
  half,
  bit_and_split w (x / 2) (m / 2) (omega (arith, pow-suc 2 w)) (omega (arith, pow-suc 2 w)),
)
  where
    halved : (2 ^ suc w - 1 - m) / 2 ≡ 2 ^ w - 1 - m / 2
    halved = omega (arith, pow-suc 2 w)

    half : bit_and (x / 2) ((2 ^ suc w - 1 - m) / 2) ≡ bit_and (x / 2) (2 ^ w - 1 - m / 2)
    half = rw halved

pub bit_and-zero : (x : ℕ) → bit_and x 0 ≡ 0
bit_and-zero x = WellFounded.induction lt_wf {C = λ k. bit_and k 0 ≡ 0} x halve
  where
    halve : (k : ℕ) → ((m : ℕ) → m < k → bit_and m 0 ≡ 0) → bit_and k 0 ≡ 0
    halve zero ih = refl
    halve (suc k) ih = omega (arith, bit_and_step (suc k) 0, ih (suc k / 2) (omega arith))

pub bit_and-le_right : (w x m : ℕ) → m < 2 ^ w → bit_and x m ≤ m
bit_and-le_right zero x zero q = rw bit_and-zero (omega arith)
bit_and-le_right zero x (suc m) q = absurd (omega arith)
bit_and-le_right (suc w) x m q = omega (
  arith,
  bit_and_step x m,
  pow-suc 2 w,
  bit_and-le_right w (x / 2) (m / 2) (omega (arith, pow-suc 2 w)),
)

bit_and_fields : (k q r : ℕ) → r < 2 ^ k → bit_and (q * 2 ^ k + r) (2 ^ k - 1) ≡ r
bit_and_fields zero q r fits = rw bit_and-zero (omega arith)
bit_and_fields (suc k) q r fits = ground (
  arith,
  bit_and_step (q * 2 ^ suc k + r) (2 ^ suc k - 1),
  ap (λ (t : ℕ). q * t) (pow-suc 2 k),
  pow-suc 2 k,
  bit_and_fields k q (r / 2) (omega (arith, pow-suc 2 k)),
)

-- A mask of `k` low bits is the remainder by `2 ^ k`.
pub bit_and_mask : (k x : ℕ) → bit_and x (2 ^ k - 1) ≡ x % 2 ^ k
bit_and_mask k x = ground (arith, one-le-pow k 2, bit_and_fields k (x / 2 ^ k) (x % 2 ^ k))

pub bit_and_self : (n : ℕ) → bit_and n n ≡ n
bit_and_self n = WellFounded.induction lt_wf {C = λ k. bit_and k k ≡ k} n step
  where
    step : (k : ℕ) → ((m : ℕ) → m < k → bit_and m m ≡ m) → bit_and k k ≡ k
    step zero ih = refl
    step (suc k) ih = omega (arith, bit_and_step (suc k) (suc k), ih (suc k / 2) (omega arith))
