-- ===== src/Memory/Helpers/Align.antt =====
-- `libd_memory_align_up`: bounds for every alignment, and the least multiple of a power of two.
use native.Mathlib.Nat.{one-le-pow, div-add-mod', mul-mod_left}
use native.Mathlib.Decide.{dec_le}
use libdane.Base.{
  ℕ, ◌+◌, ◌-◌, ◌*◌, ◌/◌, ◌%◌, ◌^◌, ◌≤◌, ◌<◌, ◌≡◌, arith, bit_and, bit_and_split, bit_and-le_right,
  bit_and_mask,
}
use libdane.Memory.Helpers.{align_up}

align_up-sub :
    (v a : ℕ) → 0 < a → v + a ≤ 2 ^ 64 → align_up v a + bit_and (v + a - 1) (a - 1) ≡ v + a - 1
unfolding align_up
align_up-sub v a pos fits =
    rw (sum, mask) (bit_and_split 64 (v + a - 1) (a - 1) (omega arith) (omega arith))
  where
    sum : (v + a + 2 ^ 64 - 1) % 2 ^ 64 ≡ v + a - 1
    sum = omega arith

    mask : (a + 2 ^ 64 - 1) % 2 ^ 64 ≡ a - 1
    mask = omega arith

-- Whatever the alignment is, a power of two or not, rounding up never loses a byte and adds less
-- than the alignment, as long as the sum fits 64 bits.
pub align_up_bounds :
    (v a : ℕ) → 0 < a → v + a ≤ 2 ^ 64 → (v ≤ align_up v a) × (align_up v a < v + a)
align_up_bounds v a pos fits =
    omega (arith, align_up-sub v a pos fits, bit_and-le_right 64 (v + a - 1) (a - 1) (omega arith))

pub align_up_pow :
    (v k : ℕ) → v + 2 ^ k ≤ 2 ^ 64 → align_up v (2 ^ k) ≡ (v + 2 ^ k - 1) / 2 ^ k * 2 ^ k
align_up_pow v k fits = omega (
  arith,
  align_up-sub v (2 ^ k) (one-le-pow k 2 (omega arith)) fits,
  bit_and_mask k (v + 2 ^ k - 1),
  div-add-mod' (v + 2 ^ k - 1) (2 ^ k),
)

mul_le : (a b c : ℕ) → a ≤ b → a * c ≤ b * c
mul_le a b c h = grind arith

ceil_least : (v p m : ℕ) → 0 < p → v ≤ m * p → (v + p - 1) / p * p ≤ m * p
ceil_least v p m pos h = elim (dec_le ((v + p - 1) / p) m) [
  | yes q ↦ mul_le ((v + p - 1) / p) m p q
  | no q ↦ absurd (
      omega (
        arith,
        mul_le (m + 1) ((v + p - 1) / p) p (omega arith),
        div-add-mod' (v + p - 1) p,
        add_mul m p,
      ))
]
  where
    add_mul : (m p : ℕ) → (m + 1) * p ≡ m * p + p
    add_mul m p = omega arith

-- For a power of two the result is a multiple, at least the value, and no multiple in between.
pub align_up_least :
    (v k : ℕ)
    → v + 2 ^ k ≤ 2 ^ 64
    → (align_up v (2 ^ k) % 2 ^ k ≡ 0)
      × (v ≤ align_up v (2 ^ k))
      × ((m : ℕ) → v ≤ m * 2 ^ k → align_up v (2 ^ k) ≤ m * 2 ^ k)
align_up_least v k fits = (
  rw (align_up_pow v k fits) (mul-mod_left _ _),
  (align_up_bounds v (2 ^ k) (one-le-pow k 2 (omega arith)) fits).0,
  λ m h. rw (align_up_pow v k fits) (ceil_least v (2 ^ k) m (one-le-pow k 2 (omega arith)) h),
)

-- Rounding up twice is rounding up once.
pub align_up-align_up :
    (v k : ℕ)
    → v + 2 ^ k + 2 ^ k ≤ 2 ^ 64
    → align_up (align_up v (2 ^ k)) (2 ^ k) ≡ align_up v (2 ^ k)
align_up-align_up v k fits = omega (
  arith,
  align_up_bounds v (2 ^ k) pos (omega arith),
  align_up_bounds (align_up v (2 ^ k)) (2 ^ k) pos (omega (arith, below)),
  (align_up_least (align_up v (2 ^ k)) k (omega (arith, below))).2 ((v + 2 ^ k - 1) / 2 ^ k)
      (omega (arith, align_up_pow v k (omega arith))),
  align_up_pow v k (omega arith),
)
  where
    pos : 0 < 2 ^ k
    pos = one-le-pow k 2 (omega arith)

    below : align_up v (2 ^ k) < v + 2 ^ k
    below = (align_up_bounds v (2 ^ k) pos (omega arith)).1
