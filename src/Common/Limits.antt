-- ===== src/Common/Limits.antt =====
-- include/libd/common.h: the limit macros, and the binary multiples.
--
-- An operand that is narrower than `int` becomes an `int` of 32 bits before the operation.
mod Tests
use libdane.Base.{
  ℕ, suc, ◌+◌, ◌-◌, ◌*◌, ◌%◌, ◌^◌, ◌≤◌, ◌≡◌, ◌≢◌, ◌↔◌, refl, arith, Option, none, some, ℤ, pos,
  negsuc, ltb, leb, if◌then◌else◌,
}

pub data Width : Type 0 where
  w8 w16 w32 w64 : Width

abbrev pub bits : Width → ℕ
bits w8 = 8
bits w16 = 16
bits w32 = 32
bits w64 = 64

abbrev difference : ℕ → ℕ → ℤ
difference a b = if ltb a b then negsuc (b - a - 1) else pos (a - b)

-- `a - b` of two operands of an unsigned type.
unfoldable pub subtract : Width → ℕ → ℕ → ℤ
subtract w a b = if ltb (bits w) 32 then difference a b else pos ((a + 2 ^ bits w - b) % 2 ^ bits w)

-- `a << n` of an operand of a signed type that is not negative; `none` is a value that the type of
-- the result does not have, for which C defines no behaviour.
unfoldable pub shift_left : Width → ℕ → ℕ → Option ℤ
shift_left w a n =
    let result_bits = if ltb (bits w) 32 then 32 else bits w in
    if ltb (a * 2 ^ n) (2 ^ (result_bits - 1)) then some (pos (a * 2 ^ n)) else none

-- `~a` in two's complement.
abbrev complement : ℤ → ℤ
complement (pos n) = negsuc n
complement (negsuc n) = pos n

unfoldable pub unsigned_max : Width → ℤ
unsigned_max w = subtract w 0 1

unfoldable pub signed_min : Width → Option ℤ
signed_min w = shift_left w 1 (bits w - 1)

unfoldable pub signed_max : Width → Option ℤ
signed_max w = elim (signed_min w) [ none ↦ none | some n ↦ some (complement n) ]

abbrev pub kib : ℕ
kib = 2 ^ 10

abbrev pub mib : ℕ
mib = 2 ^ 20

abbrev pub gib : ℕ
gib = 2 ^ 30

-- `_UNSIGNED_MAX` is the greatest number of its width exactly from 32 bits on. At no width are
-- `_SIGNED_MIN` and `_SIGNED_MAX` the limits of that width, where a shift for which C defines no
-- behaviour has no value.
pub limits_agree :
    (w : Width)
    → ((unsigned_max w ≡ pos (2 ^ bits w - 1)) ↔ (32 ≤ bits w))
      × (signed_min w ≢ some (negsuc (2 ^ (bits w - 1) - 1)))
      × (signed_max w ≢ some (pos (2 ^ (bits w - 1) - 1)))
unfolding subtract shift_left unsigned_max signed_min signed_max
limits_agree w8 = ((λ e. cc, λ h. absurd (omega arith)), λ e. cc, λ e. cc)
limits_agree w16 = ((λ e. cc, λ h. absurd (omega arith)), λ e. cc, λ e. cc)
limits_agree w32 = ((λ e. omega arith, λ h. refl), λ e. cc, λ e. cc)
limits_agree w64 = ((λ e. omega arith, λ h. refl), λ e. cc, λ e. cc)
