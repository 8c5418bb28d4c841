-- ===== src/Memory/Helpers/Validity.antt =====
-- `libd_memory_is_power_of_two` and `libd_memory_is_valid_alignment` decide what they are named for.
use Prim.Native.Nat.{min}
use native.Mathlib.Nat.{pow-suc, mod_self}
use native.Mathlib.Decide.{ℕ_discrete}
use libdane.Base.{
  ℕ, zero, suc, ◌+◌, ◌-◌, ◌*◌, ◌/◌, ◌%◌, ◌^◌, ◌<◌, ◌≡◌, refl, ◌↔◌, ◌⊎◌, arith, bit_and, true,
  bit_and_step, bit_and_self, ◌==◌, ==_iff, passes_below, passes_below-test, bit_and_mask, ◌∙◌, ap,
  Bool, not, ◌||◌, if◌then◌else◌, ◌≤◌, ◌≢◌,
}
use libdane.Memory.Helpers.{is_power_of_two, is_valid_alignment}

abbrev pub IsPow : ℕ → Type 0
IsPow n = (k : ℕ) × (n ≡ 2 ^ k)

IsPow-double : (n : ℕ) → n % 2 ≡ 0 → IsPow (n / 2) → IsPow n
IsPow-double n even (k, e) = (suc k, omega (arith, pow-suc 2 k))

-- An odd number with no common bit with its predecessor is 1; an even one is twice such a number.
IsPow-of_mask : (fuel n : ℕ) → n ≤ fuel → 0 < n → bit_and n (n - 1) ≡ 0 → IsPow n
IsPow-of_mask zero n small pos h = absurd (omega arith)
IsPow-of_mask (suc fuel) n small pos h = elim (ℕ_discrete (n % 2) 0) [
  | yes even ↦
      IsPow-double n even
        (IsPow-of_mask fuel (n / 2) (omega arith) (omega arith) (omega (arith, step, halved even)))
  | no odd ↦ (0, omega (arith, step, common odd))
]
  where
    step : bit_and n (n - 1) ≡ bit_and (n / 2) ((n - 1) / 2) * 2 + min (n % 2) ((n - 1) % 2)
    step = bit_and_step n (n - 1)

    halved : n % 2 ≡ 0 → bit_and (n / 2) ((n - 1) / 2) ≡ bit_and (n / 2) (n / 2 - 1)
    halved even = ap (bit_and (n / 2)) (omega arith)

    common : n % 2 ≢ 0 → bit_and (n / 2) ((n - 1) / 2) ≡ n / 2
    common odd = ap (bit_and (n / 2)) (omega arith) ∙ bit_and_self (n / 2)

mask_of_pow : (k : ℕ) → bit_and (2 ^ k) (2 ^ k - 1) ≡ 0
mask_of_pow k = bit_and_mask k (2 ^ k) ∙ mod_self (2 ^ k)

-- Of the non-zero 64-bit words the test accepts exactly the powers of two.
pub is_power_of_two_iff : (n : ℕ) → 0 < n → n < 2 ^ 64 → (is_power_of_two n ≡ true) ↔ IsPow n
unfolding is_power_of_two
is_power_of_two_iff n pos fits = rw pred (
  λ h. IsPow-of_mask n n (omega arith) pos ((==_iff _ 0).0 h),
  λ p. (==_iff _ 0).1 (rw p.1 (mask_of_pow p.0)),
)
  where
    pred : (n + 2 ^ 64 - 1) % 2 ^ 64 ≡ n - 1
    pred = omega arith

agrees : ℕ → Bool
agrees a =
    let expected = a == 1 || a == 2 || a == 4 || a == 8 || a == 16 in
    if is_valid_alignment a then expected else not expected

agrees_table : passes_below agrees 256 ≡ true
unfolding passes_below agrees is_valid_alignment
agrees_table = refl

-- Of the 8-bit alignments exactly 1, 2, 4, 8 and 16 are valid.
pub is_valid_alignment_iff :
    (a : ℕ)
    → a < 256
    → (is_valid_alignment a ≡ true) ↔ ((a ≡ 1) ⊎ (a ≡ 2) ⊎ (a ≡ 4) ⊎ (a ≡ 8) ⊎ (a ≡ 16))
unfolding agrees
is_valid_alignment_iff a fits = ground (arith, passes_below-test agrees 256 fits agrees_table)
