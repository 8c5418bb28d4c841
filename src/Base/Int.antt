-- ===== src/Base/Int.antt =====
-- Integers, and 64-bit words read as such.
use Prim.Native.Nat.{ℕ, suc, ◌+◌, ◌-◌, ◌^◌, ◌%◌, ◌≤◌, ◌<◌}
use mathlib.Core.Path.{◌≡◌}
use mathlib.Core.Logic.{◌↔◌}
use mathlib.Core.Bool.{Bool, true}
use native.Mathlib.Omega.{arith}
use libdane.Base.Tests.{ltb, leb, ◌==◌, if◌then◌else◌}

-- `negsuc n` is -(n + 1).
pub data ℤ : Type 0 where
  pos : ℕ → ℤ
  negsuc : ℕ → ℤ

abbrev pub pos_part : ℤ → ℕ
pos_part (pos n) = n
pos_part (negsuc n) = 0

abbrev pub neg_part : ℤ → ℕ
neg_part (pos n) = 0
neg_part (negsuc n) = suc n

infix 50 ◌<ℤ◌ ◌≤ℤ◌
abbrev pub ◌<ℤ◌ : ℤ → ℤ → Type 0
a <ℤ b = pos_part a + neg_part b < pos_part b + neg_part a

abbrev pub ◌≤ℤ◌ : ℤ → ℤ → Type 0
a ≤ℤ b = pos_part a + neg_part b ≤ pos_part b + neg_part a

abbrev pub ltb_ℤ : ℤ → ℤ → Bool
ltb_ℤ a b = ltb (pos_part a + neg_part b) (pos_part b + neg_part a)

abbrev pub leb_ℤ : ℤ → ℤ → Bool
leb_ℤ a b = leb (pos_part a + neg_part b) (pos_part b + neg_part a)

abbrev pub eqb_ℤ : ℤ → ℤ → Bool
eqb_ℤ a b = pos_part a + neg_part b == pos_part b + neg_part a

-- The integer that 64 bits stand for in two's complement, and its bits.
abbrev pub s64 : ℕ → ℤ
s64 n = if ltb n (2 ^ 63) then pos n else negsuc (2 ^ 64 - 1 - n)

abbrev pub s64_bits : ℤ → ℕ
s64_bits (pos n) = n
s64_bits (negsuc n) = 2 ^ 64 - 1 - n

-- An integer as a word of 64 bits.
abbrev pub word : ℤ → ℕ
word (pos n) = n % 2 ^ 64
word (negsuc n) = 2 ^ 64 - 1 - n % 2 ^ 64

-- The integers of 64 bits.
abbrev pub IsS64 : ℤ → Type 0
IsS64 (pos n) = n < 2 ^ 63
IsS64 (negsuc n) = n < 2 ^ 63

pub s64-s64_bits : (a : ℤ) → IsS64 a → s64 (s64_bits a) ≡ a
s64-s64_bits (pos n) h = ground arith
s64-s64_bits (negsuc n) h = ground arith

pub s64_bits-s64 : (n : ℕ) → n < 2 ^ 64 → s64_bits (s64 n) ≡ n
s64_bits-s64 n h = ground arith

pub ltb_ℤ_iff : (a b : ℤ) → (ltb_ℤ a b ≡ true) ↔ (a <ℤ b)
ltb_ℤ_iff a b = (λ h. ground arith, λ h. ground arith)

pub leb_ℤ_iff : (a b : ℤ) → (leb_ℤ a b ≡ true) ↔ (a ≤ℤ b)
leb_ℤ_iff a b = (λ h. ground arith, λ h. ground arith)

pub eqb_ℤ_iff : (a b : ℤ) → (eqb_ℤ a b ≡ true) ↔ (a ≡ b)
eqb_ℤ_iff a b = (λ h. ground arith, λ h. ground arith)

word-IsS64 : (a : ℤ) → IsS64 a → word a ≡ s64_bits a
word-IsS64 (pos n) h = omega arith
word-IsS64 (negsuc n) h = omega arith

pub s64-word : (a : ℤ) → IsS64 a → s64 (word a) ≡ a
s64-word a h = rw (word-IsS64 a h) (s64-s64_bits a h)
