-- ===== src/Memory/Pool/Bytes.antt =====
-- `memcpy` of a 32-bit word from and to bytes, least significant byte first.
use libdane.Base.{
  ℕ, ◌+◌, ◌*◌, ◌/◌, ◌%◌, ◌^◌, ◌≤◌, ◌<◌, ◌≡◌, ◌≢◌, ◌⊎◌, inl, inr, arith, ◌==◌, if◌then◌else◌,
}
use native.Mathlib.Decide.{dec_lt}

unfoldable pub load_u32 : (ℕ → ℕ) → ℕ → ℕ
load_u32 b a = b a + b (a + 1) * 0x100 + b (a + 2) * 0x1_0000 + b (a + 3) * 0x100_0000

unfoldable pub store_u32 : (ℕ → ℕ) → ℕ → ℕ → ℕ → ℕ
store_u32 b a v q =
    if q == a
    then v % 0x100
    else if q == a + 1
    then v / 0x100 % 0x100
    else if q == a + 2
    then v / 0x1_0000 % 0x100
    else if q == a + 3
    then v / 0x100_0000 % 0x100
    else b q

pub load-store_self : (b : ℕ → ℕ) (a v : ℕ) → v < 2 ^ 32 → load_u32 (store_u32 b a v) a ≡ v
unfolding load_u32 store_u32
load-store_self b a v small = ground arith

-- Four bytes that the other four do not touch.
abbrev pub Clear : ℕ → ℕ → Type 0
Clear a c = (a + 4 ≤ c) ⊎ (c + 4 ≤ a)

pub store_u32_outside : (b : ℕ → ℕ) (a v q : ℕ) → (q < a) ⊎ (a + 4 ≤ q) → store_u32 b a v q ≡ b q
unfolding store_u32
store_u32_outside b a v q out = ground arith

pub load-store-Clear :
    (b : ℕ → ℕ) (a c v : ℕ) → Clear a c → load_u32 (store_u32 b a v) c ≡ load_u32 b c
unfolding load_u32
load-store-Clear b a c v clear = omega (
  arith,
  store_u32_outside b a v c (ground arith),
  store_u32_outside b a v (c + 1) (ground arith),
  store_u32_outside b a v (c + 2) (ground arith),
  store_u32_outside b a v (c + 3) (ground arith),
)

mul_le : (a b w : ℕ) → a ≤ b → a * w ≤ b * w
mul_le a b w h = grind arith

-- Different slots of at least four bytes have clear first words.
pub slots-Clear : (i j w : ℕ) → 4 ≤ w → i ≢ j → Clear (i * w) (j * w)
slots-Clear i j w wide ne = elim (dec_lt i j) [
  | yes lt ↦ inl (omega (arith, mul_le (i + 1) j w (omega arith)))
  | no ge ↦ inr (omega (arith, mul_le (j + 1) i w (omega arith)))
]
