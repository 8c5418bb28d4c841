-- ===== src/Base/Word.antt =====
-- Casts to the fixed widths of C, on a platform with 64-bit `size_t` and `uintptr_t`.
use Prim.Native.Nat.{ℕ, ◌-◌, ◌%◌, ◌^◌}

abbrev pub u8 : ℕ → ℕ
u8 n = n % 2 ^ 8

abbrev pub u32 : ℕ → ℕ
u32 n = n % 2 ^ 32

abbrev pub u64 : ℕ → ℕ
u64 n = n % 2 ^ 64

-- `~n` on 64 bits.
abbrev pub not_u64 : ℕ → ℕ
not_u64 n = 2 ^ 64 - 1 - n
