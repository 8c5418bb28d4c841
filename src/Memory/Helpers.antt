-- ===== src/Memory/Helpers.antt =====
-- src/memory/internal/helpers.c: powers of two and rounding up, on 64-bit words.
pub mod Align
pub mod Validity
mod Tests
use libdane.Base.{
  ℕ, ◌+◌, ◌-◌, ◌^◌, bit_and, Bool, true, false, not, ◌||◌, ◌==◌, ltb, if◌then◌else◌, u64, not_u64,
}

-- LIBD_MAX_ALIGN of include/libd/utils/align_compat.h: the alignment of `long double` on x86-64
-- and on 64-bit ARM.
abbrev pub max_align : ℕ
max_align = 16

-- `offset - 1` wraps at 0.
unfoldable pub is_power_of_two : ℕ → Bool
is_power_of_two offset = bit_and offset (u64 (offset + 2 ^ 64 - 1)) == 0

unfoldable pub is_valid_alignment : ℕ → Bool
unfolding is_power_of_two
is_valid_alignment alignment =
    if alignment == 0
    then false
    else if not (is_power_of_two alignment) || ltb max_align alignment
    then false
    else true

unfoldable pub align_up : ℕ → ℕ → ℕ
align_up value alignment =
    bit_and (u64 (value + alignment + 2 ^ 64 - 1)) (not_u64 (u64 (alignment + 2 ^ 64 - 1)))
