-- ===== src/Utils/Encodings/Laws.antt =====
-- Which bytes lead a UTF-8 sequence, and how long it is.
use libdane.Base.{ℕ, ◌≤◌, ◌<◌, ◌≡◌, ◌⊎◌, arith}
use libdane.Utils.Encodings.{utf8_char_len}

-- Every byte is in one row of a table of lengths: 1 below 0x80, 0 for a continuation byte below 0xc0,
-- 2 below 0xe0, 3 below 0xf0, 4 below 0xf8, and 0 from there on.
pub utf8_char_len_table :
    (b : ℕ)
    → b < 256
    → ((b < 0x80) × (utf8_char_len b ≡ 1))
      ⊎ ((0x80 ≤ b) × (b < 0xc0) × (utf8_char_len b ≡ 0))
      ⊎ ((0xc0 ≤ b) × (b < 0xe0) × (utf8_char_len b ≡ 2))
      ⊎ ((0xe0 ≤ b) × (b < 0xf0) × (utf8_char_len b ≡ 3))
      ⊎ ((0xf0 ≤ b) × (b < 0xf8) × (utf8_char_len b ≡ 4))
      ⊎ ((0xf8 ≤ b) × (utf8_char_len b ≡ 0))
unfolding utf8_char_len
utf8_char_len_table b h = ground arith

-- An ASCII byte is one byte long, at any value below 0x80.
pub utf8_char_len_ascii : (b : ℕ) → b < 0x80 → utf8_char_len b ≡ 1
unfolding utf8_char_len
utf8_char_len_ascii b h = ground arith
