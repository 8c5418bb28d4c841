-- ===== src/Utils/Encodings.antt =====
-- include/libd/utils/encodings.h: the length of a UTF-8 sequence, and copying and comparing one.
--
-- What a `const u8*` points at is the list of the bytes from there to the end of the object; a
-- buffer that is written is a function from offsets to bytes, with its size. `none` is an access
-- outside of the object or the buffer.
pub mod Laws
mod Tests
use libdane.Base.{
  ℕ, zero, suc, ◌+◌, ◌/◌, ◌^◌, Bool, true, false, ◌&&◌, Option, none, some, List, [], ◌∷◌, ◌==◌,
  leb, if◌then◌else◌,
}

pub data CharacterEncoding : Type 0 where
  libd_ascii libd_utf8 libd_utf16 libd_utf32 : CharacterEncoding

unfoldable pub utf8_char_len : ℕ → ℕ
utf8_char_len leading_byte =
    if leading_byte / 2 ^ 7 == 0b0
    then 1
    else if leading_byte / 2 ^ 5 == 0b110
    then 2
    else if leading_byte / 2 ^ 4 == 0b1110
    then 3
    else if leading_byte / 2 ^ 3 == 0b11110
    then 4
    else 0

abbrev pub put : (ℕ → ℕ) → ℕ → ℕ → ℕ → ℕ
put bytes at c q = if q == at then c else bytes q

-- `memcpy` of `len` bytes to offset `at`, with the room for them checked before.
unfoldable pub copy_bytes : ℕ → List ℕ → (ℕ → ℕ) → ℕ → Option (ℕ → ℕ)
copy_bytes zero src dest at = some dest
copy_bytes (suc len) [] dest at = none
copy_bytes (suc len) (c ∷ src) dest at = copy_bytes len src (put dest at c) (at + 1)

-- The buffer after the copy, and the length.
unfoldable pub utf8_write_char : ℕ → (ℕ → ℕ) → ℕ → List ℕ → Option ((ℕ → ℕ) × ℕ)
utf8_write_char size dest at [] = none
utf8_write_char size dest at (c ∷ src) =
    let len = utf8_char_len c in
    if leb (at + len) size
    then elim (copy_bytes len (c ∷ src) dest at) [ none ↦ none | some dest' ↦ some (dest', len) ]
    else none

-- `memcmp(subject, object, len) == 0`.
unfoldable pub same_bytes : ℕ → List ℕ → List ℕ → Option Bool
same_bytes zero subject object = some true
same_bytes (suc len) [] object = none
same_bytes (suc len) (c ∷ subject) [] = none
same_bytes (suc len) (c ∷ subject) (d ∷ object) = elim (same_bytes len subject object) [
  | none ↦ none
  | some same ↦ some (c == d && same)
]

unfoldable pub utf8_is_char_equal_to : List ℕ → List ℕ → Option Bool
utf8_is_char_equal_to [] object = none
utf8_is_char_equal_to (c ∷ subject) object =
    if utf8_char_len c == 0 then some false else same_bytes (utf8_char_len c) (c ∷ subject) object
