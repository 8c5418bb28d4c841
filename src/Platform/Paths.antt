-- ===== src/Platform/Paths.antt =====
-- src/platform/posix/paths.c and the separator of include/libd/platform/filesystem.h, for POSIX.
use libdane.Base.{ℕ, Option, List}
use libdane.Utils.Encodings.{utf8_write_char}

abbrev pub path_separator : ℕ
path_separator = b'/'

-- `libd_platform_filesystem_filepath_end_of_prefix`, as an offset from the path: there is no prefix.
abbrev pub end_of_prefix : ℕ
end_of_prefix = 0

unfoldable pub write_char_encoding_to : ℕ → (ℕ → ℕ) → ℕ → List ℕ → Option ((ℕ → ℕ) × ℕ)
write_char_encoding_to size dest at src = utf8_write_char size dest at src
