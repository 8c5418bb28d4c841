-- ===== src/Filesystem/PlatformWrap.antt =====
-- src/filesystem/internal/platform_wrap.c: the platform's path functions under their local names.
use libdane.Base.{ℕ, Option, List}
use libdane.Platform.Paths
use libdane.Platform.Paths.{write_char_encoding_to}

-- `platform_filepath_end_of_prefix`.
abbrev pub end_of_prefix : ℕ
end_of_prefix = Paths.end_of_prefix

unfoldable pub write_char_to : ℕ → (ℕ → ℕ) → ℕ → List ℕ → Option ((ℕ → ℕ) × ℕ)
write_char_to size dest at src = write_char_encoding_to size dest at src
