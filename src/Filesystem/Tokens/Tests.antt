-- ===== src/Filesystem/Tokens/Tests.antt =====
-- The type of a segment.
use Prim.Native.Nat.{bit_or}
use libdane.Base.{◌≡◌, refl, true, false}
use libdane.Filesystem.Tokens.{
  eof_type, separator_type, parent_ref_type, is_eof_type, is_separator_type, is_component_type,
}

tokens_run :
    (is_eof_type eof_type ≡ true)
    × (is_separator_type eof_type ≡ false)
    × (is_component_type parent_ref_type ≡ true)
    × (is_component_type (bit_or eof_type separator_type) ≡ false)
unfolding is_eof_type is_separator_type is_component_type
tokens_run = (refl, refl, refl, refl)
