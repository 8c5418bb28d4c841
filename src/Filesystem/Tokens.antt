-- ===== src/Filesystem/Tokens.antt =====
-- src/filesystem/filepath.h: the types of the tokens of a path, one bit each in a byte.
mod Tests
use Prim.Native.Nat.{bit_or}
use libdane.Base.{
  ℕ, ◌^◌, ◌<◌, ◌≡◌, refl, Bool, true, false, ◌||◌, not, if◌then◌else◌, passes_below,
  passes_below-test,
}
use libdane.Common.{check_against_mask}

abbrev pub eof_type : ℕ
eof_type = 2 ^ 0

abbrev pub separator_type : ℕ
separator_type = 2 ^ 1

abbrev pub parent_ref_type : ℕ
parent_ref_type = 2 ^ 2

abbrev pub self_ref_type : ℕ
self_ref_type = 2 ^ 3

abbrev pub segment_type : ℕ
segment_type = 2 ^ 4

abbrev pub component_mask : ℕ
component_mask = bit_or (bit_or parent_ref_type self_ref_type) segment_type

unfoldable pub is_eof_type : ℕ → Bool
is_eof_type type = check_against_mask type eof_type

unfoldable pub is_separator_type : ℕ → Bool
is_separator_type type = check_against_mask type separator_type

unfoldable pub is_parent_ref_type : ℕ → Bool
is_parent_ref_type type = check_against_mask type parent_ref_type

unfoldable pub is_self_ref_type : ℕ → Bool
is_self_ref_type type = check_against_mask type self_ref_type

unfoldable pub is_segment_type : ℕ → Bool
is_segment_type type = check_against_mask type segment_type

unfoldable pub is_component_type : ℕ → Bool
is_component_type type = check_against_mask type component_mask

any_component : ℕ → Bool
any_component type = is_parent_ref_type type || is_self_ref_type type || is_segment_type type

agrees : ℕ → Bool
agrees type = if is_component_type type then any_component type else not (any_component type)

agrees_table : passes_below agrees 256 ≡ true
unfolding passes_below agrees any_component is_component_type is_parent_ref_type is_self_ref_type
    is_segment_type
agrees_table = refl

-- Of a byte the mask of components accepts exactly the types of which one of the tests for a
-- reference to the parent, a reference to the same directory, and a segment holds.
pub is_component_type-eq :
    (type : ℕ)
    → type < 256
    → is_component_type type
      ≡ (is_parent_ref_type type || is_self_ref_type type || is_segment_type type)
unfolding agrees any_component
is_component_type-eq type byte = same _ _ (passes_below-test agrees 256 byte agrees_table)
  where
    same : (a b : Bool) → (if a then b else not b) ≡ true → a ≡ b
    same true true h = refl
    same true false h = cc
    same false true h = cc
    same false false h = refl
