-- ===== src/Filesystem/Filepath/WalkTests.antt =====
-- Paths by components, and the theorems about them at concrete paths.
use libdane.Base.{ℕ, ◌+◌, ◌≡◌, ◌≢◌, ◌≢◌, ◌<◌, refl, arith, true, none, some, List, [], ◌∷◌, ◌++◌}
use libdane.Utils.Encodings.{utf8_char_len}
use libdane.Filesystem.Filepath.{Addresses, done, fault, out_of_fuel, normalize}
use libdane.Filesystem.Filepath.Walk.{
  Component, name, self, parent, at_separator, in_name, in_parent, path_text, nothing, character,
  IsName, IsText, denote,
}
use libdane.Filesystem.Filepath.Refine.{Normalized, normalize-denote}
use libdane.Filesystem.Filepath.Idempotent.{normalize_again}
use libdane.Filesystem.Filepath.Progress.Ends.{normalize_ends}
use libdane.Filesystem.Filepath.General.{
  reached, refused, out_of_bounds, Token, segment, self_ref, parent_ref, any_text, meaning,
}
use libdane.Filesystem.Filepath.General.Ends.{Means}
use libdane.Filesystem.Filepath.General.Refine.{normalize-meaning}
use libdane.Filesystem.Filepath.Room.{normalize_no_room}
use libdane.Filesystem.Filepath.Names.{terminator}
use libdane.Filesystem.Filepath.Clean.{bytes_at}
use libdane.Common.{libd_err}
use libdane.Filesystem.Filepath.General.Rooted.{normalize_rooted_in_bounds}
use libdane.Filesystem.Filepath.Lower.{normalize_lower_output}

abbrev above : Addresses
above = record { out_path = 0x7000; input_path = 0x4000 }

abbrev below : Addresses
below = record { out_path = 0x4000; input_path = 0x7000 }

-- "usr" and ".é", whose last character has two bytes.
abbrev usr : List ℕ
usr = 117 ∷ 115 ∷ 114 ∷ []

abbrev hidden : List ℕ
hidden = 46 ∷ 0xc3 ∷ 0xa9 ∷ []

usr-IsName : IsName usr
unfolding utf8_char_len
usr-IsName = (
  ground arith,
  λ h. cc,
  λ h. cc,
  λ h. cc,
  character 117 [] (115 ∷ 114 ∷ []) refl
      (character 115 [] (114 ∷ []) refl (character 114 [] [] refl nothing)),
)

hidden-IsName : IsName hidden
unfolding utf8_char_len
hidden-IsName = (
  ground arith,
  λ h. cc,
  λ h. cc,
  λ h. cc,
  character 46 [] (0xc3 ∷ 0xa9 ∷ []) refl (character 0xc3 (0xa9 ∷ []) [] refl nothing),
)

-- "//usr///./../.é"
abbrev steps : List Component
steps = name usr 2 ∷ self ∷ parent ∷ []

denoted :
    (denote steps (in_name hidden) ≡ some (47 ∷ 46 ∷ 0xc3 ∷ 0xa9 ∷ []))
    × (denote steps in_parent ≡ none)
    × (denote (name usr 0 ∷ name hidden 0 ∷ []) in_parent ≡ some (47 ∷ 117 ∷ 115 ∷ 114 ∷ 47 ∷ []))
unfolding denote
denoted = (refl, refl, refl)

normalize-denote_example :
    Normalized
      (denote steps (in_name hidden))
      (normalize above 64 40 true (λ q. 7) (some (path_text 1 steps (in_name hidden) [])))
normalize-denote_example =
    normalize-denote above 64 40 1 steps (in_name hidden) [] (λ q. 7) (omega arith) (usr-IsName, tt)
      hidden-IsName (omega arith) (omega arith)

-- "usr/.//../.é": the separator behind the reference counts as a name, which `..` takes off.
abbrev relative : List Token
relative = segment usr 0 ∷ self_ref 1 ∷ parent_ref 0 ∷ []

relative-meaning :
    (meaning 0 relative (in_name hidden) [] ≡ reached (usr ++ 47 ∷ hidden))
    × (meaning 0 (segment usr 0 ∷ []) in_parent (0 ∷ []) ≡ out_of_bounds)
    × (meaning 0 (parent_ref 0 ∷ []) at_separator [] ≡ refused)
    × (meaning 0 (segment usr 0 ∷ self_ref 1 ∷ []) (in_name usr) []
        ≡ reached (usr ++ 47 ∷ 47 ∷ usr))
unfolding meaning
relative-meaning = (refl, refl, refl, refl)

normalize-meaning_example :
    Means
      (meaning 0 relative (in_name hidden) [])
      (normalize above 64 40 true (λ q. 7) (some (any_text 0 relative (in_name hidden) [])))
normalize-meaning_example =
    normalize-meaning above 64 40 0 relative (in_name hidden) [] (λ q. 7) (omega arith)
      (usr-IsName, tt) hidden-IsName tt (omega arith) (omega arith) (omega arith)

-- "//usr/.//../..", with a second terminator.
normalize_rooted_in_bounds_example :
    normalize above 64 40 true (λ q. 7) (some (any_text 2 relative in_parent (0 ∷ []))) ≢ fault
normalize_rooted_in_bounds_example =
    normalize_rooted_in_bounds above 64 40 1 relative in_parent (0 ∷ []) (λ q. 7) (omega arith)
      (usr-IsName, tt) tt refl (λ e. cc) (omega arith) (omega arith)

-- "usér", with two bytes for its third character.
abbrev accented : List ℕ
accented = 117 ∷ 115 ∷ 0xc3 ∷ 0xa9 ∷ 114 ∷ []

accented-IsName : IsName accented
unfolding utf8_char_len
accented-IsName = (
  ground arith,
  λ h. cc,
  λ h. cc,
  λ h. cc,
  character 117 [] (115 ∷ 0xc3 ∷ 0xa9 ∷ 114 ∷ []) refl (
      character 115 [] (0xc3 ∷ 0xa9 ∷ 114 ∷ []) refl
        (character 0xc3 (0xa9 ∷ []) (114 ∷ []) refl (character 114 [] [] refl nothing))),
)

us-IsText : IsText (117 ∷ 115 ∷ [])
unfolding utf8_char_len
us-IsText = character 117 [] (115 ∷ []) refl (character 115 [] [] refl nothing)

accent_size : utf8_char_len 0xc3 ≡ 2
unfolding utf8_char_len
accent_size = refl

-- An output of three bytes.
normalize_no_room_example :
    (2 + 2 ≡ 3
      → (b : ℕ → ℕ) × (normalize above 3 10 true (λ q. 7) (some (accented ++ 0 ∷ []))
          ≡ done libd_err b)
        × (bytes_at b 0 3 ≡ 117 ∷ 115 ∷ 0xc3 ∷ 0xa9 ∷ []))
    × (3 < 2 + 2 → normalize above 3 10 true (λ q. 7) (some (accented ++ 0 ∷ [])) ≡ fault)
normalize_no_room_example =
    normalize_no_room above 3 10 0xc3 (117 ∷ 115 ∷ []) (0xa9 ∷ []) (114 ∷ []) (terminator [])
      (λ q. 7) us-IsText accent_size accented-IsName (omega arith) (omega arith)

-- An object without a terminator: the path ends, in an access out of bounds.
normalize_ends_example : normalize above 30 6 true (λ q. 7) (some accented) ≢ out_of_fuel
normalize_ends_example =
    normalize_ends above 30 6 true (λ q. 7) accented accented-IsName.4 (omega arith)

normalize_lower_output_example : Normalized (some (47 ∷ usr)) (
    normalize below 64 40 true
      (λ q. 7)
      (some (path_text 0 (name usr 0 ∷ parent ∷ []) at_separator [])))
normalize_lower_output_example =
    normalize_lower_output below 64 40 0 0 usr [] (λ q. 7) (omega arith) usr-IsName (omega arith)
      (omega arith)

normalize_again_example :
    Normalized
      (some (47 ∷ hidden))
      (normalize above 64 40 true (λ q. 7) (some ((47 ∷ hidden) ++ 0 ∷ [])))
unfolding denote
normalize_again_example =
    normalize_again above 64 40 steps (in_name hidden) (47 ∷ hidden) [] (λ q. 7) (omega arith)
      (usr-IsName, tt) hidden-IsName refl (omega arith) (omega arith)
