-- ===== src/Filesystem/Filepath.antt =====
-- src/filesystem/filepath.c: `libd_filesystem_filepath_normalize`.
--
-- The input is the list of the bytes of the object that `input_path` points into, up to the
-- object's end and not to the terminator: the loop may step over the terminator, and a read
-- behind the last byte is a fault. A scan position is the list of the bytes before it, the last
-- one first, and the list of the bytes from it on. The output is a function from offsets to bytes,
-- of which `out_len` belong to the buffer; an access elsewhere is a fault, before the buffer too.
-- `Addresses` says where the two objects lie, since the code compares pointers into both.
pub mod Spec
pub mod Steps
pub mod Clean
pub mod Stuck
pub mod Written
pub mod Walk
pub mod Runs
pub mod Characters
pub mod Names
pub mod References
pub mod Stack
pub mod Components
pub mod Refine
pub mod Idempotent
pub mod Faults
pub mod Lower
pub mod General
pub mod Room
pub mod Progress
pub mod Stubs
mod Tests
mod WalkTests
use libdane.Base.{
  ℕ, zero, suc, ◌+◌, Bool, true, false, not, ◌&&◌, ◌||◌, Option, none, some, List, [], ◌∷◌, ◌==◌,
  ltb, leb, if◌then◌else◌,
}
use libdane.Common.{LibdResult, libd_ok, libd_err, libd_invalid_parameter, libd_invalid_path}
use libdane.Platform.Paths.{path_separator}
use libdane.Filesystem.PlatformWrap.{end_of_prefix, write_char_to}
use libdane.Utils.Encodings.{put}

abbrev pub null_terminator : ℕ
null_terminator = 0

abbrev pub dot : ℕ
dot = b'.'

pub record Addresses : Type 0 where
  pub out_path : ℕ
  pub input_path : ℕ

pub record State : Type 0 where
  pub behind : List ℕ
  pub ahead : List ℕ
  pub write_pos : ℕ
  pub bytes : ℕ → ℕ

-- `done` is a return, with the bytes of the output. `fault` is an access out of bounds.
pub data Outcome : Type 0 where
  done : LibdResult → (ℕ → ℕ) → Outcome
  fault : Outcome
  out_of_fuel : Outcome

-- What a round of the loop leads to.
pub data Round : Type 0 where
  more : State → Round
  stop : Outcome → Round

-- `scan_pos += n`.
abbrev pub advance : ℕ → State → State
advance zero st = st
advance (suc n) st = elim st.ahead [
  | [] ↦ st
  | c ∷ cs ↦ advance n (record st { behind = c ∷ st.behind; ahead = cs })
]

-- Whether the position is the start of the path or stands behind a separator.
abbrev pub behind_satisfied : List ℕ → Bool
behind_satisfied [] = true
behind_satisfied (c ∷ cs) = c == path_separator

abbrev pub ends_component : ℕ → Bool
ends_component c = c == path_separator || c == null_terminator

-- The arguments are the bytes behind the position and the bytes after the one at it.
unfoldable pub found_relative_ref : List ℕ → List ℕ → Option Bool
found_relative_ref behind [] = none
found_relative_ref behind (c ∷ cs) = some (behind_satisfied behind && ends_component c)

unfoldable pub found_parent_ref : List ℕ → List ℕ → Option Bool
found_parent_ref behind [] = none
found_parent_ref behind (c ∷ []) = if c == null_terminator then some false else none
found_parent_ref behind (c ∷ d ∷ cs) =
    if c == null_terminator
    then some false
    else some (behind_satisfied behind && c == dot && ends_component d)

-- `while (scan_pos[1] == PATH_SEPARATOR) scan_pos += 1` from a separator, with the bytes after it.
unfoldable pub skip_separators : List ℕ → List ℕ → Option (List ℕ × List ℕ)
skip_separators behind [] = none
skip_separators behind (c ∷ cs) =
    let rest = skip_separators (path_separator ∷ behind) cs in
    if c == path_separator then rest else some (behind, path_separator ∷ c ∷ cs)

-- The inner loop of a parent reference: back to the last separator. It reads the byte before
-- `write_pos` first, and compares `write_pos` with the start of the input.
unfoldable pub back_up : Addresses → (ℕ → ℕ) → ℕ → Option ℕ
back_up a bytes zero = none
back_up a bytes (suc w) =
    if bytes w == path_separator
    then some (suc w)
    else (if ltb (a.input_path + end_of_prefix) (a.out_path + suc w)
        then back_up a bytes w
        else some (suc w))

module _ (a : Addresses) (out_len : ℕ) where
  -- The code at the label `write_char`.
  unfoldable pub write_char : State → Round
  write_char st = elim (write_char_to out_len st.bytes st.write_pos st.ahead) [
    | none ↦ stop fault
    | some (bytes, offset) ↦
        let w = st.write_pos + offset in
        let st' = advance offset (record st { write_pos = w; bytes = bytes }) in
        if leb out_len w then stop (done libd_err bytes) else more st'
  ]

  -- A parent reference: an error at the start of the path or behind its first byte.
  unfoldable pub parent_ref : ℕ → State → Round
  parent_ref write_path_start st =
      if st.write_pos == write_path_start || st.write_pos == write_path_start + 1
      then stop (done libd_invalid_path st.bytes)
      else elim st.write_pos [
        | zero ↦ stop fault
        | suc w ↦ elim (back_up a st.bytes w) [
          | none ↦ stop fault
          | some w' ↦ more (advance 3 (record st { write_pos = w' }))
        ]
      ]

  -- The case of a dot, with the bytes after it.
  unfoldable pub dot_case : ℕ → State → List ℕ → Round
  dot_case write_path_start st next = elim (found_relative_ref st.behind next) [
    | none ↦ stop fault
    | some true ↦ more (advance 2 st)
    | some false ↦ elim (found_parent_ref st.behind next) [
      | none ↦ stop fault
      | some true ↦ parent_ref write_path_start st
      | some false ↦ write_char st
    ]
  ]

  unfoldable pub separator_case : State → List ℕ → Round
  separator_case st next = elim (skip_separators st.behind next) [
    | none ↦ stop fault
    | some (behind, ahead) ↦ write_char (record st { behind = behind; ahead = ahead })
  ]

  -- `*write_pos = NULL_TERMINATOR` behind the loop.
  unfoldable pub terminate : State → Round
  terminate st =
      if ltb st.write_pos out_len
      then stop (done libd_ok (put st.bytes st.write_pos null_terminator))
      else stop fault

  -- A round of the loop, its test included, at the bytes from the scan position on.
  unfoldable pub round_at : ℕ → State → List ℕ → Round
  round_at write_path_start st [] = stop fault
  round_at write_path_start st (c ∷ next) =
      if c == null_terminator
      then terminate st
      else if c == path_separator
      then separator_case st next
      else if c == dot
      then dot_case write_path_start st next
      else write_char st

  unfoldable pub normalize_loop : ℕ → ℕ → State → Outcome
  normalize_loop zero write_path_start st = out_of_fuel
  normalize_loop (suc fuel) write_path_start st = elim (round_at write_path_start st st.ahead) [
    | stop r ↦ r
    | more st' ↦ normalize_loop fuel write_path_start st'
  ]

  -- `while (scan_pos < path_start)`: the bytes of the prefix, of which `left` are left.
  unfoldable pub copy_prefix : ℕ → State → Option State
  copy_prefix zero st = some st
  copy_prefix (suc left) st = elim (write_char_to out_len st.bytes st.write_pos st.ahead) [
    | none ↦ none
    | some (bytes, offset) ↦
        copy_prefix left
          (advance offset (record st { write_pos = st.write_pos + offset; bytes = bytes }))
  ]

  -- `input` is `none` for `NULL`, and `out` is false for `NULL`.
  unfoldable pub normalize : ℕ → Bool → (ℕ → ℕ) → Option (List ℕ) → Outcome
  normalize fuel out bytes none = done libd_invalid_parameter bytes
  normalize fuel out bytes (some []) =
      if not out || out_len == 0 then done libd_invalid_parameter bytes else fault
  normalize fuel out bytes (some (c ∷ cs)) =
      let start : State = record { behind = []; ahead = c ∷ cs; write_pos = 0; bytes = bytes } in
      if not out || out_len == 0 || c == null_terminator
      then done libd_invalid_parameter bytes
      else elim (copy_prefix end_of_prefix start) [
        | none ↦ fault
        | some st ↦ normalize_loop fuel st.write_pos st
      ]
