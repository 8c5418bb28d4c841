-- ===== src/Filesystem/Filepath/Progress.antt =====
-- What moving on means for a scan position of `normalize`: the bytes ahead are a shorter text.
pub mod Ends
use mathlib.Core.Path.{subst}
use libdane.Base.{
  ℕ, zero, suc, ◌+◌, ◌≤◌, ◌<◌, ◌≡◌, ◌≢◌, refl, sym, ◌∙◌, arith, Bool, true, false, inl, inr, Option,
  none, some, List, [], ◌∷◌, ◌++◌, length, length-append, ltb, leb, ◌==◌, ◌||◌, ◌&&◌, not, ==_iff,
  Bool-cases, Option-cases,
}
use libdane.Common.{libd_ok, libd_err, libd_invalid_path}
use libdane.Platform.Paths.{path_separator}
use libdane.Utils.Encodings.{utf8_char_len, utf8_write_char, copy_bytes, put}
use libdane.Platform.Paths.{write_char_encoding_to}
use libdane.Filesystem.PlatformWrap.{write_char_to}
use libdane.Filesystem.Filepath.{
  Addresses, State, Outcome, done, fault, out_of_fuel, Round, more, stop, advance, skip_separators,
  found_relative_ref, found_parent_ref, back_up, write_char, parent_ref, dot_case, separator_case,
  terminate, round_at, normalize_loop, copy_prefix, normalize, null_terminator, ends_component,
  behind_satisfied, dot,
}
use libdane.Filesystem.Filepath.Runs.{scan}
use libdane.Filesystem.Filepath.Walk.{IsText, nothing, character}

-- Behind an ASCII byte the text goes on.
tail_of :
    {ys : List ℕ} (c : ℕ) (xs : List ℕ) → IsText ys → ys ≡ c ∷ xs → utf8_char_len c ≡ 1 → IsText xs
tail_of c xs nothing e one = cc
tail_of c xs (character d [] rest size text) e one = subst IsText (cc) text
tail_of c xs (character d (x ∷ r) rest size text) e one = absurd (omega (arith, size, one, same))
  where
    same : utf8_char_len d ≡ utf8_char_len c
    same = cc

pub IsText-tail : (c : ℕ) (xs : List ℕ) → IsText (c ∷ xs) → utf8_char_len c ≡ 1 → IsText xs
IsText-tail c xs text one = tail_of c xs text refl one

-- The bytes behind the first character.
pub record Character (c : ℕ) (xs : List ℕ) : Type 0 where
  pub rest : List ℕ
  pub others : List ℕ
  pub spelled : xs ≡ others ++ rest
  pub size : utf8_char_len c ≡ suc (length others)
  pub text : IsText rest

pub first-Character : {ys : List ℕ} (c : ℕ) (xs : List ℕ) → IsText ys → ys ≡ c ∷ xs → Character c xs
first-Character c xs nothing e = cc
first-Character c xs (character d r rest size text) e = record {
  rest = rest;
  others = r;
  spelled = cc;
  size = cc;
  text = text;
}

-- The loop has ended, or what is ahead is a shorter text.
pub data Progress (bound : ℕ) (r : Round) : Type 0 where
  ended : (o : Outcome) → r ≡ stop o → o ≢ out_of_fuel → Progress bound r
  moved : (st : State) → r ≡ more st → IsText st.ahead → length st.ahead < bound → Progress bound r

pub advance-append :
    (r rest behind : List ℕ) (w : ℕ) (b : ℕ → ℕ)
    → (advance
        (length r)
        (record { behind = behind; ahead = r ++ rest; write_pos = w; bytes = b })).ahead
      ≡ rest
advance-append [] rest behind w b = refl
advance-append (c ∷ r) rest behind w b = advance-append r rest (c ∷ behind) w b

-- A write goes on by the length of the character.
pub write_offset :
    (out_len w c : ℕ) (xs : List ℕ) (b b' : ℕ → ℕ) (n : ℕ)
    → write_char_to out_len b w (c ∷ xs) ≡ some (b', n)
    → n ≡ utf8_char_len c
unfolding write_char_to write_char_encoding_to utf8_write_char
write_offset out_len w c xs b b' n e = elim (Bool-cases (leb (w + utf8_char_len c) out_len)) [
  | inl room ↦ elim (Option-cases (copy_bytes (utf8_char_len c) (c ∷ xs) b w)) [
    | inl failed ↦ cc (rw (room, failed) at e)
    | inr (b'', copied) ↦ cc (rw (room, copied) at e)
  ]
  | inr outside ↦ cc (rw outside at e)
]

pub separator_size : utf8_char_len path_separator ≡ 1
unfolding utf8_char_len
separator_size = refl

pub dot_size : utf8_char_len dot ≡ 1
unfolding utf8_char_len
dot_size = refl

pub end_size : (c : ℕ) → ends_component c ≡ true → utf8_char_len c ≡ 1
unfolding utf8_char_len
end_size c ends = elim (Bool-cases (c == path_separator)) [
  | inl same ↦ rw ((==_iff c path_separator).0 same) refl
  | inr other ↦ rw ((==_iff c null_terminator).0 (rw other at ends)) refl
]

pub dot_text : {xs : List ℕ} → IsText xs → IsText (dot ∷ xs)
dot_text text = character dot [] _ dot_size text

pub two : (x y : Bool) → (x && y) ≡ true → (x ≡ true) × (y ≡ true)
two true true e = (refl, refl)
two true false e = cc
two false y e = cc

pub parts : (x y z : Bool) → (x && y && z) ≡ true → (y ≡ true) × (z ≡ true)
parts true true true e = (refl, refl)
parts true true false e = cc
parts true false z e = cc
parts false y z e = cc

-- A run of separators, and the text behind it.
pub record Skipped (bound : ℕ) (ahead : List ℕ) : Type 0 where
  pub others : List ℕ
  pub spelled : ahead ≡ path_separator ∷ others
  pub text : IsText others
  pub le : length others ≤ bound

pub skip_separators-Skipped :
    (behind next behind' ahead : List ℕ)
    → IsText next
    → skip_separators behind next ≡ some (behind', ahead)
    → Skipped (length next) ahead
unfolding skip_separators
skip_separators-Skipped behind [] behind' ahead text e = cc
skip_separators-Skipped behind (c ∷ cs) behind' ahead text e =
    elim (Bool-cases (c == path_separator)) [
      | inl same ↦
          let s =
            skip_separators-Skipped (path_separator ∷ behind) cs behind' ahead
              (IsText-tail c cs text (rw ((==_iff c path_separator).0 same) separator_size))
              (rw same at e) in
          record { others = s.others; spelled = s.spelled; text = s.text; le = omega (arith, s.le) }
      | inr apart ↦ record {
        others = c ∷ cs;
        spelled = cc (rw apart at e);
        text = text;
        le = omega arith;
      }
    ]
