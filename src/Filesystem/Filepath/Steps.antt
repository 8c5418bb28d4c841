-- ===== src/Filesystem/Filepath/Steps.antt =====
-- One round of the loop of `normalize` at a byte that is kept.
use libdane.Base.{
  ℕ, zero, suc, ◌+◌, ◌<◌, ◌≡◌, ◌≢◌, inl, inr, refl, ap, arith, Bool, true, false, ◌&&◌, ◌||◌, some,
  List, [], ◌∷◌, ◌++◌, leb, ◌==◌, ==_of_ne, ==_iff, Bool-cases,
}
use libdane.Platform.Paths.{path_separator, write_char_encoding_to}
use libdane.Utils.Encodings.{utf8_write_char, copy_bytes, put}
use libdane.Utils.Encodings.Laws.{utf8_char_len_ascii}
use libdane.Filesystem.PlatformWrap.{write_char_to}
use libdane.Filesystem.Filepath.{
  Addresses, more, found_relative_ref, found_parent_ref, skip_separators, write_char,
  separator_case, dot_case, round_at, behind_satisfied, dot,
}
use libdane.Filesystem.Filepath.Walk.{separators}
use libdane.Filesystem.Filepath.Spec.{
  IsClean, classify, kept, ends, ends_after_dot, starts_with_separator,
}

pub and_false : (b : Bool) → (b && false) ≡ false
and_false true = refl
and_false false = refl

pub or_false : (b : Bool) → (b || false) ≡ b
or_false true = refl
or_false false = refl

pub and_assoc : (a b c : Bool) → ((a && b) && c) ≡ (a && (b && c))
and_assoc true b c = refl
and_assoc false b c = refl

pub found_relative_ref-ends :
    (behind cs rest : List ℕ) (first : Bool)
    → IsClean first cs
    → found_relative_ref behind (cs ++ 0 ∷ rest) ≡ some (behind_satisfied behind && ends cs)
unfolding found_relative_ref
found_relative_ref-ends behind [] rest first clean = refl
found_relative_ref-ends behind (c ∷ cs) rest first clean =
    rw (==_of_ne c 0 clean.1, or_false (c == path_separator)) refl

pub found_parent_ref-ends :
    (behind cs rest : List ℕ) (first : Bool)
    → IsClean first cs
    → found_parent_ref behind (cs ++ 0 ∷ rest) ≡ some (behind_satisfied behind && ends_after_dot cs)
unfolding found_parent_ref
found_parent_ref-ends behind [] [] first clean = rw (and_false (behind_satisfied behind)) refl
found_parent_ref-ends behind [] (r ∷ rest) first clean =
    rw (and_false (behind_satisfied behind)) refl
found_parent_ref-ends behind (c ∷ []) rest first clean =
    rw (==_of_ne c 0 clean.1, and_assoc (behind_satisfied behind) (c == dot) true) refl
found_parent_ref-ends behind (c ∷ d ∷ cs) rest first clean =
    rw
      (
        ==_of_ne c 0 clean.1,
        ==_of_ne d 0 clean.3.1,
        or_false (d == path_separator),
        and_assoc (behind_satisfied behind) (c == dot) (d == path_separator),
      )
      refl

-- A run of separators is passed over but for the last one.
pub skip_separators_run :
    (behind xs : List ℕ) (n : ℕ)
    → starts_with_separator xs ≡ false
    → xs ≢ []
    → (skipped : List ℕ) × (skip_separators behind (separators n ++ xs)
        ≡ some (skipped, path_separator ∷ xs))
unfolding skip_separators
skip_separators_run behind [] zero lone some_byte = absurd (some_byte refl)
skip_separators_run behind (x ∷ xs) zero lone some_byte = (behind, rw lone refl)
skip_separators_run behind xs (suc n) lone some_byte =
    skip_separators_run (path_separator ∷ behind) xs n lone some_byte

skip_separators_none :
    (behind cs rest : List ℕ)
    → starts_with_separator cs ≡ false
    → skip_separators behind (cs ++ 0 ∷ rest) ≡ some (behind, path_separator ∷ (cs ++ 0 ∷ rest))
unfolding skip_separators
skip_separators_none behind [] rest h = refl
skip_separators_none behind (c ∷ cs) rest h = rw h refl

lone_separator :
    (first : Bool) (c : ℕ) (cs : List ℕ)
    → (c == path_separator) ≡ true
    → classify first c cs ≡ kept
    → starts_with_separator cs ≡ false
lone_separator first c cs e keep = elim (Bool-cases (starts_with_separator cs)) [
  | inl s ↦ cc (rw (e, s) at keep)
  | inr s ↦ s
]

pub no_reference :
    (first : Bool) (c : ℕ) (cs : List ℕ)
    → (c == path_separator) ≡ false
    → (c == dot) ≡ true
    → classify first c cs ≡ kept
    → ((first && ends cs) ≡ false) × ((first && ends_after_dot cs) ≡ false)
no_reference first c cs e d keep = elim (Bool-cases (first && ends cs)) [
  | inl s ↦ cc (rw (e, d, s) at keep)
  | inr s ↦ elim (Bool-cases (first && ends_after_dot cs)) [
    | inl p ↦ cc (rw (e, d, s, p) at keep)
    | inr p ↦ (s, p)
  ]
]

module _ (a : Addresses) (out_len : ℕ) where
  write_ascii :
      (w c : ℕ) (next : List ℕ) (bytes : ℕ → ℕ)
      → c < 0x80
      → w < out_len
      → write_char_to out_len bytes w (c ∷ next) ≡ some (put bytes w c, 1)
  unfolding write_char_to write_char_encoding_to utf8_write_char copy_bytes
  write_ascii w c next bytes ascii room =
      rw (utf8_char_len_ascii c ascii, room_before)
        (ap (λ n. some (put bytes w c, n)) (utf8_char_len_ascii c ascii))
    where
      room_before : leb (w + 1) out_len ≡ true
      room_before = ground arith

  -- The write of an ASCII byte with room behind it.
  pub write_char_ascii :
      (behind next : List ℕ) (w c : ℕ) (bytes : ℕ → ℕ)
      → c < 0x80
      → w + 1 < out_len
      → write_char a out_len
          (record { behind = behind; ahead = c ∷ next; write_pos = w; bytes = bytes })
        ≡ more
            (record { behind = c ∷ behind; ahead = next; write_pos = w + 1; bytes = put bytes w c })
  unfolding write_char
  write_char_ascii behind next w c bytes ascii room =
      rw (write_char, write_ascii w c next bytes ascii (omega arith), room_behind) refl
    where
      room_behind : leb out_len (w + 1) ≡ false
      room_behind = ground arith

  separator_kept :
      (c w : ℕ) (behind cs rest : List ℕ) (bytes : ℕ → ℕ)
      → (c == path_separator) ≡ true
      → starts_with_separator cs ≡ false
      → separator_case a out_len
          (record { behind = behind; ahead = c ∷ (cs ++ 0 ∷ rest); write_pos = w; bytes = bytes })
          (cs ++ 0 ∷ rest)
        ≡ write_char a out_len
            (record { behind = behind; ahead = c ∷ (cs ++ 0 ∷ rest); write_pos = w; bytes = bytes })
  unfolding separator_case
  separator_kept c w behind cs rest bytes e lone =
      rw (separator_case, skip_separators_none behind cs rest lone, (==_iff c path_separator).0 e)
        refl

  dot_kept :
      (start c w : ℕ) (behind cs rest : List ℕ) (bytes : ℕ → ℕ) (first : Bool)
      → (behind_satisfied behind && ends cs) ≡ false
      → (behind_satisfied behind && ends_after_dot cs) ≡ false
      → IsClean first cs
      → dot_case a out_len start
          (record { behind = behind; ahead = c ∷ (cs ++ 0 ∷ rest); write_pos = w; bytes = bytes })
          (cs ++ 0 ∷ rest)
        ≡ write_char a out_len
            (record { behind = behind; ahead = c ∷ (cs ++ 0 ∷ rest); write_pos = w; bytes = bytes })
  unfolding dot_case
  dot_kept start c w behind cs rest bytes first no_self no_parent clean =
      rw
        (
          dot_case,
          found_relative_ref-ends behind cs rest first clean,
          no_self,
          found_parent_ref-ends behind cs rest first clean,
          no_parent,
        )
        refl

  pub round_at_kept :
      (write_path_start c w : ℕ) (behind cs rest : List ℕ) (bytes : ℕ → ℕ)
      → c ≢ 0
      → classify (behind_satisfied behind) c cs ≡ kept
      → IsClean (c == path_separator) cs
      → round_at a out_len write_path_start
          (record { behind = behind; ahead = c ∷ (cs ++ 0 ∷ rest); write_pos = w; bytes = bytes })
          (c ∷ (cs ++ 0 ∷ rest))
        ≡ write_char a out_len
            (record { behind = behind; ahead = c ∷ (cs ++ 0 ∷ rest); write_pos = w; bytes = bytes })
  unfolding round_at
  round_at_kept start c w behind cs rest bytes nz keep clean =
      rw (==_of_ne c 0 nz) (elim (Bool-cases (c == path_separator)) [
        | inl e ↦ rw e (
            separator_kept c w behind cs rest bytes e
              (lone_separator (behind_satisfied behind) c cs e keep))
        | inr e ↦ rw e (elim (Bool-cases (c == dot)) [
          | inl d ↦ rw d (
              dot_kept start c w behind cs rest bytes (c == path_separator)
                (no_reference (behind_satisfied behind) c cs e d keep).0
                (no_reference (behind_satisfied behind) c cs e d keep).1 clean)
          | inr d ↦ rw d refl
        ])
      ])
