-- ===== src/Filesystem/Filepath/Names.antt =====
-- Names: every byte of one is kept, and the loop copies it.
use mathlib.Core.List.{reverse_aux, append_assoc}
use libdane.Base.{
  ℕ, suc, ◌+◌, ◌<◌, ◌≡◌, ◌≢◌, inl, inr, refl, ◌∙◌, arith, true, false, ◌&&◌, some, List, [], ◌∷◌,
  ◌++◌, length, length-reverse_aux, length-append, ◌==◌, ==_of_ne, Bool-cases,
}
use libdane.Platform.Paths.{path_separator}
use libdane.Filesystem.Filepath.{
  Addresses, found_relative_ref, found_parent_ref, write_char, dot_case, round_at, behind_satisfied,
  dot,
}
use libdane.Filesystem.Filepath.Spec.{classify, kept, ends, ends_after_dot}
use libdane.Filesystem.Filepath.Steps.{and_false, or_false, and_assoc, no_reference}
use libdane.Filesystem.Filepath.Written.{written}
use libdane.Utils.Encodings.{utf8_char_len}
use libdane.Filesystem.Filepath.Walk.{IsPlain, IsName, IsText, nothing, character}
use libdane.Filesystem.Filepath.Characters.{Scanned-character}
use libdane.Filesystem.Filepath.Runs.{scan, Scanned, Scanned-none, Scanned-trans, Scanned-weaken}

-- What may stand behind a name: the terminator, or a separator with a byte behind it.
pub data Tail : Type 0 where
  terminator : List ℕ → Tail
  separator : ℕ → List ℕ → Tail

abbrev pub tail_bytes : Tail → List ℕ
tail_bytes (terminator rest) = 0 ∷ rest
tail_bytes (separator c rest) = path_separator ∷ c ∷ rest

pub classify_inside : (c : ℕ) (r : List ℕ) → c ≢ path_separator → classify false c r ≡ kept
classify_inside c r ns = ground arith

pub classify_first : (c : ℕ) (r : List ℕ) → IsName (c ∷ r) → classify true c r ≡ kept
classify_first c [] n = ground arith
classify_first c (d ∷ []) n = ground arith
classify_first c (d ∷ e ∷ r) n = ground arith

found_relative_ref_name :
    (behind r : List ℕ) (t : Tail)
    → IsPlain r
    → found_relative_ref behind (r ++ tail_bytes t) ≡ some (behind_satisfied behind && ends r)
unfolding found_relative_ref
found_relative_ref_name behind [] (terminator rest) plain = refl
found_relative_ref_name behind [] (separator c rest) plain = refl
found_relative_ref_name behind (c ∷ r) t plain =
    rw (==_of_ne c 0 plain.0, or_false (c == path_separator)) refl

found_parent_ref_name :
    (behind r : List ℕ) (t : Tail)
    → IsPlain r
    → found_parent_ref behind (r ++ tail_bytes t)
      ≡ some (behind_satisfied behind && ends_after_dot r)
unfolding found_parent_ref
found_parent_ref_name behind [] (terminator []) plain =
    rw (and_false (behind_satisfied behind)) refl
found_parent_ref_name behind [] (terminator (x ∷ rest)) plain =
    rw (and_false (behind_satisfied behind)) refl
found_parent_ref_name behind [] (separator c rest) plain =
    rw (and_false (behind_satisfied behind)) refl
found_parent_ref_name behind (c ∷ []) (terminator rest) plain =
    rw (==_of_ne c 0 plain.0, and_assoc (behind_satisfied behind) (c == dot) true) refl
found_parent_ref_name behind (c ∷ []) (separator d rest) plain =
    rw (==_of_ne c 0 plain.0, and_assoc (behind_satisfied behind) (c == dot) true) refl
found_parent_ref_name behind (c ∷ d ∷ r) t plain =
    rw
      (
        ==_of_ne c 0 plain.0,
        ==_of_ne d 0 plain.2.0,
        or_false (d == path_separator),
        and_assoc (behind_satisfied behind) (c == dot) (d == path_separator),
      )
      refl

pub IsPlain-rest : (r rest : List ℕ) → IsPlain (r ++ rest) → IsPlain rest
IsPlain-rest [] rest plain = plain
IsPlain-rest (c ∷ r) rest plain = IsPlain-rest r rest plain.2

-- Behind a character of a name no component starts.
pub behind_character :
    (r rest : List ℕ) (c : ℕ) (behind : List ℕ)
    → IsPlain (c ∷ (r ++ rest))
    → behind_satisfied (reverse_aux (c ∷ r) behind) ≡ false
behind_character [] rest c behind plain = ==_of_ne c path_separator plain.1
behind_character (d ∷ r) rest c behind plain = behind_character r rest d (c ∷ behind) plain.2

pub reverse_aux_append :
    (xs ys acc : List ℕ) → reverse_aux (xs ++ ys) acc ≡ reverse_aux ys (reverse_aux xs acc)
reverse_aux_append [] ys acc = refl
reverse_aux_append (x ∷ xs) ys acc = reverse_aux_append xs ys (x ∷ acc)

module _ (a : Addresses) (out_len : ℕ) where
  pub round_at_name :
      (behind r : List ℕ) (t : Tail) (c w : ℕ) (bytes : ℕ → ℕ)
      → IsPlain (c ∷ r)
      → classify (behind_satisfied behind) c r ≡ kept
      → round_at a out_len 0
          (scan behind (c ∷ (r ++ tail_bytes t)) w bytes)
          (c ∷ (r ++ tail_bytes t))
        ≡ write_char a out_len (scan behind (c ∷ (r ++ tail_bytes t)) w bytes)
  unfolding round_at dot_case
  round_at_name behind r t c w bytes plain keep =
      rw (==_of_ne c 0 plain.0, ==_of_ne c path_separator plain.1)
        (elim (Bool-cases (c == dot)) [
          | inl d ↦
              let no =
                no_reference (behind_satisfied behind) c r (==_of_ne c path_separator plain.1) d
                  keep in
              rw
                (
                  d,
                  dot_case,
                  found_relative_ref_name behind r t plain.2,
                  no.0,
                  found_parent_ref_name behind r t plain.2,
                  no.1,
                )
                refl
          | inr d ↦ rw d refl
        ])

  -- One character of a name, and the bytes behind it.
  Scanned-cons :
      (behind r rest out final : List ℕ) (t : Tail) (c : ℕ) (bytes : ℕ → ℕ)
      → IsPlain (c ∷ (r ++ rest))
      → utf8_char_len c ≡ suc (length r)
      → classify (behind_satisfied behind) c (r ++ rest) ≡ kept
      → length out + length (c ∷ (r ++ rest)) < out_len
      → written bytes (length out) ≡ out
      → ((behind' : List ℕ) (bytes' : ℕ → ℕ)
          → behind_satisfied behind' ≡ false
          → written bytes' (length (reverse_aux (c ∷ r) out)) ≡ reverse_aux (c ∷ r) out
          → Scanned a out_len
              (length rest)
              false
              (tail_bytes t)
              final
              (scan behind' (rest ++ tail_bytes t) (length (reverse_aux (c ∷ r) out)) bytes'))
      → Scanned a out_len
          (length (c ∷ (r ++ rest)))
          false
          (tail_bytes t)
          final
          (scan behind (c ∷ ((r ++ rest) ++ tail_bytes t)) (length out) bytes)
  Scanned-cons behind r rest out final t c bytes plain size keep room holds next =
      Scanned-weaken a out_len _ (omega (arith, length-append r rest)) (
        Scanned-trans a out_len
          (Scanned-character a out_len
            (scan behind (c ∷ ((r ++ rest) ++ tail_bytes t)) (length out) bytes) c r behind
            (rest ++ tail_bytes t) out bytes size (omega (arith, length-append r rest)) holds
            (rw (← append_assoc r rest (tail_bytes t))
              (round_at_name behind (r ++ rest) t c (length out) bytes plain keep)))
          (λ behind' bytes' place'.
            next behind' bytes' (place' ∙ behind_character r rest c behind plain)))

  -- The bytes of a name behind its first character.
  Scanned-inside :
      (behind r out : List ℕ) (t : Tail) (bytes : ℕ → ℕ)
      → IsText r
      → IsPlain r
      → behind_satisfied behind ≡ false
      → length out + length r < out_len
      → written bytes (length out) ≡ out
      → Scanned a out_len
          (length r)
          false
          (tail_bytes t)
          (reverse_aux r out)
          (scan behind (r ++ tail_bytes t) (length out) bytes)
  Scanned-inside behind _ out t bytes nothing plain place room holds =
      Scanned-none a out_len behind (tail_bytes t) out bytes false place holds
  Scanned-inside behind _ out t bytes (character c r rest size text) plain place room holds =
      Scanned-cons behind r rest out _ t c bytes plain size
        (rw place (classify_inside c (r ++ rest) plain.1)) room holds
        (λ behind' bytes' place' holds'. rw (reverse_aux_append r rest (c ∷ out)) (
          Scanned-inside behind' rest (reverse_aux (c ∷ r) out) t bytes' text
            (IsPlain-rest (c ∷ r) rest plain) place'
            (omega (arith, length-append r rest, length-reverse_aux (c ∷ r) out)) holds'))

  -- A whole name, at the start of a component.
  pub Scanned-name :
      (behind n out : List ℕ) (t : Tail) (bytes : ℕ → ℕ)
      → IsName n
      → behind_satisfied behind ≡ true
      → length out + length n < out_len
      → written bytes (length out) ≡ out
      → Scanned a out_len
          (length n)
          false
          (tail_bytes t)
          (reverse_aux n out)
          (scan behind (n ++ tail_bytes t) (length out) bytes)
  Scanned-name behind n out t bytes (plain, some_byte, no_self, no_parent, nothing) place room
        holds =
      absurd (some_byte refl)
  Scanned-name behind n out t bytes
        (plain, some_byte, no_self, no_parent, character c r rest size text) place room holds =
      Scanned-cons behind r rest out _ t c bytes plain size
        (rw place (
          classify_first c (r ++ rest)
            (plain, some_byte, no_self, no_parent, character c r rest size text)))
        room holds
        (λ behind' bytes' place' holds'. rw (reverse_aux_append r rest (c ∷ out)) (
          Scanned-inside behind' rest (reverse_aux (c ∷ r) out) t bytes' text
            (IsPlain-rest (c ∷ r) rest plain) place'
            (omega (arith, length-append r rest, length-reverse_aux (c ∷ r) out)) holds'))
