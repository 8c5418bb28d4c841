-- ===== src/Filesystem/Filepath/Room.antt =====
-- A name without room in the output: `normalize` tests the room behind the write of a character.
pub mod Writes
use mathlib.Core.List.{reverse, reverse_aux, append_assoc, append-nil}
use libdane.Base.{
  ℕ, suc, ◌+◌, ◌-◌, ◌<◌, ◌≡◌, refl, ap, ◌∙◌, arith, true, false, none, some, List, [], ◌∷◌, ◌++◌,
  length, leb, length-reverse_aux, length-append,
}
use libdane.Common.{libd_err}
use libdane.Platform.Paths.{write_char_encoding_to}
use libdane.Utils.Encodings.{utf8_char_len, utf8_write_char}
use libdane.Filesystem.PlatformWrap.{write_char_to}
use libdane.Filesystem.Filepath.{
  Addresses, Outcome, done, fault, stop, write_char, round_at, normalize_loop, normalize,
  behind_satisfied,
}
use libdane.Filesystem.Filepath.Spec.{classify, kept}
use libdane.Filesystem.Filepath.Clean.{bytes_at}
use libdane.Filesystem.Filepath.Written.{written, bytes_at-written}
use libdane.Filesystem.Filepath.Walk.{IsPlain, IsText, nothing, character, IsName}
use libdane.Filesystem.Filepath.Characters.{put_all, written-put_all, write_utf8, Scanned-character}
use libdane.Filesystem.Filepath.Runs.{scan, Scanned-weaken}
use libdane.Filesystem.Filepath.Names.{
  Tail, tail_bytes, classify_inside, classify_first, IsPlain-rest, behind_character,
  reverse_aux_append, round_at_name,
}
use libdane.Filesystem.Filepath.Stack.{reverse-reverse_aux}
use libdane.Filesystem.Filepath.General.Ends.{EndsIn, EndsIn-stop, EndsIn-trans}
use libdane.Filesystem.Filepath.General.Refine.{normalize-normalize_loop}
use libdane.Filesystem.Filepath.Room.Writes.{write_char_full, write_char_outside}

-- The first byte of a name is kept.
abbrev KeepsFirst : List ℕ → List ℕ → Type 0
KeepsFirst behind [] = Unit {0}
KeepsFirst behind (c ∷ r) = classify (behind_satisfied behind) c r ≡ kept

plain-KeepsFirst :
    (behind xs : List ℕ) → IsPlain xs → behind_satisfied behind ≡ false → KeepsFirst behind xs
plain-KeepsFirst behind [] plain place = tt
plain-KeepsFirst behind (c ∷ r) plain place = rw place (classify_inside c r plain.1)

module _ (a : Addresses) (out_len : ℕ) where
  -- How the loop ends at a character that takes the output to `total` bytes, the room or more:
  -- with `libd_err` if it fills the room, and with a write behind the output if it does not fit.
  abbrev OutOfRoom : ℕ → List ℕ → Outcome → Type 0
  OutOfRoom total out r =
      (total ≡ out_len → (b : ℕ → ℕ) × (r ≡ done libd_err b) × (written b total ≡ out))
      × (out_len < total → r ≡ fault)

  -- The character that takes the output to its end, or behind it.
  character-EndsIn :
      (behind r rest out : List ℕ) (t : Tail) (c : ℕ) (bytes : ℕ → ℕ)
      → utf8_char_len c ≡ suc (length r)
      → IsPlain (c ∷ (r ++ rest))
      → KeepsFirst behind (c ∷ (r ++ rest))
      → written bytes (length out) ≡ out
      → EndsIn a out_len 0
          (OutOfRoom (length out + suc (length r)) (reverse_aux (c ∷ r) out))
          (scan behind (c ∷ ((r ++ rest) ++ tail_bytes t)) (length out) bytes)
  character-EndsIn behind r rest out t c bytes size plain keeps holds fuel = (
    λ fills.
        EndsIn-stop a out_len 0
          (λ o.
            (b : ℕ → ℕ) × (o ≡ done libd_err b)
            × (written b (length out + suc (length r)) ≡ reverse_aux (c ∷ r) out))
          (scan behind (c ∷ ((r ++ rest) ++ tail_bytes t)) (length out) bytes)
          (done libd_err (put_all bytes (length out) (c ∷ r)))
          (round
            ∙ rw (append_assoc r rest (tail_bytes t)) (
                write_char_full a out_len behind (rest ++ tail_bytes t) (length out) c r bytes size
                  fills))
          (
            put_all bytes (length out) (c ∷ r),
            refl,
            written-put_all bytes (length out) (c ∷ r) ∙ ap (reverse_aux (c ∷ r)) holds,
          )
          fuel,
    λ outside.
        EndsIn-stop a out_len 0 (λ o. o ≡ fault)
          (scan behind (c ∷ ((r ++ rest) ++ tail_bytes t)) (length out) bytes) fault
          (round
            ∙ write_char_outside a out_len behind ((r ++ rest) ++ tail_bytes t) (length out) c bytes
                (omega (arith, size)))
          refl fuel,
  )
    where
      round :
          round_at a out_len 0
            (scan behind (c ∷ ((r ++ rest) ++ tail_bytes t)) (length out) bytes)
            (c ∷ ((r ++ rest) ++ tail_bytes t))
          ≡ write_char a out_len
              (scan behind (c ∷ ((r ++ rest) ++ tail_bytes t)) (length out) bytes)
      round = round_at_name a out_len behind (r ++ rest) t c (length out) bytes plain keeps

  -- A character with room behind it.
  cons-EndsIn :
      (behind s r out : List ℕ) (t : Tail) (d k : ℕ) (bytes : ℕ → ℕ) (IsSo : Outcome → Type 0)
      → utf8_char_len d ≡ suc (length s)
      → IsPlain (d ∷ (s ++ r))
      → KeepsFirst behind (d ∷ (s ++ r))
      → length out + suc (length s) < out_len
      → written bytes (length out) ≡ out
      → ((behind' : List ℕ) (bytes' : ℕ → ℕ)
          → behind_satisfied behind' ≡ false
          → written bytes' (length (reverse_aux (d ∷ s) out)) ≡ reverse_aux (d ∷ s) out
          → EndsIn a out_len k IsSo
              (scan behind' (r ++ tail_bytes t) (length (reverse_aux (d ∷ s) out)) bytes'))
      → EndsIn a out_len
          (suc (length s) + k)
          IsSo
          (scan behind (d ∷ ((s ++ r) ++ tail_bytes t)) (length out) bytes)
  cons-EndsIn behind s r out t d k bytes IsSo size plain keeps room holds rest =
      EndsIn-trans a out_len k IsSo
        (Scanned-weaken a out_len (suc (length s)) (omega arith) (
          Scanned-character a out_len
            (scan behind (d ∷ ((s ++ r) ++ tail_bytes t)) (length out) bytes) d s behind
            (r ++ tail_bytes t) out bytes size room holds
            (rw (← append_assoc s r (tail_bytes t))
              (round_at_name a out_len behind (s ++ r) t d (length out) bytes plain keeps))))
        (λ behind' bytes' place'.
          rest behind' bytes' (place' ∙ behind_character s r d behind plain))

  -- The characters before it fit.
  name-EndsIn :
      (behind m r rest out : List ℕ) (t : Tail) (c : ℕ) (bytes : ℕ → ℕ)
      → IsText m
      → utf8_char_len c ≡ suc (length r)
      → IsPlain (m ++ (c ∷ (r ++ rest)))
      → KeepsFirst behind (m ++ (c ∷ (r ++ rest)))
      → length out + length m < out_len
      → written bytes (length out) ≡ out
      → EndsIn a out_len
          (length m)
          (OutOfRoom
            (length out + length m + suc (length r))
            (reverse_aux (c ∷ r) (reverse_aux m out)))
          (scan behind ((m ++ (c ∷ (r ++ rest))) ++ tail_bytes t) (length out) bytes)
  name-EndsIn behind _ r rest out t c bytes nothing size plain keeps room holds =
      rw same (character-EndsIn behind r rest out t c bytes size plain keeps holds)
    where
      same : length out + 0 + suc (length r) ≡ length out + suc (length r)
      same = omega arith
  name-EndsIn behind _ r rest out t c bytes (character d s m size' text) size plain keeps room
        holds =
      rw (append_assoc s m (c ∷ (r ++ rest)), count, total, reverse_aux_append s m (d ∷ out))
        (cons-EndsIn behind s (m ++ (c ∷ (r ++ rest))) out t d (length m) bytes
          (OutOfRoom (length (reverse_aux (d ∷ s) out) + length m + suc (length r))
            (reverse_aux (c ∷ r) (reverse_aux m (reverse_aux (d ∷ s) out))))
          size' plain' (rw (append_assoc s m (c ∷ (r ++ rest))) at keeps)
          (omega (arith, length-append s m)) holds
          (λ behind' bytes' place' holds'.
            name-EndsIn behind' m r rest (reverse_aux (d ∷ s) out) t c bytes' text size
              (IsPlain-rest (d ∷ s) _ plain')
              (plain-KeepsFirst behind' _ (IsPlain-rest (d ∷ s) _ plain') place')
              (omega (arith, length-append s m, length-reverse_aux (d ∷ s) out)) holds'))
    where
      plain' : IsPlain (d ∷ (s ++ (m ++ (c ∷ (r ++ rest)))))
      plain' = rw (append_assoc s m (c ∷ (r ++ rest))) at plain

      count : length (d ∷ (s ++ m)) ≡ suc (length s) + length m
      count = omega (arith, length-append s m)

      total :
          length out + (suc (length s) + length m) + suc (length r)
          ≡ length (reverse_aux (d ∷ s) out) + length m + suc (length r)
      total = omega (arith, length-reverse_aux (d ∷ s) out)

  name-KeepsFirst : (n : List ℕ) → IsName n → KeepsFirst [] n
  name-KeepsFirst [] is = tt
  name-KeepsFirst (c ∷ r) is = classify_first c r is

  -- A path begins with a name, and its characters `m` fit the output, with room behind them. If the
  -- next character fills the output, `normalize` returns `libd_err`, and the output has the bytes up
  -- to there; if the character does not fit, `normalize` writes behind the output. Fuel for one
  -- round more than `m` has bytes is enough.
  pub normalize_no_room :
      (fuel c : ℕ) (m r rest : List ℕ) (t : Tail) (bytes : ℕ → ℕ)
      → IsText m
      → utf8_char_len c ≡ suc (length r)
      → IsName (m ++ (c ∷ (r ++ rest)))
      → length m < out_len
      → length m < fuel
      → let o =
          normalize a out_len fuel true bytes (some ((m ++ (c ∷ (r ++ rest))) ++ tail_bytes t)) in
        (length m + suc (length r) ≡ out_len
          → (b : ℕ → ℕ) × (o ≡ done libd_err b) × (bytes_at b 0 out_len ≡ m ++ c ∷ r))
        × (out_len < length m + suc (length r) → o ≡ fault)
  normalize_no_room fuel c m r rest t bytes text size is room enough =
      rw (start m is, count)
        (
          λ fills. let (b, e, holds) = ends.0 (omega arith) in (b, e, output_eq b fills holds),
          λ outside. ends.1 (omega arith),
        )
    where
      ends : OutOfRoom (0 + length m + suc (length r)) (reverse_aux (c ∷ r) (reverse_aux m [])) (
          normalize_loop a out_len
            (length m + suc (fuel - length m - 1))
            0
            (scan [] ((m ++ (c ∷ (r ++ rest))) ++ tail_bytes t) 0 bytes))
      ends =
          name-EndsIn [] m r rest [] t c bytes text size is.0 (name-KeepsFirst _ is) (omega arith)
            refl (fuel - length m - 1)

      count : fuel ≡ length m + suc (fuel - length m - 1)
      count = omega arith

      whole : reverse (reverse_aux (c ∷ r) (reverse_aux m [])) ≡ m ++ c ∷ r
      whole =
          reverse-reverse_aux (c ∷ r) (reverse_aux m []) []
          ∙ reverse-reverse_aux m [] ((c ∷ r) ++ [])
          ∙ ap (λ xs. m ++ xs) (append-nil (c ∷ r))

      output_eq :
          (b : ℕ → ℕ)
          → length m + suc (length r) ≡ out_len
          → written b (0 + length m + suc (length r)) ≡ reverse_aux (c ∷ r) (reverse_aux m [])
          → bytes_at b 0 out_len ≡ m ++ c ∷ r
      output_eq b fills holds =
          bytes_at-written b out_len
          ∙ ap (λ k. reverse (written b k)) same
          ∙ ap reverse holds
          ∙ whole
        where
          same : out_len ≡ 0 + length m + suc (length r)
          same = omega arith

      start :
          (m' : List ℕ)
          → IsName (m' ++ (c ∷ (r ++ rest)))
          → normalize a out_len fuel true bytes (some ((m' ++ (c ∷ (r ++ rest))) ++ tail_bytes t))
            ≡ normalize_loop a out_len fuel 0
                (scan [] ((m' ++ (c ∷ (r ++ rest))) ++ tail_bytes t) 0 bytes)
      start [] is' = normalize-normalize_loop a out_len fuel c _ bytes is'.0.0 (omega arith)
      start (d ∷ m') is' = normalize-normalize_loop a out_len fuel d _ bytes is'.0.0 (omega arith)
