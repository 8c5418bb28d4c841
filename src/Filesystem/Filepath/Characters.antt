-- ===== src/Filesystem/Filepath/Characters.antt =====
-- Whole characters: a round writes all the bytes of one, as many as its leading byte says.
use mathlib.Core.List.{reverse_aux}
use libdane.Base.{
  ℕ, suc, ◌+◌, ◌≤◌, ◌<◌, ◌≡◌, refl, ap, ◌∙◌, arith, true, false, some, List, [], ◌∷◌, ◌++◌, length,
  leb, length-reverse_aux,
}
use libdane.Platform.Paths.{write_char_encoding_to}
use libdane.Utils.Encodings.{utf8_char_len, utf8_write_char, copy_bytes, put}
use libdane.Filesystem.PlatformWrap.{write_char_to}
use libdane.Filesystem.Filepath.{
  Addresses, State, more, write_char, round_at, behind_satisfied, advance,
}
use libdane.Filesystem.Filepath.Written.{written, written-put}
use libdane.Filesystem.Filepath.Runs.{scan, Runs-one, Scanned}

abbrev pub put_all : (ℕ → ℕ) → ℕ → List ℕ → ℕ → ℕ
put_all b at [] = b
put_all b at (c ∷ cs) = put_all (put b at c) (at + 1) cs

copy_bytes-put_all :
    (b : ℕ → ℕ) (at : ℕ) (cs next : List ℕ)
    → copy_bytes (length cs) (cs ++ next) b at ≡ some (put_all b at cs)
unfolding copy_bytes
copy_bytes-put_all b at [] next = refl
copy_bytes-put_all b at (c ∷ cs) next = copy_bytes-put_all (put b at c) (at + 1) cs next

pub written-put_all :
    (b : ℕ → ℕ) (w : ℕ) (cs : List ℕ)
    → written (put_all b w cs) (w + length cs) ≡ reverse_aux cs (written b w)
written-put_all b w [] = rw same refl
  where
    same : w + 0 ≡ w
    same = omega arith
written-put_all b w (c ∷ cs) =
    rw shift (written-put_all (put b w c) (w + 1) cs) ∙ ap (reverse_aux cs) here
  where
    shift : w + suc (length cs) ≡ w + 1 + length cs
    shift = omega arith

    next : w + 1 ≡ suc w
    next = omega arith

    here : written (put b w c) (w + 1) ≡ c ∷ written b w
    here = rw next (written-put b w c)

advance-append :
    (cs next behind : List ℕ) (w : ℕ) (b : ℕ → ℕ)
    → advance (length cs) (scan behind (cs ++ next) w b) ≡ scan (reverse_aux cs behind) next w b
advance-append [] next behind w b = refl
advance-append (c ∷ cs) next behind w b = advance-append cs next (c ∷ behind) w b

module _ (a : Addresses) (out_len : ℕ) where
  pub write_utf8 :
      (w c : ℕ) (r next : List ℕ) (b : ℕ → ℕ)
      → utf8_char_len c ≡ suc (length r)
      → w + suc (length r) ≤ out_len
      → write_char_to out_len b w (c ∷ (r ++ next)) ≡ some (put_all b w (c ∷ r), suc (length r))
  unfolding write_char_to write_char_encoding_to utf8_write_char
  write_utf8 w c r next b size room =
      rw (size, room_before, copy_bytes-put_all b w (c ∷ r) next)
        (ap (λ n. some (put_all b w (c ∷ r), n)) size)
    where
      room_before : leb (w + suc (length r)) out_len ≡ true
      room_before = ground arith

  write_char_utf8 :
      (behind next : List ℕ) (w c : ℕ) (r : List ℕ) (b : ℕ → ℕ)
      → utf8_char_len c ≡ suc (length r)
      → w + suc (length r) < out_len
      → write_char a out_len (scan behind (c ∷ (r ++ next)) w b)
        ≡ more (scan (reverse_aux (c ∷ r) behind) next (w + suc (length r)) (put_all b w (c ∷ r)))
  unfolding write_char
  write_char_utf8 behind next w c r b size room =
      rw
        (
          write_char,
          write_utf8 w c r next b size (omega arith),
          room_behind,
          advance-append r next (c ∷ behind) (w + suc (length r)) (put_all b w (c ∷ r)),
        )
        refl
    where
      room_behind : leb out_len (w + suc (length r)) ≡ false
      room_behind = ground arith

  -- A round that writes a whole character.
  pub Scanned-character :
      (s : State) (c : ℕ) (r behind next out : List ℕ) (b : ℕ → ℕ)
      → utf8_char_len c ≡ suc (length r)
      → length out + suc (length r) < out_len
      → written b (length out) ≡ out
      → round_at a out_len 0 s s.ahead
        ≡ write_char a out_len (scan behind (c ∷ (r ++ next)) (length out) b)
      → Scanned a out_len 1
          (behind_satisfied (reverse_aux (c ∷ r) behind))
          next
          (reverse_aux (c ∷ r) out)
          s
  Scanned-character s c r behind next out b size room holds round = record {
    behind = reverse_aux (c ∷ r) behind;
    bytes = put_all b (length out) (c ∷ r);
    runs =
        Runs-one a out_len s _
          (round ∙ write_char_utf8 behind next (length out) c r b size room ∙ rw length_next refl);
    place = refl;
    holds =
        rw length_next (written-put_all b (length out) (c ∷ r) ∙ ap (reverse_aux (c ∷ r)) holds);
  }
    where
      length_next : length (reverse_aux (c ∷ r) out) ≡ length out + suc (length r)
      length_next = omega (arith, length-reverse_aux (c ∷ r) out)
