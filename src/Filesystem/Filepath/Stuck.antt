-- ===== src/Filesystem/Filepath/Stuck.antt =====
-- A byte that leads no character, on which the loop of `normalize` makes no progress.
use libdane.Base.{
  ℕ, zero, suc, ◌+◌, ◌<◌, ◌≡◌, ◌≢◌, refl, ap, arith, true, false, some, List, ◌∷◌, leb, ==_of_ne,
}
use libdane.Platform.Paths.{path_separator, write_char_encoding_to}
use libdane.Utils.Encodings.{utf8_char_len, utf8_write_char, copy_bytes}
use libdane.Filesystem.PlatformWrap.{write_char_to}
use libdane.Filesystem.Filepath.{out_of_fuel, Addresses, more, write_char, round_at, normalize_loop}

lt_leb : (w n : ℕ) → w < n → (leb (w + 0) n ≡ true) × (leb n w ≡ false)
lt_leb w n h = ground arith

module _ (a : Addresses) (out_len : ℕ) where
  write_stuck :
      (w c : ℕ) (next : List ℕ) (bytes : ℕ → ℕ)
      → utf8_char_len c ≡ 0
      → w < out_len
      → write_char_to out_len bytes w (c ∷ next) ≡ some (bytes, 0)
  unfolding write_char_to write_char_encoding_to utf8_write_char copy_bytes
  write_stuck w c next bytes len room =
      rw (len, (lt_leb w out_len room).0) (ap (λ n. some (bytes, n)) len)

  write_char_stuck :
      (w c : ℕ) (behind next : List ℕ) (bytes : ℕ → ℕ)
      → utf8_char_len c ≡ 0
      → w < out_len
      → write_char a out_len
          (record { behind = behind; ahead = c ∷ next; write_pos = w; bytes = bytes })
        ≡ more (record { behind = behind; ahead = c ∷ next; write_pos = w; bytes = bytes })
  unfolding write_char
  write_char_stuck w c behind next bytes len room =
      rw (write_char, write_stuck w c next bytes len room, same, (lt_leb w out_len room).1) refl
    where
      same : w + 0 ≡ w
      same = omega arith

  round_at_stuck :
      (start w c : ℕ) (behind next : List ℕ) (bytes : ℕ → ℕ)
      → utf8_char_len c ≡ 0
      → c ≢ 0
      → c ≢ path_separator
      → c ≢ b'.'
      → w < out_len
      → round_at a out_len start
          (record { behind = behind; ahead = c ∷ next; write_pos = w; bytes = bytes })
          (c ∷ next)
        ≡ more (record { behind = behind; ahead = c ∷ next; write_pos = w; bytes = bytes })
  unfolding round_at
  round_at_stuck start w c behind next bytes len nz ns nd room =
      rw (==_of_ne c 0 nz, ==_of_ne c path_separator ns, ==_of_ne c b'.' nd)
        (write_char_stuck w c behind next bytes len room)

  -- At a byte that leads no UTF-8 character and is no terminator, separator or dot, with room in the
  -- output: the loop never ends, whatever is behind the byte.
  pub normalize_loop_stuck :
      (fuel write_path_start w c : ℕ) (behind next : List ℕ) (bytes : ℕ → ℕ)
      → utf8_char_len c ≡ 0
      → c ≢ 0
      → c ≢ path_separator
      → c ≢ b'.'
      → w < out_len
      → normalize_loop a out_len fuel write_path_start
          (record { behind = behind; ahead = c ∷ next; write_pos = w; bytes = bytes })
        ≡ out_of_fuel
  unfolding normalize_loop
  normalize_loop_stuck zero start w c behind next bytes len nz ns nd room = refl
  normalize_loop_stuck (suc fuel) start w c behind next bytes len nz ns nd room =
      rw (normalize_loop, round_at_stuck start w c behind next bytes len nz ns nd room)
        (normalize_loop_stuck fuel start w c behind next bytes len nz ns nd room)
