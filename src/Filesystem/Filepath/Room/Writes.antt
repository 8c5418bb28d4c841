-- ===== src/Filesystem/Filepath/Room/Writes.antt =====
-- The write of a character that fills the output, and of one that does not fit.
use libdane.Base.{
  ℕ, suc, ◌+◌, ◌<◌, ◌≡◌, refl, arith, true, false, none, List, ◌∷◌, ◌++◌, length, leb,
}
use libdane.Common.{libd_err}
use libdane.Platform.Paths.{write_char_encoding_to}
use libdane.Utils.Encodings.{utf8_char_len, utf8_write_char}
use libdane.Filesystem.PlatformWrap.{write_char_to}
use libdane.Filesystem.Filepath.{Addresses, done, fault, stop, write_char}
use libdane.Filesystem.Filepath.Characters.{put_all, write_utf8}
use libdane.Filesystem.Filepath.Runs.{scan}

module _ (a : Addresses) (out_len : ℕ) where
  write_outside :
      (w c : ℕ) (src : List ℕ) (b : ℕ → ℕ)
      → out_len < w + utf8_char_len c
      → write_char_to out_len b w (c ∷ src) ≡ none
  unfolding write_char_to write_char_encoding_to utf8_write_char
  write_outside w c src b outside = rw no_room refl
    where
      no_room : leb (w + utf8_char_len c) out_len ≡ false
      no_room = ground arith

  pub write_char_full :
      (behind next : List ℕ) (w c : ℕ) (r : List ℕ) (b : ℕ → ℕ)
      → utf8_char_len c ≡ suc (length r)
      → w + suc (length r) ≡ out_len
      → write_char a out_len (scan behind (c ∷ (r ++ next)) w b)
        ≡ stop (done libd_err (put_all b w (c ∷ r)))
  unfolding write_char
  write_char_full behind next w c r b size fills =
      rw (write_char, write_utf8 a out_len w c r next b size (omega arith), room_behind) refl
    where
      room_behind : leb out_len (w + suc (length r)) ≡ true
      room_behind = ground arith

  pub write_char_outside :
      (behind src : List ℕ) (w c : ℕ) (b : ℕ → ℕ)
      → out_len < w + utf8_char_len c
      → write_char a out_len (scan behind (c ∷ src) w b) ≡ stop fault
  unfolding write_char
  write_char_outside behind src w c b outside =
      rw (write_char, write_outside w c src b outside) refl
