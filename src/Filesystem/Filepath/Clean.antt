-- ===== src/Filesystem/Filepath/Clean.antt =====
-- Paths without anything to normalise.
use libdane.Base.{
  ℕ, zero, suc, ◌+◌, ◌<◌, ◌≡◌, refl, ap, sym, ◌∙◌, arith, some, true, List, [], ◌∷◌, ◌++◌, length,
  length-append, lt→ltb, ==_of_ne, ==_iff,
}
use libdane.Common.{libd_ok}
use libdane.Utils.Encodings.{put}
use libdane.Filesystem.Filepath.{
  Addresses, done, behind_satisfied, terminate, round_at, normalize_loop, copy_prefix, normalize,
}
use libdane.Filesystem.Filepath.Spec.{IsClean}
use libdane.Filesystem.Filepath.Steps.{round_at_kept, write_char_ascii}

-- A buffer with these bytes written from an offset on.
abbrev pub stored : (ℕ → ℕ) → ℕ → List ℕ → ℕ → ℕ
stored bytes w [] = bytes
stored bytes w (c ∷ cs) = stored (put bytes w c) (w + 1) cs

stored-append :
    (bytes : ℕ → ℕ) (w : ℕ) (xs : List ℕ) (x : ℕ)
    → stored bytes w (xs ++ x ∷ []) ≡ put (stored bytes w xs) (w + length xs) x
stored-append bytes w [] x = rw here refl
  where
    here : w + 0 ≡ w
    here = omega arith
stored-append bytes w (y ∷ xs) x = rw next (stored-append (put bytes w y) (w + 1) xs x)
  where
    next : w + suc (length xs) ≡ w + 1 + length xs
    next = omega arith

stored_below : (bytes : ℕ → ℕ) (w q : ℕ) (xs : List ℕ) → q < w → stored bytes w xs q ≡ bytes q
stored_below bytes w q [] h = refl
stored_below bytes w q (x ∷ xs) h =
    stored_below (put bytes w x) (w + 1) q xs (omega arith)
    ∙ rw (==_of_ne q w (λ e. omega arith)) refl

-- The bytes of a buffer from an offset on.
abbrev pub bytes_at : (ℕ → ℕ) → ℕ → ℕ → List ℕ
bytes_at bytes w zero = []
bytes_at bytes w (suc n) = bytes w ∷ bytes_at bytes (w + 1) n

bytes_at-stored :
    (bytes : ℕ → ℕ) (w : ℕ) (xs : List ℕ) → bytes_at (stored bytes w xs) w (length xs) ≡ xs
bytes_at-stored bytes w [] = refl
bytes_at-stored bytes w (x ∷ xs) =
    rw
      (
        bytes_at-stored (put bytes w x) (w + 1) xs,
        stored_below (put bytes w x) (w + 1) w xs (omega arith),
        (==_iff w w).1 refl,
      )
      refl

module _ (a : Addresses) (out_len : ℕ) where
  normalize_loop-stored :
      (fuel start w : ℕ) (behind content rest : List ℕ) (bytes : ℕ → ℕ)
      → IsClean (behind_satisfied behind) content
      → length content < fuel
      → w + length content < out_len
      → normalize_loop a out_len fuel start
          (record { behind = behind; ahead = content ++ 0 ∷ rest; write_pos = w; bytes = bytes })
        ≡ done libd_ok (put (stored bytes w content) (w + length content) 0)
  unfolding normalize_loop round_at terminate
  normalize_loop-stored zero start w behind content rest bytes clean enough room =
      absurd (omega arith)
  normalize_loop-stored (suc fuel) start w behind [] rest bytes clean enough room =
      rw (normalize_loop, lt→ltb w out_len (omega arith), same) refl
    where
      same : w + 0 ≡ w
      same = omega arith
  normalize_loop-stored (suc fuel) start w behind (c ∷ cs) rest bytes clean enough room =
      rw
        (
          normalize_loop,
          round_at_kept a out_len start c w behind cs rest bytes clean.1 clean.2 clean.3,
          write_char_ascii a out_len behind (cs ++ 0 ∷ rest) w c bytes clean.0 (omega arith),
          total,
        )
        (normalize_loop-stored fuel start (w + 1) (c ∷ behind) cs rest (put bytes w c) clean.3
          (omega arith) (omega arith))
    where
      total : w + suc (length cs) ≡ w + 1 + length cs
      total = omega arith

  normalize-stored :
      (fuel c : ℕ) (cs rest : List ℕ) (bytes : ℕ → ℕ)
      → IsClean true (c ∷ cs)
      → length (c ∷ cs) < fuel
      → length (c ∷ cs) < out_len
      → normalize a out_len fuel true bytes (some (c ∷ (cs ++ 0 ∷ rest)))
        ≡ done libd_ok (put (stored bytes 0 (c ∷ cs)) (0 + length (c ∷ cs)) 0)
  unfolding normalize copy_prefix
  normalize-stored fuel c cs rest bytes clean enough room =
      rw (==_of_ne out_len 0 (λ e. omega arith), ==_of_ne c 0 clean.1)
        (normalize_loop-stored fuel 0 0 [] (c ∷ cs) rest bytes clean enough (omega arith))

  -- A clean path that is not empty and leaves room for the terminator is its own normal form: with
  -- more fuel than bytes, `normalize` returns `libd_ok`, and the output is the path and a terminator.
  pub normalize_clean :
      (fuel c : ℕ) (cs rest : List ℕ) (bytes : ℕ → ℕ)
      → IsClean true (c ∷ cs)
      → length (c ∷ cs) < fuel
      → length (c ∷ cs) < out_len
      → (out : ℕ → ℕ) × (normalize a out_len fuel true bytes (some (c ∷ (cs ++ 0 ∷ rest)))
          ≡ done libd_ok out)
        × (bytes_at out 0 (length (c ∷ cs) + 1) ≡ c ∷ (cs ++ 0 ∷ []))
  normalize_clean fuel c cs rest bytes clean enough room = (
    stored bytes 0 (c ∷ (cs ++ 0 ∷ [])),
    normalize-stored fuel c cs rest bytes clean enough room
        ∙ ap (done libd_ok) (sym (stored-append bytes 0 (c ∷ cs) 0)),
    rw (sym size) (bytes_at-stored bytes 0 (c ∷ (cs ++ 0 ∷ []))),
  )
    where
      size : length (c ∷ (cs ++ 0 ∷ [])) ≡ length (c ∷ cs) + 1
      size = omega (arith, length-append cs (0 ∷ []))
