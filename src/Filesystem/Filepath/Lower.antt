-- ===== src/Filesystem/Filepath/Lower.antt =====
-- `normalize` with an output that lies below the input: it compares the two addresses.
use mathlib.Core.Path.{subst}
use mathlib.Core.List.{reverse, reverse_aux}
use libdane.Base.{
  length-reverse_aux, ℕ, zero, suc, ◌+◌, ◌≤◌, ◌<◌, ◌≡◌, ◌≢◌, refl, ◌∙◌, arith, true, some, List, [],
  ◌∷◌, ◌++◌, length, ==_of_ne, le→ltb, ◌-◌,
}
use libdane.Platform.Paths.{path_separator}
use libdane.Filesystem.Filepath.{Addresses, normalize, back_up, behind_satisfied, dot}
use libdane.Filesystem.Filepath.Written.{written}
use libdane.Filesystem.Filepath.Walk.{
  name, parent, at_separator, separators, text, path_text, IsPlain, IsName,
}
use libdane.Filesystem.Filepath.Runs.{scan, Scanned, Runs-one}
use libdane.Filesystem.Filepath.References.{Scanned-separators, round_at_parent, parent_ref_run}
use libdane.Filesystem.Filepath.Components.{IsPart, text-IsPart, Scanned-component}
use libdane.Filesystem.Filepath.Refine.{Normalized}
use libdane.Filesystem.Filepath.General.{reached}
use libdane.Filesystem.Filepath.General.Ends.{reverse-segment, Ends, Ends-trans, Ends-terminator}
use libdane.Filesystem.Filepath.General.Refine.{normalize-normalize_loop}

last_byte :
    (d : ℕ) (n acc : List ℕ)
    → IsPlain (d ∷ n)
    → (c : ℕ) × (xs : List ℕ) × (c ≢ path_separator) × (reverse_aux (d ∷ n) acc ≡ c ∷ xs)
last_byte d [] acc plain = (d, acc, plain.1, refl)
last_byte d (e ∷ n) acc plain = last_byte e n (d ∷ acc) plain.2

-- The output for a name at the root, without the separator at the end.
abbrev below : List ℕ → List ℕ
below n = reverse_aux n (path_separator ∷ [])

module _ (a : Addresses) (out_len : ℕ) where
  -- With an output below the input, the inner loop of a parent reference stops at once.
  back_up_lower :
      (bytes : ℕ → ℕ) (w c : ℕ) (xs : List ℕ)
      → a.out_path + w ≤ a.input_path
      → c ≢ path_separator
      → written bytes w ≡ c ∷ xs
      → back_up a bytes w ≡ some w
  unfolding back_up
  back_up_lower bytes zero c xs lower ns e = cc
  back_up_lower bytes (suc w) c xs lower ns e =
      rw
        (
          ==_of_ne (bytes w) path_separator (rw here ns),
          le→ltb (a.input_path + 0) (a.out_path + suc w) (omega arith),
        )
        refl
    where
      here : bytes w ≡ c
      here = cc

  -- `..` then takes the separator off the output, and leaves the name.
  Scanned-lower :
      (behind next n : List ℕ) (bytes : ℕ → ℕ)
      → a.out_path + (length n + 1) ≤ a.input_path
      → IsName n
      → behind_satisfied behind ≡ true
      → written bytes (length (path_separator ∷ below n)) ≡ path_separator ∷ below n
      → Scanned a out_len 1 true next (below n) (
          scan behind (dot ∷ dot ∷ path_separator ∷ next) (length (path_separator ∷ below n)) bytes)
  Scanned-lower behind next [] bytes lower is place holds = absurd (is.1 refl)
  Scanned-lower behind next (d ∷ n) bytes lower is place holds = record {
    behind = path_separator ∷ dot ∷ dot ∷ behind;
    bytes = bytes;
    runs = Runs-one a out_len _ _ (
        round_at_parent a out_len behind next path_separator _ bytes refl place
        ∙ parent_ref_run a out_len behind (dot ∷ dot ∷ path_separator ∷ next) bytes _ _
            (back_up_lower bytes _ last.0 last.1 (omega (arith, size)) last.2 (inner ∙ last.3))
            (omega (arith, size)));
    place = refl;
    holds = inner;
  }
    where
      inner : written bytes (length (below (d ∷ n))) ≡ below (d ∷ n)
      inner = cc

      last : (c : ℕ) × (xs : List ℕ) × (c ≢ path_separator) × (below (d ∷ n) ≡ c ∷ xs)
      last = last_byte d n (path_separator ∷ []) is.0

      size : length (below (d ∷ n)) ≡ length (d ∷ n) + 1
      size = length-reverse_aux (d ∷ n) (path_separator ∷ [])

  -- With an output that lies below the input, far enough for a name, and has room, `..` behind a name
  -- at the root does not take the name away: `normalize` returns `libd_ok` with the name as its
  -- output.
  pub normalize_lower_output :
      (fuel lead extra : ℕ) (n rest : List ℕ) (bytes : ℕ → ℕ)
      → a.out_path + (length n + 1) ≤ a.input_path
      → IsName n
      → length n + 2 < out_len
      → length n + 4 < fuel
      → Normalized (some (path_separator ∷ n)) (
          normalize a out_len fuel true bytes
            (some (path_text lead (name n extra ∷ parent ∷ []) at_separator rest)))
  normalize_lower_output fuel lead extra n rest bytes lower is room enough =
      rw
        (
          normalize-normalize_loop a out_len fuel path_separator (separators lead ++ ahead) bytes
              (omega arith) (omega arith),
          count,
        )
        (Ends-trans a out_len (length n + 1 + (1 + 0)) (reached (path_separator ∷ n))
          (Scanned-separators a out_len [] ahead [] lead bytes part.0 part.1 (omega arith) refl)
          behind_root (fuel - (1 + (length n + 1 + (1 + 0))) - 1))
    where
      ahead : List ℕ
      ahead = text (name n extra ∷ parent ∷ []) (0 ∷ rest)

      part : IsPart ahead
      part = text-IsPart (name n extra ∷ parent ∷ []) (0 ∷ rest) (is, tt) (refl, λ h. cc)

      count : fuel ≡ 1 + (length n + 1 + (1 + 0)) + suc (fuel - (1 + (length n + 1 + (1 + 0))) - 1)
      count = omega arith

      whole : reverse (below n) ≡ path_separator ∷ n
      whole = reverse-segment n ([] ∷ [])

      behind_root :
          (behind : List ℕ) (bytes' : ℕ → ℕ)
          → behind_satisfied behind ≡ true
          → written bytes' 1 ≡ path_separator ∷ []
          → Ends a out_len
              (length n + 1 + (1 + 0))
              (reached (path_separator ∷ n))
              (scan behind ahead 1 bytes')
      behind_root behind bytes' place holds =
          subst
            (λ xs.
              Ends a out_len (length n + 1 + (1 + 0)) (reached xs) (scan behind ahead 1 bytes'))
            whole
            (Ends-trans a out_len (1 + 0) (reached (reverse (below n)))
              (Scanned-component a out_len behind n (text (parent ∷ []) (0 ∷ rest))
                (path_separator ∷ []) extra bytes' is (refl, λ h. cc) place (omega arith) holds)
              (λ behind' bytes'' place' holds'.
                Ends-trans a out_len 0 (reached (reverse (below n)))
                  (Scanned-lower behind' (0 ∷ rest) n bytes'' lower is place' holds')
                  (λ behind'' bytes''' place'' holds''.
                    Ends-terminator a out_len 0 behind'' rest (below n) bytes''' holds''
                      (omega (arith, length-reverse_aux n (path_separator ∷ []))))))
