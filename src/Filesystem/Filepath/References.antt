-- ===== src/Filesystem/Filepath/References.antt =====
-- Separators, and references to the same and to the parent directory.
use libdane.Base.{
  ℕ, suc, ◌+◌, ◌≤◌, ◌<◌, ◌≡◌, ◌≢◌, refl, ◌∙◌, arith, true, false, ◌||◌, some, List, [], ◌∷◌, ◌++◌,
  length, ◌==◌, ==_of_ne,
}
use libdane.Platform.Paths.{path_separator}
use libdane.Filesystem.Filepath.{
  Addresses, more, found_relative_ref, found_parent_ref, dot_case, separator_case, round_at,
  parent_ref, behind_satisfied, dot, advance, back_up,
}
use libdane.Filesystem.Filepath.Spec.{starts_with_separator}
use libdane.Filesystem.Filepath.Steps.{skip_separators_run}
use libdane.Filesystem.Filepath.Written.{written, NoSeparator, back_up-written}
use libdane.Filesystem.Filepath.Walk.{separators}
use libdane.Filesystem.Filepath.Runs.{scan, Scanned, Runs-one, Scanned-byte}

module _ (a : Addresses) (out_len : ℕ) where
  -- A run of separators is written as one.
  pub Scanned-separators :
      (behind next out : List ℕ) (extra : ℕ) (bytes : ℕ → ℕ)
      → starts_with_separator next ≡ false
      → next ≢ []
      → length out + 1 < out_len
      → written bytes (length out) ≡ out
      → Scanned a out_len 1 true next
          (path_separator ∷ out)
          (scan behind (path_separator ∷ (separators extra ++ next)) (length out) bytes)
  unfolding round_at separator_case
  Scanned-separators behind next out extra bytes lone some_byte room holds =
      let (skipped, e) = skip_separators_run behind next extra lone some_byte in
      Scanned-byte a out_len _ path_separator skipped next out bytes (omega arith) room holds
        (rw (separator_case, e) refl)

  -- `.` at the start of a component is passed over with the byte behind it.
  pub Scanned-self :
      (behind next out : List ℕ) (c : ℕ) (bytes : ℕ → ℕ)
      → (c == path_separator || c == 0) ≡ true
      → behind_satisfied behind ≡ true
      → written bytes (length out) ≡ out
      → Scanned a out_len 1
          (c == path_separator)
          next
          out
          (scan behind (dot ∷ c ∷ next) (length out) bytes)
  unfolding round_at dot_case found_relative_ref
  Scanned-self behind next out c bytes ending place holds = record {
    behind = c ∷ dot ∷ behind;
    bytes = bytes;
    runs = Runs-one a out_len _ _ (rw (place, ending) refl);
    place = refl;
    holds = holds;
  }

  pub round_at_parent :
      (behind next : List ℕ) (c w : ℕ) (bytes : ℕ → ℕ)
      → (c == path_separator || c == 0) ≡ true
      → behind_satisfied behind ≡ true
      → round_at a out_len 0 (scan behind (dot ∷ dot ∷ c ∷ next) w bytes) (dot ∷ dot ∷ c ∷ next)
        ≡ parent_ref a out_len 0 (scan behind (dot ∷ dot ∷ c ∷ next) w bytes)
  unfolding round_at dot_case found_relative_ref found_parent_ref
  round_at_parent behind next c w bytes ending place = rw (place, ending, place) refl

  pub parent_ref_run :
      (behind ahead : List ℕ) (bytes : ℕ → ℕ) (w w' : ℕ)
      → back_up a bytes w ≡ some w'
      → 0 < w
      → parent_ref a out_len 0 (scan behind ahead (suc w) bytes)
        ≡ more (advance 3 (scan behind ahead w' bytes))
  unfolding parent_ref
  parent_ref_run behind ahead bytes w w' e pos =
      rw (==_of_ne (suc w) 0 (λ h. omega arith), ==_of_ne (suc w) (0 + 1) (λ h. omega arith), e)
        refl

  -- `..` behind a name takes the name off the output, if the output lies above the input.
  pub Scanned-parent :
      (behind next name below : List ℕ) (c : ℕ) (bytes : ℕ → ℕ)
      → a.input_path ≤ a.out_path
      → NoSeparator name
      → (c == path_separator || c == 0) ≡ true
      → behind_satisfied behind ≡ true
      → let out = path_separator ∷ (name ++ path_separator ∷ below) in
        written bytes (length out) ≡ out
        → Scanned a out_len 1
            (c == path_separator)
            next
            (path_separator ∷ below)
            (scan behind (dot ∷ dot ∷ c ∷ next) (length out) bytes)
  Scanned-parent behind next name below c bytes above free ending place holds = record {
    behind = c ∷ dot ∷ dot ∷ behind;
    bytes = bytes;
    runs = Runs-one a out_len _ _ (
        round_at_parent behind next c _ bytes ending place
        ∙ parent_ref_run behind (dot ∷ dot ∷ c ∷ next) bytes _ _ popped.0 (length-inside name));
    place = refl;
    holds = popped.1;
  }
    where
      length-inside : (xs : List ℕ) → 0 < length (xs ++ path_separator ∷ below)
      length-inside [] = omega arith
      length-inside (x ∷ xs) = omega arith

      inner :
          written bytes (length (name ++ path_separator ∷ below)) ≡ name ++ path_separator ∷ below
      inner = cc

      popped :
          (back_up a bytes (length (name ++ path_separator ∷ below)) ≡ some (suc (length below)))
          × (written bytes (suc (length below)) ≡ path_separator ∷ below)
      popped = back_up-written a bytes _ name below above free inner
