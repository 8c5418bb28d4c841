-- ===== src/Filesystem/Filepath/General/Tokens.antt =====
-- The rounds of `normalize` at a reference, for each stack that it may stand behind.
use mathlib.Core.List.{reverse, reverse_aux}
use libdane.Base.{
  ℕ, zero, suc, ◌+◌, ◌≤◌, ◌<◌, ◌≡◌, ◌≢◌, refl, ◌∙◌, arith, true, ◌||◌, none, List, [], ◌∷◌, ◌++◌,
  length, length-reverse_aux, reverse_aux-eq, ◌==◌, ==_of_ne,
}
use libdane.Common.{libd_invalid_path}
use libdane.Platform.Paths.{path_separator}
use libdane.Filesystem.Filepath.{
  Addresses, done, fault, stop, round_at, parent_ref, back_up, behind_satisfied, dot,
}
use libdane.Filesystem.Filepath.Written.{written, NoSeparator, back_up-none}
use libdane.Filesystem.Filepath.Walk.{separators, IsPlain}
use libdane.Filesystem.Filepath.Runs.{scan, Scanned, Scanned-none, Scanned-weaken}
use libdane.Filesystem.Filepath.References.{Scanned-separators, Scanned-parent, round_at_parent}
use libdane.Filesystem.Filepath.Stack.{AllPlain, NoSeparator-reverse_aux}
use libdane.Filesystem.Filepath.Components.{IsPart}
use libdane.Filesystem.Filepath.General.{Meaning, refused, out_of_bounds, settle, leave, ◌>>=◌}
use libdane.Filesystem.Filepath.General.Ends.{output_of, Ends, Ends-stop, Ends-trans}

pub settle-AllPlain :
    (extra : ℕ) (stack : List (List ℕ)) → AllPlain stack → AllPlain (settle extra stack)
settle-AllPlain zero stack plain = plain
settle-AllPlain (suc extra) stack plain = (tt, plain)

pub length-settle :
    (extra : ℕ) (stack : List (List ℕ))
    → length (output_of (settle extra stack)) ≤ length (output_of stack) + extra
length-settle zero stack = omega arith
length-settle (suc extra) stack = omega arith

module _ (a : Addresses) (out_len : ℕ) where
  -- Further separators, at the start of a component.
  pub Scanned-settle :
      (extra : ℕ) (stack : List (List ℕ)) (behind next : List ℕ) (bytes : ℕ → ℕ)
      → IsPart next
      → length (output_of stack) + extra < out_len
      → behind_satisfied behind ≡ true
      → written bytes (length (output_of stack)) ≡ output_of stack
      → Scanned a out_len extra true next
          (output_of (settle extra stack))
          (scan behind (separators extra ++ next) (length (output_of stack)) bytes)
  Scanned-settle zero stack behind next bytes part room place holds =
      Scanned-none a out_len behind next (output_of stack) bytes true place holds
  Scanned-settle (suc extra) stack behind next bytes part room place holds =
      Scanned-weaken a out_len (suc extra) (omega arith) (
        Scanned-separators a out_len behind next (output_of stack) extra bytes part.0 part.1
          (omega arith) holds)

  parent_ref_fault :
      (behind ahead : List ℕ) (bytes : ℕ → ℕ) (w : ℕ)
      → back_up a bytes w ≡ none
      → 0 < w
      → parent_ref a out_len 0 (scan behind ahead (suc w) bytes) ≡ stop fault
  unfolding parent_ref
  parent_ref_fault behind ahead bytes w e pos =
      rw (==_of_ne (suc w) 0 (λ h. omega arith), ==_of_ne (suc w) (0 + 1) (λ h. omega arith), e)
        refl

  -- `..` behind the first name of a relative path.
  pub round_at_first :
      (behind next n : List ℕ) (c : ℕ) (bytes : ℕ → ℕ)
      → a.input_path ≤ a.out_path
      → IsPlain n
      → n ≢ []
      → (c == path_separator || c == 0) ≡ true
      → behind_satisfied behind ≡ true
      → written bytes (length (output_of (n ∷ []))) ≡ output_of (n ∷ [])
      → round_at a out_len 0
          (scan behind (dot ∷ dot ∷ c ∷ next) (length (output_of (n ∷ []))) bytes)
          (dot ∷ dot ∷ c ∷ next)
        ≡ stop fault
  round_at_first behind next [] c bytes above plain some_byte ends place holds =
      absurd (some_byte refl)
  round_at_first behind next (d ∷ n) c bytes above plain some_byte ends place holds =
      round_at_parent a out_len behind next c _ bytes ends place
      ∙ parent_ref_fault behind (dot ∷ dot ∷ c ∷ next) bytes _
          (back_up-none a bytes _ above (rw inner free))
          (omega (arith, length-reverse_aux n (d ∷ [])))
    where
      inner : written bytes (length (reverse_aux n (d ∷ []))) ≡ reverse_aux n (d ∷ [])
      inner = cc

      free : NoSeparator (reverse_aux n (d ∷ []))
      free = NoSeparator-reverse_aux (d ∷ n) [] plain tt

  -- `..` at the start of the path or behind a separator that begins it.
  pub round_at_start :
      (behind next : List ℕ) (c w : ℕ) (bytes : ℕ → ℕ)
      → w ≤ 1
      → (c == path_separator || c == 0) ≡ true
      → behind_satisfied behind ≡ true
      → round_at a out_len 0 (scan behind (dot ∷ dot ∷ c ∷ next) w bytes) (dot ∷ dot ∷ c ∷ next)
        ≡ stop (done libd_invalid_path bytes)
  unfolding parent_ref
  round_at_start behind next c zero bytes le ends place =
      round_at_parent a out_len behind next c 0 bytes ends place
  round_at_start behind next c (suc zero) bytes le ends place =
      rw (round_at_parent a out_len behind next c 1 bytes ends place) refl
  round_at_start behind next c (suc (suc w)) bytes le ends place = absurd (omega arith)

  -- `..` behind a name that has another one below it.
  pub Scanned-leave :
      (behind next n m : List ℕ) (stack : List (List ℕ)) (c : ℕ) (bytes : ℕ → ℕ)
      → a.input_path ≤ a.out_path
      → IsPlain n
      → (c == path_separator || c == 0) ≡ true
      → behind_satisfied behind ≡ true
      → written bytes (length (output_of (n ∷ m ∷ stack))) ≡ output_of (n ∷ m ∷ stack)
      → Scanned a out_len 1
          (c == path_separator)
          next
          (output_of (m ∷ stack))
          (scan behind (dot ∷ dot ∷ c ∷ next) (length (output_of (n ∷ m ∷ stack))) bytes)
  Scanned-leave behind next n m stack c bytes above plain ends place holds =
      rw (reverse_aux-eq n (output_of (m ∷ stack))) (
        Scanned-parent a out_len behind next (reverse n) (reverse_aux m (output_of stack)) c bytes
          above (NoSeparator-reverse_aux n [] plain tt) ends place
          (rw (reverse_aux-eq n (output_of (m ∷ stack))) at holds))

  -- `..` on any stack, and what comes behind it if there is a parent.
  pub leave-Ends :
      (k : ℕ) (f : List (List ℕ) → Meaning (List ℕ)) (stack : List (List ℕ)) (behind next : List ℕ)
      (c : ℕ) (bytes : ℕ → ℕ)
      → a.input_path ≤ a.out_path
      → AllPlain stack
      → (c == path_separator || c == 0) ≡ true
      → behind_satisfied behind ≡ true
      → written bytes (length (output_of stack)) ≡ output_of stack
      → ((stack' : List (List ℕ)) (behind' : List ℕ) (bytes' : ℕ → ℕ)
          → AllPlain stack'
          → length (output_of stack') ≤ length (output_of stack)
          → behind_satisfied behind' ≡ (c == path_separator)
          → written bytes' (length (output_of stack')) ≡ output_of stack'
          → Ends a out_len k (f stack') (scan behind' next (length (output_of stack')) bytes'))
      → Ends a out_len
          (1 + k)
          (leave stack >>= f)
          (scan behind (dot ∷ dot ∷ c ∷ next) (length (output_of stack)) bytes)
  leave-Ends k f [] behind next c bytes above plain ends place holds rest =
      Ends-stop a out_len (1 + k) refused _ _
        (round_at_start behind next c 0 bytes (omega arith) ends place) (bytes, refl)
  leave-Ends k f ([] ∷ []) behind next c bytes above plain ends place holds rest =
      Ends-stop a out_len (1 + k) refused _ _
        (round_at_start behind next c 1 bytes (omega arith) ends place) (bytes, refl)
  leave-Ends k f ((d ∷ n) ∷ []) behind next c bytes above plain ends place holds rest =
      Ends-stop a out_len (1 + k) out_of_bounds _ _
        (round_at_first behind next (d ∷ n) c bytes above plain.0 (λ e. cc) ends place holds) refl
  leave-Ends k f (n ∷ m ∷ stack) behind next c bytes above plain ends place holds rest =
      Ends-trans a out_len k (f (m ∷ stack))
        (Scanned-leave behind next n m stack c bytes above plain.0 ends place holds)
        (λ behind' bytes' place' holds'.
          rest (m ∷ stack) behind' bytes' plain.1
            (omega (arith, length-reverse_aux n (output_of (m ∷ stack)))) place' holds')
