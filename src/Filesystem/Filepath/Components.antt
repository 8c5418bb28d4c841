-- ===== src/Filesystem/Filepath/Components.antt =====
-- The loop of `normalize` on a name with its separators, and what may stand behind them.
use mathlib.Core.List.{reverse_aux}
use libdane.Base.{
  length-reverse_aux, ℕ, zero, suc, ◌+◌, ◌<◌, ◌≡◌, ◌≢◌, refl, arith, true, false, List, [], ◌∷◌,
  ◌++◌, length, ==_of_ne,
}
use libdane.Platform.Paths.{path_separator}
use libdane.Filesystem.Filepath.{Addresses, behind_satisfied}
use libdane.Filesystem.Filepath.Spec.{starts_with_separator}
use libdane.Filesystem.Filepath.Written.{written}
use libdane.Filesystem.Filepath.Walk.{
  Component, name, self, parent, separators, text, IsName, HasNames,
}
use libdane.Filesystem.Filepath.Runs.{scan, Scanned, Scanned-trans}
use libdane.Filesystem.Filepath.Names.{Tail, separator, tail_bytes, Scanned-name}
use libdane.Filesystem.Filepath.References.{Scanned-separators}

-- What may stand behind the separators: some byte, and no separator.
abbrev pub IsPart : List ℕ → Type 0
IsPart xs = (starts_with_separator xs ≡ false) × (xs ≢ [])

pub name-IsPart : (n tail : List ℕ) → IsName n → IsPart (n ++ tail)
name-IsPart [] tail is = absurd (is.1 refl)
name-IsPart (c ∷ n) tail is = (==_of_ne c path_separator is.0.1, λ h. cc)

pub text-IsPart :
    (cs : List Component) (tail : List ℕ) → HasNames cs → IsPart tail → IsPart (text cs tail)
text-IsPart [] tail names part = part
text-IsPart (name n extra ∷ cs) tail names part = name-IsPart n _ names.0
text-IsPart (self ∷ cs) tail names part = (refl, λ h. cc)
text-IsPart (parent ∷ cs) tail names part = (refl, λ h. cc)

separator-Tail : (xs : List ℕ) → xs ≢ [] → (t : Tail) × (tail_bytes t ≡ path_separator ∷ xs)
separator-Tail [] some_byte = absurd (some_byte refl)
separator-Tail (c ∷ xs) some_byte = (separator c xs, refl)

separators-nonempty : (n : ℕ) (xs : List ℕ) → xs ≢ [] → separators n ++ xs ≢ []
separators-nonempty zero xs some_byte = some_byte
separators-nonempty (suc n) xs some_byte = λ h. cc

module _ (a : Addresses) (out_len : ℕ) where
  -- A name with its separators.
  pub Scanned-component :
      (behind n next out : List ℕ) (extra : ℕ) (bytes : ℕ → ℕ)
      → IsName n
      → IsPart next
      → behind_satisfied behind ≡ true
      → length out + length n + 1 < out_len
      → written bytes (length out) ≡ out
      → Scanned a out_len
          (length n + 1)
          true
          next
          (path_separator ∷ reverse_aux n out)
          (scan behind (n ++ path_separator ∷ (separators extra ++ next)) (length out) bytes)
  Scanned-component behind n next out extra bytes is part place room holds =
      let (t, e) =
        separator-Tail (separators extra ++ next) (separators-nonempty extra next part.1) in
      rw (← e) (
        Scanned-trans a out_len
          (Scanned-name a out_len behind n out t bytes is place (omega arith) holds)
          (λ behind' bytes' place' holds'. rw e (
            Scanned-separators a out_len behind' next (reverse_aux n out) extra bytes' part.0 part.1
              (omega (arith, length-reverse_aux n out)) holds')))
