-- ===== src/Filesystem/Filepath/Faults.antt =====
-- Where `normalize` reads outside of the path or the output.
use mathlib.Core.Path.{subst}
use libdane.Base.{
  ℕ, suc, ◌+◌, ◌-◌, ◌≤◌, ◌<◌, ◌≡◌, refl, ◌∙◌, arith, true, ◌||◌, some, List, [], ◌∷◌, ◌++◌, length,
  ◌==◌,
}
use libdane.Platform.Paths.{path_separator}
use libdane.Filesystem.Filepath.{Addresses, fault, normalize, behind_satisfied, dot}
use libdane.Filesystem.Filepath.Written.{written}
use libdane.Filesystem.Filepath.Walk.{Component, separators, text, weight, IsName, HasNames, walk}
use libdane.Filesystem.Filepath.Runs.{scan}
use libdane.Filesystem.Filepath.References.{Scanned-separators, Scanned-self}
use libdane.Filesystem.Filepath.Components.{IsPart, text-IsPart, Scanned-component}
use libdane.Filesystem.Filepath.General.{Meaning, out_of_bounds, ◌>>=◌, tokens_weight, walk_tokens}
use libdane.Filesystem.Filepath.General.Ends.{Ends, Ends-stop, Ends-trans, Ends-object}
use libdane.Filesystem.Filepath.General.Tokens.{round_at_first}
use libdane.Filesystem.Filepath.General.Refine.{normalize-normalize_loop}
use libdane.Filesystem.Filepath.General.Walks.{tokens-Ends}
use libdane.Filesystem.Filepath.Refine.{
  tokens_of, rooted, tokens_of-Segments, tokens_weight-tokens_of, tokens_text-tokens_of,
  walk_tokens-tokens_of,
}

module _ (a : Addresses) (out_len : ℕ) where
  -- A relative path that begins with a name and a parent reference behind it, with an output that lies
  -- above the input and has room for the name: `normalize` reads the byte before the output.
  pub normalize_relative_parent :
      (fuel extra c : ℕ) (n next : List ℕ) (bytes : ℕ → ℕ)
      → a.input_path ≤ a.out_path
      → IsName n
      → (c == path_separator || c == 0) ≡ true
      → length n + 1 < out_len
      → length n + 1 < fuel
      → normalize a out_len fuel true bytes
          (some (n ++ path_separator ∷ (separators extra ++ dot ∷ dot ∷ c ∷ next)))
        ≡ fault
  normalize_relative_parent fuel extra c [] next bytes above is ends room enough =
      absurd (is.1 refl)
  normalize_relative_parent fuel extra c (d ∷ n) next bytes above is ends room enough =
      normalize-normalize_loop a out_len fuel d _ bytes is.0.0 (omega arith)
      ∙ rw count (
          Ends-trans a out_len 0 out_of_bounds
            (Scanned-component a out_len [] (d ∷ n) (dot ∷ dot ∷ c ∷ next) [] extra bytes is
              (refl, λ h. cc) refl (omega arith) refl)
            (λ behind bytes' place holds.
              Ends-stop a out_len 0 out_of_bounds _ fault
                (round_at_first a out_len behind next (d ∷ n) c bytes' above is.0 is.1 ends place
                  holds)
                refl)
            (fuel - (length (d ∷ n) + 1 + 0) - 1))
    where
      count : fuel ≡ length (d ∷ n) + 1 + 0 + suc (fuel - (length (d ∷ n) + 1 + 0) - 1)
      count = omega arith

  -- A path from the root that ends in `.` behind its components, stays below the root, and has one
  -- terminator, the last byte of its object, with an output that lies above the input and has room
  -- for the path: `normalize` reads behind the object.
  pub normalize_past_terminator :
      (fuel lead : ℕ) (cs : List Component) (bytes : ℕ → ℕ) {stack : List (List ℕ)}
      → a.input_path ≤ a.out_path
      → HasNames cs
      → walk [] cs ≡ some stack
      → 1 + weight cs < out_len
      → 3 + weight cs < fuel
      → normalize a out_len fuel true bytes
          (some (path_separator ∷ (separators lead ++ text cs (dot ∷ 0 ∷ []))))
        ≡ fault
  normalize_past_terminator fuel lead cs bytes {stack} above names walks room enough =
      normalize-normalize_loop a out_len fuel path_separator _ bytes (omega arith) (omega arith)
      ∙ rw count (
          Ends-trans a out_len (tokens_weight (tokens_of cs) + 1) out_of_bounds
            (Scanned-separators a out_len [] (text cs (dot ∷ 0 ∷ [])) [] lead bytes part.0 part.1
              (omega arith) refl)
            (λ behind bytes' place holds. components behind bytes' place holds)
            (fuel - (1 + (tokens_weight (tokens_of cs) + 1)) - 1))
    where
      part : IsPart (text cs (dot ∷ 0 ∷ []))
      part = text-IsPart cs (dot ∷ 0 ∷ []) names (refl, λ h. cc)

      nowhere : List (List ℕ) → Meaning (List ℕ)
      nowhere stack' = out_of_bounds

      faults : (walk_tokens (rooted []) (tokens_of cs) >>= nowhere) ≡ out_of_bounds
      faults = rw (walk_tokens-tokens_of [] cs nowhere, walks) refl

      count :
          fuel
          ≡ 1
            + (tokens_weight (tokens_of cs) + 1)
            + suc (fuel - (1 + (tokens_weight (tokens_of cs) + 1)) - 1)
      count = omega (arith, tokens_weight-tokens_of cs)

      components :
          (behind : List ℕ) (bytes' : ℕ → ℕ)
          → behind_satisfied behind ≡ true
          → written bytes' 1 ≡ path_separator ∷ []
          → Ends a out_len
              (tokens_weight (tokens_of cs) + 1)
              out_of_bounds
              (scan behind (text cs (dot ∷ 0 ∷ [])) 1 bytes')
      components behind bytes' place holds =
          subst
            (λ m.
              Ends a out_len (tokens_weight (tokens_of cs) + 1) m
                (scan behind (text cs (dot ∷ 0 ∷ [])) 1 bytes'))
            faults
            (rw (← tokens_text-tokens_of cs (dot ∷ 0 ∷ [])) (
              tokens-Ends a out_len 1 (1 + weight cs) nowhere (dot ∷ 0 ∷ []) (tokens_of cs)
                (rooted []) behind bytes' above (refl, λ h. cc) (omega arith)
                (λ stack' behind' bytes'' plain le place' holds'.
                  Ends-trans a out_len 0 out_of_bounds
                    (Scanned-self a out_len behind' [] _ 0 bytes'' refl place' holds')
                    (λ behind'' bytes''' place'' holds''.
                      Ends-object a out_len 0 _ behind'' bytes'''))
                (tokens_of-Segments cs names) (tt, tt) (omega (arith, tokens_weight-tokens_of cs))
                place holds))
