-- ===== src/Filesystem/Filepath/General/Rooted.antt =====
-- A path from the root never takes the root off its stack, so it reads no byte before the output.
use libdane.Base.{ℕ, zero, suc, ◌≤◌, ◌<◌, ◌≢◌, refl, arith, true, some, List, [], ◌∷◌}
use libdane.Filesystem.Filepath.{Addresses, Outcome, fault, normalize}
use libdane.Filesystem.Filepath.Walk.{Ending, at_separator, in_name, in_self, in_parent, EndsWell}
use libdane.Filesystem.Filepath.General.{
  Meaning, reached, refused, out_of_bounds, ◌>>=◌, Token, segment, self_ref, parent_ref, any_text,
  any_weight, Segments, StopsBehind, settle, leave, walk_tokens, past, finish, meaning,
}
use libdane.Filesystem.Filepath.General.Ends.{Means}
use libdane.Filesystem.Filepath.General.Walks.{>>=_assoc}
use libdane.Filesystem.Filepath.General.Refine.{normalize-meaning}

-- The first name is the empty one.
IsRooted : List (List ℕ) → Type 0
IsRooted [] = ⊥
IsRooted ([] ∷ []) = Unit {0}
IsRooted ((c ∷ n) ∷ []) = ⊥
IsRooted (n ∷ m ∷ stack) = IsRooted (m ∷ stack)

-- A byte stands behind the terminator of a path that ends in a reference.
abbrev pub GoesOn : Ending → List ℕ → Type 0
GoesOn in_self rest = rest ≢ []
GoesOn in_parent rest = rest ≢ []
GoesOn _ rest = Unit {0}

cons-IsRooted : (n : List ℕ) (stack : List (List ℕ)) → IsRooted stack → IsRooted (n ∷ stack)
unfolding IsRooted
cons-IsRooted n [] rooted = absurd rooted
cons-IsRooted [] (m ∷ stack) rooted = rooted
cons-IsRooted (c ∷ n) (m ∷ stack) rooted = rooted

settle-IsRooted :
    (extra : ℕ) (stack : List (List ℕ)) → IsRooted stack → IsRooted (settle extra stack)
settle-IsRooted zero stack rooted = rooted
settle-IsRooted (suc extra) stack rooted = cons-IsRooted [] stack rooted

leave_in_bounds :
    (stack : List (List ℕ)) (f : List (List ℕ) → Meaning (List ℕ))
    → IsRooted stack
    → ((stack' : List (List ℕ)) → IsRooted stack' → f stack' ≢ out_of_bounds)
    → (leave stack >>= f) ≢ out_of_bounds
unfolding IsRooted
leave_in_bounds [] f rooted inside = absurd rooted
leave_in_bounds ([] ∷ []) f rooted inside = λ e. cc
leave_in_bounds ((c ∷ n) ∷ []) f rooted inside = absurd rooted
leave_in_bounds ([] ∷ m ∷ stack) f rooted inside = inside (m ∷ stack) rooted
leave_in_bounds ((c ∷ n) ∷ m ∷ stack) f rooted inside = inside (m ∷ stack) rooted

walk_tokens_in_bounds :
    (stack : List (List ℕ)) (ts : List Token) (f : List (List ℕ) → Meaning (List ℕ))
    → IsRooted stack
    → ((stack' : List (List ℕ)) → IsRooted stack' → f stack' ≢ out_of_bounds)
    → (walk_tokens stack ts >>= f) ≢ out_of_bounds
walk_tokens_in_bounds stack [] f rooted inside = inside stack rooted
walk_tokens_in_bounds stack (segment n extra ∷ ts) f rooted inside =
    walk_tokens_in_bounds (n ∷ stack) ts f (cons-IsRooted n stack rooted) inside
walk_tokens_in_bounds stack (self_ref extra ∷ ts) f rooted inside =
    walk_tokens_in_bounds (settle extra stack) ts f (settle-IsRooted extra stack rooted) inside
walk_tokens_in_bounds stack (parent_ref extra ∷ ts) f rooted inside =
    rw (>>=_assoc (leave stack) (λ stack'. walk_tokens (settle extra stack') ts) f) (
      leave_in_bounds stack _ rooted (λ stack' rooted'.
        walk_tokens_in_bounds (settle extra stack') ts f (settle-IsRooted extra stack' rooted')
          inside))

past_in_bounds :
    (rest : List ℕ) (stack : List (List ℕ)) → rest ≢ [] → past rest stack ≢ out_of_bounds
past_in_bounds [] stack goes_on = absurd (goes_on refl)
past_in_bounds (c ∷ rest) stack goes_on = λ e. cc

finish_in_bounds :
    (ending : Ending) (rest : List ℕ) (stack : List (List ℕ))
    → GoesOn ending rest
    → IsRooted stack
    → finish ending rest stack ≢ out_of_bounds
finish_in_bounds at_separator rest stack goes_on rooted = λ e. cc
finish_in_bounds (in_name n) rest stack goes_on rooted = λ e. cc
finish_in_bounds in_self rest stack goes_on rooted = past_in_bounds rest stack goes_on
finish_in_bounds in_parent rest stack goes_on rooted =
    leave_in_bounds stack (past rest) rooted (λ stack' rooted'. past_in_bounds rest stack' goes_on)

Means-in_bounds : (m : Meaning (List ℕ)) (o : Outcome) → Means m o → m ≢ out_of_bounds → o ≢ fault
Means-in_bounds (reached xs) o means inside = λ e. cc (means.1, e)
Means-in_bounds refused o means inside = λ e. cc (means.1, e)
Means-in_bounds out_of_bounds o means inside = absurd (inside refl)

module _ (a : Addresses) (out_len : ℕ) where
  -- A path from the root, with a byte behind the terminator if it ends in a reference, and with the
  -- other conditions of `normalize-meaning`: `normalize` accesses no byte outside of its objects.
  pub normalize_rooted_in_bounds :
      (fuel lead : ℕ) (ts : List Token) (ending : Ending) (rest : List ℕ) (bytes : ℕ → ℕ)
      → a.input_path ≤ a.out_path
      → Segments ts
      → EndsWell ending
      → StopsBehind ending rest
      → GoesOn ending rest
      → any_weight (suc lead) ts ending < out_len
      → any_weight (suc lead) ts ending < fuel
      → normalize a out_len fuel true bytes (some (any_text (suc lead) ts ending rest)) ≢ fault
  unfolding meaning IsRooted
  normalize_rooted_in_bounds fuel lead ts ending rest bytes above names well stops goes_on room
        enough =
      Means-in_bounds (meaning (suc lead) ts ending rest) _
        (normalize-meaning a out_len fuel (suc lead) ts ending rest bytes above names well stops
          (omega arith) room enough)
        (walk_tokens_in_bounds ([] ∷ []) ts (finish ending rest) tt
          (λ stack' rooted. finish_in_bounds ending rest stack' goes_on rooted))
