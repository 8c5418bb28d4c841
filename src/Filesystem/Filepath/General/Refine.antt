-- ===== src/Filesystem/Filepath/General/Refine.antt =====
-- `normalize` gives every path its meaning.
use mathlib.Core.List.{reverse, reverse_aux}
use libdane.Base.{
  ℕ, zero, suc, ◌+◌, ◌-◌, ◌≤◌, ◌<◌, ◌≡◌, ◌≢◌, refl, arith, true, some, List, [], ◌∷◌, ◌++◌, length,
  length-reverse_aux, ==_of_ne,
}
use libdane.Filesystem.Filepath.{
  Addresses, normalize, normalize_loop, copy_prefix, behind_satisfied,
}
use libdane.Filesystem.Filepath.Written.{written}
use libdane.Filesystem.Filepath.Walk.{
  IsName, Ending, at_separator, in_name, in_self, in_parent, ending_weight, EndsWell,
}
use libdane.Filesystem.Filepath.Runs.{scan}
use libdane.Filesystem.Filepath.Names.{terminator, Scanned-name}
use libdane.Filesystem.Filepath.References.{Scanned-self}
use libdane.Filesystem.Filepath.Stack.{AllPlain}
use libdane.Filesystem.Filepath.Components.{IsPart, name-IsPart}
use libdane.Filesystem.Filepath.General.{
  reached, Token, segment, self_ref, parent_ref, tokens_text, last_text, any_text, tokens_weight,
  any_weight, Segments, StopsBehind, settle, past, finish, meaning,
}
use libdane.Filesystem.Filepath.General.Ends.{
  Means, output_of, reverse-output_of, reverse-segment, Ends, Ends-trans, Ends-terminator,
  Ends-object,
}
use libdane.Filesystem.Filepath.General.Tokens.{settle-AllPlain, length-settle, leave-Ends}
use libdane.Filesystem.Filepath.General.Walks.{tokens-IsPart, settle-Ends, tokens-Ends}

last-IsPart : (ending : Ending) (rest : List ℕ) → EndsWell ending → IsPart (last_text ending rest)
last-IsPart at_separator rest well = (refl, λ h. cc)
last-IsPart (in_name n) rest well = name-IsPart n (0 ∷ rest) well
last-IsPart in_self rest well = (refl, λ h. cc)
last-IsPart in_parent rest well = (refl, λ h. cc)

-- The first byte of a path that is not empty.
record StartsWith (xs : List ℕ) : Type 0 where
  first : ℕ
  others : List ℕ
  spelled : xs ≡ first ∷ others
  nonzero : first ≢ 0

name-StartsWith : (n tail : List ℕ) → IsName n → StartsWith (n ++ tail)
name-StartsWith [] tail is = absurd (is.1 refl)
name-StartsWith (c ∷ n) tail is = record {
  first = c;
  others = n ++ tail;
  spelled = refl;
  nonzero = is.0.0;
}

starts_with : (c : ℕ) (cs : List ℕ) → c ≢ 0 → StartsWith (c ∷ cs)
starts_with c cs nz = record { first = c; others = cs; spelled = refl; nonzero = nz }

any_text-StartsWith :
    (lead : ℕ) (ts : List Token) (ending : Ending) (rest : List ℕ)
    → Segments ts
    → EndsWell ending
    → 0 < any_weight lead ts ending
    → StartsWith (any_text lead ts ending rest)
any_text-StartsWith (suc lead) ts ending rest names well some_byte = starts_with _ _ (λ e. cc)
any_text-StartsWith zero (segment n extra ∷ ts) ending rest names well some_byte =
    name-StartsWith n _ names.0
any_text-StartsWith zero (self_ref extra ∷ ts) ending rest names well some_byte =
    starts_with _ _ (λ e. cc)
any_text-StartsWith zero (parent_ref extra ∷ ts) ending rest names well some_byte =
    starts_with _ _ (λ e. cc)
any_text-StartsWith zero [] at_separator rest names well some_byte = absurd (omega arith)
any_text-StartsWith zero [] (in_name n) rest names well some_byte = name-StartsWith n _ well
any_text-StartsWith zero [] in_self rest names well some_byte = starts_with _ _ (λ e. cc)
any_text-StartsWith zero [] in_parent rest names well some_byte = starts_with _ _ (λ e. cc)

module _ (a : Addresses) (out_len : ℕ) where
  -- The position behind the byte that follows a reference at the end of the path.
  past-Ends :
      (k : ℕ) (rest : List ℕ) (stack : List (List ℕ)) (behind : List ℕ) (bytes : ℕ → ℕ)
      → StopsBehind in_self rest
      → length (output_of stack) < out_len
      → written bytes (length (output_of stack)) ≡ output_of stack
      → Ends a out_len k (past rest stack) (scan behind rest (length (output_of stack)) bytes)
  past-Ends k [] stack behind bytes stops room holds = Ends-object a out_len k _ behind bytes
  past-Ends k (c ∷ rest) stack behind bytes stops room holds =
      rw (stops, ← reverse-output_of stack)
        (Ends-terminator a out_len k behind rest (output_of stack) bytes holds room)

  -- The bytes behind the last separator.
  finish-Ends :
      (ending : Ending) (rest : List ℕ) (stack : List (List ℕ)) (behind : List ℕ) (bytes : ℕ → ℕ)
      → a.input_path ≤ a.out_path
      → EndsWell ending
      → StopsBehind ending rest
      → AllPlain stack
      → length (output_of stack) + ending_weight ending < out_len
      → behind_satisfied behind ≡ true
      → written bytes (length (output_of stack)) ≡ output_of stack
      → Ends a out_len
          (ending_weight ending)
          (finish ending rest stack)
          (scan behind (last_text ending rest) (length (output_of stack)) bytes)
  finish-Ends at_separator rest stack behind bytes above well stops plain room place holds =
      rw (← reverse-output_of stack)
        (Ends-terminator a out_len 0 behind rest (output_of stack) bytes holds (omega arith))
  finish-Ends (in_name n) rest stack behind bytes above well stops plain room place holds =
      rw (← reverse-segment n stack, count)
        (Ends-trans a out_len 0 (reached (reverse (reverse_aux n (output_of stack))))
          (Scanned-name a out_len behind n (output_of stack) (terminator rest) bytes well place
            (omega arith) holds)
          (λ behind' bytes' place' holds'.
            Ends-terminator a out_len 0 behind' rest (reverse_aux n (output_of stack)) bytes' holds'
              (omega (arith, length-reverse_aux n (output_of stack)))))
    where
      count : length n ≡ length n + 0
      count = omega arith
  finish-Ends in_self rest stack behind bytes above well stops plain room place holds = rw one (
      Ends-trans a out_len 0 (past rest stack)
        (Scanned-self a out_len behind rest (output_of stack) 0 bytes refl place holds)
        (λ behind' bytes' place' holds'.
          past-Ends 0 rest stack behind' bytes' (stops) (omega arith) holds'))
    where
      one : 1 ≡ 1 + 0
      one = omega arith
  finish-Ends in_parent rest stack behind bytes above well stops plain room place holds =
      leave-Ends a out_len 1 (past rest) stack behind rest 0 bytes above plain refl place holds
        (λ stack' behind' bytes' plain' shorter place' holds'.
          past-Ends 1 rest stack' behind' bytes' (stops) (omega arith) holds')

  -- A path, from its first byte on.
  any-Ends :
      (lead : ℕ) (ts : List Token) (ending : Ending) (rest : List ℕ) (bytes : ℕ → ℕ)
      → a.input_path ≤ a.out_path
      → Segments ts
      → EndsWell ending
      → StopsBehind ending rest
      → any_weight lead ts ending < out_len
      → Ends a out_len
          (any_weight lead ts ending)
          (meaning lead ts ending rest)
          (scan [] (any_text lead ts ending rest) 0 bytes)
  unfolding meaning
  any-Ends lead ts ending rest bytes above names well stops room =
      settle-Ends a out_len (tokens_weight ts + ending_weight ending) _ lead [] []
        (tokens_text ts (last_text ending rest)) bytes
        (tokens-IsPart ts _ names (last-IsPart ending rest well)) (omega arith) refl refl
        (λ behind' bytes' place' holds'.
          tokens-Ends a out_len (ending_weight ending) (lead + tokens_weight ts)
            (finish ending rest) (last_text ending rest) ts (settle lead []) behind' bytes' above
            (last-IsPart ending rest well) (omega arith)
            (λ stack'' behind'' bytes'' plain fits place'' holds''.
              finish-Ends ending rest stack'' behind'' bytes'' above well stops plain (omega arith)
                place'' holds'')
            names (settle-AllPlain lead [] tt) (omega (arith, length-settle lead [])) place' holds')

  pub normalize-normalize_loop :
      (fuel c : ℕ) (cs : List ℕ) (bytes : ℕ → ℕ)
      → c ≢ 0
      → 0 < out_len
      → normalize a out_len fuel true bytes (some (c ∷ cs))
        ≡ normalize_loop a out_len fuel 0 (scan [] (c ∷ cs) 0 bytes)
  unfolding normalize copy_prefix
  normalize-normalize_loop fuel c cs bytes nz room =
      rw (==_of_ne out_len 0 (λ e. omega arith), ==_of_ne c 0 nz) refl

  -- Any path that is not empty: relative or from the root, with names in whole UTF-8 characters, any
  -- references and separators, and behind a reference at its end the end of the object or another
  -- terminator; and an output that lies above the input and has room for the path. `normalize` ends
  -- with fuel for one round more than the path has bytes, and gives the meaning of the path.
  pub normalize-meaning :
      (fuel lead : ℕ) (ts : List Token) (ending : Ending) (rest : List ℕ) (bytes : ℕ → ℕ)
      → a.input_path ≤ a.out_path
      → Segments ts
      → EndsWell ending
      → StopsBehind ending rest
      → 0 < any_weight lead ts ending
      → any_weight lead ts ending < out_len
      → any_weight lead ts ending < fuel
      → Means
          (meaning lead ts ending rest)
          (normalize a out_len fuel true bytes (some (any_text lead ts ending rest)))
  normalize-meaning fuel lead ts ending rest bytes above names well stops some_byte room enough =
      rw (start, count)
        (any-Ends lead ts ending rest bytes above names well stops room
          (fuel - any_weight lead ts ending - 1))
    where
      b : StartsWith (any_text lead ts ending rest)
      b = any_text-StartsWith lead ts ending rest names well some_byte

      start :
          normalize a out_len fuel true bytes (some (any_text lead ts ending rest))
          ≡ normalize_loop a out_len fuel 0 (scan [] (any_text lead ts ending rest) 0 bytes)
      start =
          rw b.spelled
            (normalize-normalize_loop fuel b.first b.others bytes b.nonzero (omega arith))

      count : fuel ≡ any_weight lead ts ending + suc (fuel - any_weight lead ts ending - 1)
      count = omega arith
