-- ===== src/Filesystem/Filepath/General/Walks.antt =====
-- The loop of `normalize` on the tokens of a path: it walks them on a stack of names.
use libdane.Base.{
  ℕ, ◌+◌, ◌≤◌, ◌<◌, ◌≡◌, refl, arith, true, List, [], ◌∷◌, ◌++◌, length, length-reverse_aux,
}
use libdane.Platform.Paths.{path_separator}
use libdane.Filesystem.Filepath.{Addresses, behind_satisfied}
use libdane.Filesystem.Filepath.Written.{written}
use libdane.Filesystem.Filepath.Walk.{separators}
use libdane.Filesystem.Filepath.Runs.{scan, Scanned-none, Scanned-weaken}
use libdane.Filesystem.Filepath.References.{Scanned-self}
use libdane.Filesystem.Filepath.Stack.{AllPlain}
use libdane.Filesystem.Filepath.Components.{IsPart, name-IsPart, Scanned-component}
use libdane.Filesystem.Filepath.General.{
  Meaning, reached, refused, out_of_bounds, ◌>>=◌, Token, segment, self_ref, parent_ref,
  tokens_text, tokens_weight, Segments, settle, leave, walk_tokens,
}
use libdane.Filesystem.Filepath.General.Ends.{output_of, Ends, Ends-trans}
use libdane.Filesystem.Filepath.General.Tokens.{
  settle-AllPlain, length-settle, Scanned-settle, leave-Ends,
}

pub tokens-IsPart :
    (ts : List Token) (tail : List ℕ) → Segments ts → IsPart tail → IsPart (tokens_text ts tail)
tokens-IsPart [] tail names part = part
tokens-IsPart (segment n extra ∷ ts) tail names part = name-IsPart n _ names.0
tokens-IsPart (self_ref extra ∷ ts) tail names part = (refl, λ h. cc)
tokens-IsPart (parent_ref extra ∷ ts) tail names part = (refl, λ h. cc)

pub >>=_assoc :
    {A B C : Type 0} (m : Meaning A) (f : A → Meaning B) (g : B → Meaning C)
    → ((m >>= f) >>= g) ≡ (m >>= λ a. f a >>= g)
>>=_assoc (reached a) f g = refl
>>=_assoc refused f g = refl
>>=_assoc out_of_bounds f g = refl

module _ (a : Addresses) (out_len : ℕ) where
  -- What ends so behind any further separators ends so before them.
  pub settle-Ends :
      (k : ℕ) (m : Meaning (List ℕ)) (extra : ℕ) (stack : List (List ℕ)) (behind next : List ℕ)
      (bytes : ℕ → ℕ)
      → IsPart next
      → length (output_of stack) + extra < out_len
      → behind_satisfied behind ≡ true
      → written bytes (length (output_of stack)) ≡ output_of stack
      → ((behind' : List ℕ) (bytes' : ℕ → ℕ)
          → behind_satisfied behind' ≡ true
          → written bytes' (length (output_of (settle extra stack)))
            ≡ output_of (settle extra stack)
          → Ends a out_len k m (scan behind' next (length (output_of (settle extra stack))) bytes'))
      → Ends a out_len
          (extra + k)
          m
          (scan behind (separators extra ++ next) (length (output_of stack)) bytes)
  settle-Ends k m extra stack behind next bytes part room place holds rest =
      Ends-trans a out_len k m
        (Scanned-settle a out_len extra stack behind next bytes part room place holds) rest

  -- The tokens are walked, and then comes what `rest` says about any stack.
  pub tokens-Ends :
      (k bound : ℕ) (f : List (List ℕ) → Meaning (List ℕ)) (tail : List ℕ) (ts : List Token)
      (stack : List (List ℕ)) (behind : List ℕ) (bytes : ℕ → ℕ)
      → a.input_path ≤ a.out_path
      → IsPart tail
      → bound < out_len
      → ((stack' : List (List ℕ)) (behind' : List ℕ) (bytes' : ℕ → ℕ)
          → AllPlain stack'
          → length (output_of stack') ≤ bound
          → behind_satisfied behind' ≡ true
          → written bytes' (length (output_of stack')) ≡ output_of stack'
          → Ends a out_len k (f stack') (scan behind' tail (length (output_of stack')) bytes'))
      → Segments ts
      → AllPlain stack
      → length (output_of stack) + tokens_weight ts ≤ bound
      → behind_satisfied behind ≡ true
      → written bytes (length (output_of stack)) ≡ output_of stack
      → Ends a out_len
          (tokens_weight ts + k)
          (walk_tokens stack ts >>= f)
          (scan behind (tokens_text ts tail) (length (output_of stack)) bytes)
  tokens-Ends k bound f tail [] stack behind bytes above part room rest names plain fits place
        holds =
      Ends-trans a out_len k (f stack)
        (Scanned-none a out_len behind tail (output_of stack) bytes true place holds)
        (λ behind' bytes' place' holds'.
          rest stack behind' bytes' plain (omega arith) place' holds')
  tokens-Ends k bound f tail (segment n extra ∷ ts) stack behind bytes above part room rest names
        plain fits place holds =
      rw count (
        Ends-trans a out_len (tokens_weight ts + k) _
          (Scanned-weaken a out_len (length n + 1 + extra) (omega arith) (
            Scanned-component a out_len behind n (tokens_text ts tail) (output_of stack) extra bytes
              names.0 (tokens-IsPart ts tail names.1 part) place (omega arith) holds))
          (λ behind' bytes' place' holds'.
            tokens-Ends k bound f tail ts (n ∷ stack) behind' bytes' above part room rest names.1
              (names.0.0, plain) (omega (arith, length-reverse_aux n (output_of stack))) place'
              holds'))
    where
      count :
          tokens_weight (segment n extra ∷ ts) + k ≡ length n + 1 + extra + (tokens_weight ts + k)
      count = omega arith
  tokens-Ends k bound f tail (self_ref extra ∷ ts) stack behind bytes above part room rest names
        plain fits place holds =
      rw count (
        Ends-trans a out_len (extra + (tokens_weight ts + k)) _
          (Scanned-weaken a out_len 2 (omega arith) (
            Scanned-self a out_len behind (separators extra ++ tokens_text ts tail)
              (output_of stack) path_separator bytes refl place holds))
          (λ behind' bytes' place' holds'.
            settle-Ends (tokens_weight ts + k) _ extra stack behind' (tokens_text ts tail) bytes'
              (tokens-IsPart ts tail names part) (omega arith) place' holds'
              (λ behind'' bytes'' place'' holds''.
                tokens-Ends k bound f tail ts (settle extra stack) behind'' bytes'' above part room
                  rest names (settle-AllPlain extra stack plain)
                  (omega (arith, length-settle extra stack)) place'' holds'')))
    where
      count : tokens_weight (self_ref extra ∷ ts) + k ≡ 2 + (extra + (tokens_weight ts + k))
      count = omega arith
  tokens-Ends k bound f tail (parent_ref extra ∷ ts) stack behind bytes above part room rest names
        plain fits place holds =
      rw (count, >>=_assoc (leave stack) (λ stack'. walk_tokens (settle extra stack') ts) f)
        (leave-Ends a out_len (2 + (extra + (tokens_weight ts + k))) _ stack behind
          (separators extra ++ tokens_text ts tail) path_separator bytes above plain refl place
          holds
          (λ stack' behind' bytes' plain' shorter place' holds'.
            Ends-trans a out_len (extra + (tokens_weight ts + k)) _
              (Scanned-weaken a out_len 2 (omega arith)
                (Scanned-none a out_len behind' _ (output_of stack') bytes' true place' holds'))
              (λ behind' bytes' place' holds'.
                settle-Ends (tokens_weight ts + k) _ extra stack' behind' (tokens_text ts tail)
                  bytes' (tokens-IsPart ts tail names part) (omega arith) place' holds'
                  (λ behind'' bytes'' place'' holds''.
                    tokens-Ends k bound f tail ts (settle extra stack') behind'' bytes'' above part
                      room rest names (settle-AllPlain extra stack' plain')
                      (omega (arith, length-settle extra stack')) place'' holds''))))
    where
      count : tokens_weight (parent_ref extra ∷ ts) + k ≡ 1 + (2 + (extra + (tokens_weight ts + k)))
      count = omega arith
