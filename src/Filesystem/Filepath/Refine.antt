-- ===== src/Filesystem/Filepath/Refine.antt =====
-- `normalize` implements the specification for paths from the root: their components are tokens.
use libdane.Base.{
  ℕ, suc, ◌+◌, ◌≤◌, ◌<◌, ◌≡◌, refl, ap, ◌∙◌, arith, true, Option, none, some, List, [], ◌∷◌, ◌++◌,
  length,
}
use libdane.Common.{libd_ok, libd_invalid_path}
use libdane.Platform.Paths.{path_separator}
use libdane.Filesystem.Filepath.{Addresses, Outcome, done, normalize, dot}
use libdane.Filesystem.Filepath.Clean.{bytes_at}
use libdane.Filesystem.Filepath.Walk.{
  Component, name, self, parent, Ending, at_separator, in_name, in_self, in_parent, separators,
  text, ending_text, path_text, weight, path_weight, HasNames, EndsWell, walk, render,
  render_ending, denote,
}
use libdane.Filesystem.Filepath.General.{
  Meaning, reached, refused, ◌>>=◌, Token, segment, self_ref, parent_ref, tokens_text, last_text,
  any_text, tokens_weight, Segments, StopsBehind, leave, walk_tokens, render_stack, finish, meaning,
}
use libdane.Filesystem.Filepath.General.Ends.{Means}
use libdane.Filesystem.Filepath.General.Refine.{normalize-meaning}

-- The outcome for a path with this denotation: `libd_ok` with the normal form and a terminator, or
-- `libd_invalid_path`.
abbrev pub Normalized : Option (List ℕ) → Outcome → Type 0
Normalized none r = (out : ℕ → ℕ) × (r ≡ done libd_invalid_path out)
Normalized (some xs) r =
    (out : ℕ → ℕ) × (r ≡ done libd_ok out) × (bytes_at out 0 (length xs + 1) ≡ xs ++ 0 ∷ [])

abbrev answer : Option (List ℕ) → Meaning (List ℕ)
answer none = refused
answer (some xs) = reached xs

Means-Normalized : (r : Option (List ℕ)) (o : Outcome) → Means (answer r) o → Normalized r o
Means-Normalized none o means = means
Means-Normalized (some xs) o means = means

abbrev pub tokens_of : List Component → List Token
tokens_of [] = []
tokens_of (name n extra ∷ cs) = segment n extra ∷ tokens_of cs
tokens_of (self ∷ cs) = self_ref 0 ∷ tokens_of cs
tokens_of (parent ∷ cs) = parent_ref 0 ∷ tokens_of cs

-- The stack of a path from the root.
abbrev pub rooted : List (List ℕ) → List (List ℕ)
rooted [] = [] ∷ []
rooted (n ∷ stack) = n ∷ rooted stack

pub tokens_of-Segments : (cs : List Component) → HasNames cs → Segments (tokens_of cs)
tokens_of-Segments [] names = tt
tokens_of-Segments (name n extra ∷ cs) names = (names.0, tokens_of-Segments cs names.1)
tokens_of-Segments (self ∷ cs) names = tokens_of-Segments cs names
tokens_of-Segments (parent ∷ cs) names = tokens_of-Segments cs names

pub tokens_weight-tokens_of : (cs : List Component) → tokens_weight (tokens_of cs) ≡ weight cs
tokens_weight-tokens_of [] = refl
tokens_weight-tokens_of (name n extra ∷ cs) =
    ap (λ k. length n + 1 + extra + k) (tokens_weight-tokens_of cs)
tokens_weight-tokens_of (self ∷ cs) = ap (λ k. 2 + k) (tokens_weight-tokens_of cs)
tokens_weight-tokens_of (parent ∷ cs) = ap (λ k. 3 + k) (tokens_weight-tokens_of cs)

pub tokens_text-tokens_of :
    (cs : List Component) (tail : List ℕ) → tokens_text (tokens_of cs) tail ≡ text cs tail
tokens_text-tokens_of [] tail = refl
tokens_text-tokens_of (name n extra ∷ cs) tail =
    ap (λ xs. n ++ path_separator ∷ (separators extra ++ xs)) (tokens_text-tokens_of cs tail)
tokens_text-tokens_of (self ∷ cs) tail =
    ap (λ xs. dot ∷ path_separator ∷ xs) (tokens_text-tokens_of cs tail)
tokens_text-tokens_of (parent ∷ cs) tail =
    ap (λ xs. dot ∷ dot ∷ path_separator ∷ xs) (tokens_text-tokens_of cs tail)

leave-rooted :
    (n : List ℕ) (stack : List (List ℕ)) → leave (n ∷ rooted stack) ≡ reached (rooted stack)
leave-rooted [] [] = refl
leave-rooted [] (m ∷ stack) = refl
leave-rooted (c ∷ n) [] = refl
leave-rooted (c ∷ n) (m ∷ stack) = refl

pub walk_tokens-tokens_of :
    (stack : List (List ℕ)) (cs : List Component) (f : List (List ℕ) → Meaning (List ℕ))
    → (walk_tokens (rooted stack) (tokens_of cs) >>= f)
      ≡ elim (walk stack cs) [ none ↦ refused | some stack' ↦ f (rooted stack') ]
walk_tokens-tokens_of stack [] f = refl
walk_tokens-tokens_of stack (name n extra ∷ cs) f = walk_tokens-tokens_of (n ∷ stack) cs f
walk_tokens-tokens_of stack (self ∷ cs) f = walk_tokens-tokens_of stack cs f
walk_tokens-tokens_of [] (parent ∷ cs) f = refl
walk_tokens-tokens_of (n ∷ stack) (parent ∷ cs) f =
    rw (leave-rooted n stack) (walk_tokens-tokens_of stack cs f)

render_stack-rooted : (stack : List (List ℕ)) → render_stack (rooted stack) ≡ render stack
render_stack-rooted [] = refl
render_stack-rooted (n ∷ stack) =
    ap (λ xs. xs ++ n ++ path_separator ∷ []) (render_stack-rooted stack)

-- The bytes behind the first terminator.
abbrev beyond : Ending → List ℕ → List ℕ
beyond at_separator rest = rest
beyond (in_name n) rest = rest
beyond in_self rest = 0 ∷ rest
beyond in_parent rest = 0 ∷ rest

last_text-beyond :
    (ending : Ending) (rest : List ℕ)
    → last_text ending (beyond ending rest) ≡ ending_text ending rest
last_text-beyond at_separator rest = refl
last_text-beyond (in_name n) rest = refl
last_text-beyond in_self rest = refl
last_text-beyond in_parent rest = refl

beyond-StopsBehind : (ending : Ending) (rest : List ℕ) → StopsBehind ending (beyond ending rest)
beyond-StopsBehind at_separator rest = tt
beyond-StopsBehind (in_name n) rest = tt
beyond-StopsBehind in_self rest = refl
beyond-StopsBehind in_parent rest = refl

finish-rooted :
    (ending : Ending) (rest : List ℕ) (stack : List (List ℕ))
    → finish ending (beyond ending rest) (rooted stack) ≡ answer (render_ending stack ending)
finish-rooted at_separator rest stack = ap reached (render_stack-rooted stack)
finish-rooted (in_name n) rest stack = ap (λ xs. reached (xs ++ n)) (render_stack-rooted stack)
finish-rooted in_self rest stack = ap reached (render_stack-rooted stack)
finish-rooted in_parent rest [] = refl
finish-rooted in_parent rest (n ∷ stack) =
    rw (leave-rooted n stack) (ap reached (render_stack-rooted stack))

meaning-denote :
    (lead : ℕ) (cs : List Component) (ending : Ending) (rest : List ℕ)
    → meaning (suc lead) (tokens_of cs) ending (beyond ending rest) ≡ answer (denote cs ending)
unfolding meaning denote
meaning-denote lead cs ending rest =
    walk_tokens-tokens_of [] cs (finish ending (beyond ending rest)) ∙ finished (walk [] cs)
  where
    finished :
        (r : Option (List (List ℕ)))
        → (elim r [
          | none ↦ refused
          | some stack ↦ finish ending (beyond ending rest) (rooted stack)
        ])
          ≡ answer (elim r [ none ↦ none | some stack ↦ render_ending stack ending ])
    finished none = refl
    finished (some stack) = finish-rooted ending rest stack

any_text-path_text :
    (lead : ℕ) (cs : List Component) (ending : Ending) (rest : List ℕ)
    → any_text (suc lead) (tokens_of cs) ending (beyond ending rest) ≡ path_text lead cs ending rest
any_text-path_text lead cs ending rest =
    ap (λ xs. path_separator ∷ (separators lead ++ xs))
      (tokens_text-tokens_of cs _ ∙ ap (text cs) (last_text-beyond ending rest))

module _ (a : Addresses) (out_len : ℕ) where
  -- For a path from the root, of names in whole UTF-8 characters, single separators behind
  -- references, and two terminators behind a reference at its end, with an output that lies above
  -- the input and has room for the path: `normalize` ends with fuel for one round more than the
  -- path has bytes. It gives the normal form that the path denotes, or `libd_invalid_path` for a
  -- path that leaves the root.
  pub normalize-denote :
      (fuel lead : ℕ) (cs : List Component) (ending : Ending) (rest : List ℕ) (bytes : ℕ → ℕ)
      → a.input_path ≤ a.out_path
      → HasNames cs
      → EndsWell ending
      → path_weight lead cs ending < out_len
      → path_weight lead cs ending < fuel
      → Normalized
          (denote cs ending)
          (normalize a out_len fuel true bytes (some (path_text lead cs ending rest)))
  normalize-denote fuel lead cs ending rest bytes above names well room enough =
      rw (← any_text-path_text lead cs ending rest) (
        Means-Normalized (denote cs ending) _ (
          rw (← meaning-denote lead cs ending rest) (
            normalize-meaning a out_len fuel (suc lead) (tokens_of cs) ending (beyond ending rest)
              bytes above (tokens_of-Segments cs names) well (beyond-StopsBehind ending rest)
              (omega arith) (omega (arith, tokens_weight-tokens_of cs))
              (omega (arith, tokens_weight-tokens_of cs)))))
