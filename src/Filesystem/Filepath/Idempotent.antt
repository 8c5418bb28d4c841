-- ===== src/Filesystem/Filepath/Idempotent.antt =====
-- A normal form is its own normal form: it is the path of the names on its stack.
use mathlib.Core.List.{append_assoc}
use mathlib.Core.Path.{subst}
use libdane.Base.{
  ℕ, ◌+◌, ◌≤◌, ◌<◌, ◌≡◌, refl, sym, ◌∙◌, arith, true, some, List, [], ◌∷◌, ◌++◌, length,
  length-append, Option-cases, inl, inr,
}
use libdane.Platform.Paths.{path_separator}
use libdane.Filesystem.Filepath.{Addresses, normalize}
use libdane.Filesystem.Filepath.Walk.{
  Component, name, self, parent, Ending, at_separator, in_name, in_self, in_parent, text, path_text,
  weight, path_weight, IsName, HasNames, EndsWell, walk, render, render_ending, denote,
}
use libdane.Filesystem.Filepath.Refine.{Normalized, normalize-denote}

-- The names of a stack, from the root.
names_of : List (List ℕ) → List Component → List Component
names_of [] cs = cs
names_of (n ∷ stack) cs = names_of stack (name n 0 ∷ cs)

abbrev AllNames : List (List ℕ) → Type 0
AllNames [] = Unit {0}
AllNames (n ∷ stack) = IsName n × AllNames stack

names_of-HasNames :
    (stack : List (List ℕ)) (cs : List Component)
    → AllNames stack
    → HasNames cs
    → HasNames (names_of stack cs)
unfolding names_of
names_of-HasNames [] cs all has = has
names_of-HasNames (n ∷ stack) cs all has =
    names_of-HasNames stack (name n 0 ∷ cs) all.1 (all.0, has)

walk-names_of :
    (stack : List (List ℕ)) (cs : List Component) → walk [] (names_of stack cs) ≡ walk stack cs
unfolding names_of
walk-names_of [] cs = refl
walk-names_of (n ∷ stack) cs = walk-names_of stack (name n 0 ∷ cs)

text-names_of :
    (stack : List (List ℕ)) (cs : List Component) (tail : List ℕ)
    → path_separator ∷ text (names_of stack cs) tail ≡ render stack ++ text cs tail
unfolding names_of
text-names_of [] cs tail = refl
text-names_of (n ∷ stack) cs tail =
    text-names_of stack (name n 0 ∷ cs) tail
    ∙ sym (
        append_assoc (render stack ++ n) (path_separator ∷ []) (text cs tail)
        ∙ append_assoc (render stack) n (path_separator ∷ text cs tail))

weight-names_of :
    (stack : List (List ℕ)) (cs : List Component)
    → 1 + weight (names_of stack cs) ≡ length (render stack) + weight cs
unfolding names_of
weight-names_of [] cs = refl
weight-names_of (n ∷ stack) cs = omega (
  arith,
  weight-names_of stack (name n 0 ∷ cs),
  length-append (render stack ++ n) (path_separator ∷ []),
  length-append (render stack) n,
)

walk-AllNames :
    (cs : List Component) (stack : List (List ℕ)) {stack' : List (List ℕ)}
    → HasNames cs
    → AllNames stack
    → walk stack cs ≡ some stack'
    → AllNames stack'
walk-AllNames [] stack names all e = subst AllNames (cc) all
walk-AllNames (name n extra ∷ cs) stack names all e =
    walk-AllNames cs (n ∷ stack) names.1 (names.0, all) e
walk-AllNames (self ∷ cs) stack names all e = walk-AllNames cs stack names all e
walk-AllNames (parent ∷ cs) [] names all e = cc
walk-AllNames (parent ∷ cs) (n ∷ stack) names all e = walk-AllNames cs stack names all.1 e

-- What a path denotes, as components and an ending.
record IsPath (xs : List ℕ) : Type 0 where
  components : List Component
  ending : Ending
  names : HasNames components
  well : EndsWell ending
  spelled : (rest : List ℕ) → path_text 0 components ending rest ≡ xs ++ 0 ∷ rest
  size : path_weight 0 components ending ≡ length xs
  denotes : denote components ending ≡ some xs

render-IsPath : (stack : List (List ℕ)) → AllNames stack → IsPath (render stack)
unfolding denote
render-IsPath stack all = record {
  components = names_of stack [];
  ending = at_separator;
  names = names_of-HasNames stack [] all tt;
  well = tt;
  spelled = λ rest. text-names_of stack [] (0 ∷ rest);
  size = omega (arith, weight-names_of stack []);
  denotes = rw (denote, walk-names_of stack []) refl;
}

name-IsPath :
    (stack : List (List ℕ)) (n : List ℕ) → AllNames stack → IsName n → IsPath (render stack ++ n)
unfolding denote
name-IsPath stack n all is = record {
  components = names_of stack [];
  ending = in_name n;
  names = names_of-HasNames stack [] all tt;
  well = is;
  spelled = λ rest.
      text-names_of stack [] (n ++ 0 ∷ rest) ∙ sym (append_assoc (render stack) n (0 ∷ rest));
  size = omega (arith, weight-names_of stack [], length-append (render stack) n);
  denotes = rw (denote, walk-names_of stack []) refl;
}

render_ending-IsPath :
    (stack : List (List ℕ)) (ending : Ending) {xs : List ℕ}
    → AllNames stack
    → EndsWell ending
    → render_ending stack ending ≡ some xs
    → IsPath xs
render_ending-IsPath stack at_separator all well e = subst IsPath (cc) (render-IsPath stack all)
render_ending-IsPath stack (in_name n) all well e = subst IsPath (cc) (name-IsPath stack n all well)
render_ending-IsPath stack in_self all well e = subst IsPath (cc) (render-IsPath stack all)
render_ending-IsPath [] in_parent all well e = cc
render_ending-IsPath (n ∷ stack) in_parent all well e =
    subst IsPath (cc) (render-IsPath stack all.1)

denote-IsPath :
    (cs : List Component) (ending : Ending) {xs : List ℕ}
    → denote cs ending ≡ some xs
    → HasNames cs
    → EndsWell ending
    → IsPath xs
unfolding denote
denote-IsPath cs ending e names well = elim (Option-cases (walk [] cs)) [
  | inl failed ↦ cc (rw (denote, failed) at e)
  | inr (stack, walked) ↦
      render_ending-IsPath stack ending (walk-AllNames cs [] names tt walked) well
        (rw (denote, walked) at e)
]

module _ (a : Addresses) (out_len : ℕ) where
  -- What a path from the root denotes is its own normal form: for names in whole UTF-8 characters, with
  -- an output that lies above the input and has room for it, fuel for one round more than it has
  -- bytes, and whatever is behind its terminator, `normalize` gives it back.
  pub normalize_again :
      (fuel : ℕ) (cs : List Component) (ending : Ending) (xs rest : List ℕ) (bytes : ℕ → ℕ)
      → a.input_path ≤ a.out_path
      → HasNames cs
      → EndsWell ending
      → denote cs ending ≡ some xs
      → length xs < out_len
      → length xs < fuel
      → Normalized (some xs) (normalize a out_len fuel true bytes (some (xs ++ 0 ∷ rest)))
  normalize_again fuel cs ending xs rest bytes above names well e room enough =
      rw (← p.spelled rest) (
        subst
          (λ d.
            Normalized d
              (normalize a out_len fuel true bytes (some (path_text 0 p.components p.ending rest))))
          p.denotes
          (normalize-denote a out_len fuel 0 p.components p.ending rest bytes above p.names p.well
            (omega (arith, p.size)) (omega (arith, p.size))))
    where
      p : IsPath xs
      p = denote-IsPath cs ending e names well
