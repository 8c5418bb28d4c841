-- ===== src/Filesystem/Filepath/Walk.antt =====
-- The specification of normalisation: an absolute path is a list of components, which are walked on
-- a stack of names.
use libdane.Base.{◌≡◌, ℕ, zero, suc, ◌+◌, ◌≢◌, Option, none, some, List, [], ◌∷◌, ◌++◌, length}
use libdane.Platform.Paths.{path_separator}
use libdane.Utils.Encodings.{utf8_char_len}
use libdane.Filesystem.Filepath.{dot}

-- A name is followed by a separator and further ones, a reference by one separator.
pub data Component : Type 0 where
  name : List ℕ → ℕ → Component
  self : Component
  parent : Component

-- What stands behind the last separator.
pub data Ending : Type 0 where
  at_separator : Ending
  in_name : List ℕ → Ending
  in_self : Ending
  in_parent : Ending

abbrev pub separators : ℕ → List ℕ
separators zero = []
separators (suc n) = path_separator ∷ separators n

abbrev pub text : List Component → List ℕ → List ℕ
text [] tail = tail
text (name n extra ∷ cs) tail = n ++ path_separator ∷ (separators extra ++ text cs tail)
text (self ∷ cs) tail = dot ∷ path_separator ∷ text cs tail
text (parent ∷ cs) tail = dot ∷ dot ∷ path_separator ∷ text cs tail

-- The terminator with what is behind it. Two of them stand behind a reference at the end.
abbrev pub ending_text : Ending → List ℕ → List ℕ
ending_text at_separator rest = 0 ∷ rest
ending_text (in_name n) rest = n ++ 0 ∷ rest
ending_text in_self rest = dot ∷ 0 ∷ 0 ∷ rest
ending_text in_parent rest = dot ∷ dot ∷ 0 ∷ 0 ∷ rest

-- A path from the root: a separator and further ones, the components and the ending.
abbrev pub path_text : ℕ → List Component → Ending → List ℕ → List ℕ
path_text lead cs ending rest =
    path_separator ∷ (separators lead ++ text cs (ending_text ending rest))

-- The number of bytes of a path up to its terminator.
abbrev pub weight : List Component → ℕ
weight [] = 0
weight (name n extra ∷ cs) = length n + 1 + extra + weight cs
weight (self ∷ cs) = 2 + weight cs
weight (parent ∷ cs) = 3 + weight cs

abbrev pub ending_weight : Ending → ℕ
ending_weight at_separator = 0
ending_weight (in_name n) = length n
ending_weight in_self = 1
ending_weight in_parent = 2

abbrev pub path_weight : ℕ → List Component → Ending → ℕ
path_weight lead cs ending = 1 + lead + (weight cs + ending_weight ending)

-- Bytes that are no terminator and no separator.
abbrev pub IsPlain : List ℕ → Type 0
IsPlain [] = Unit {0}
IsPlain (c ∷ cs) = (c ≢ 0) × (c ≢ path_separator) × IsPlain cs

-- Whole characters: each as many bytes as its leading byte says.
pub data IsText : List ℕ → Type 0 where
  nothing : IsText []
  character :
      (c : ℕ) (r rest : List ℕ)
      → utf8_char_len c ≡ suc (length r)
      → IsText rest
      → IsText (c ∷ (r ++ rest))

-- A name is not empty and no reference.
abbrev pub IsName : List ℕ → Type 0
IsName n = IsPlain n × (n ≢ []) × (n ≢ dot ∷ []) × (n ≢ dot ∷ dot ∷ []) × IsText n

abbrev pub HasNames : List Component → Type 0
HasNames [] = Unit {0}
HasNames (name n extra ∷ cs) = IsName n × HasNames cs
HasNames (self ∷ cs) = HasNames cs
HasNames (parent ∷ cs) = HasNames cs

abbrev pub EndsWell : Ending → Type 0
EndsWell (in_name n) = IsName n
EndsWell _ = Unit {0}

-- The names from the root, the last one first. The parent of the root is an error.
abbrev pub walk : List (List ℕ) → List Component → Option (List (List ℕ))
walk stack [] = some stack
walk stack (name n extra ∷ cs) = walk (n ∷ stack) cs
walk stack (self ∷ cs) = walk stack cs
walk [] (parent ∷ cs) = none
walk (n ∷ stack) (parent ∷ cs) = walk stack cs

-- The normal form of a directory.
abbrev pub render : List (List ℕ) → List ℕ
render [] = path_separator ∷ []
render (n ∷ stack) = render stack ++ n ++ path_separator ∷ []

abbrev pub render_ending : List (List ℕ) → Ending → Option (List ℕ)
render_ending stack at_separator = some (render stack)
render_ending stack (in_name n) = some (render stack ++ n)
render_ending stack in_self = some (render stack)
render_ending [] in_parent = none
render_ending (n ∷ stack) in_parent = some (render stack)

-- What a path denotes: its normal form, or `none` for one that leaves the root.
unfoldable pub denote : List Component → Ending → Option (List ℕ)
denote cs ending = elim (walk [] cs) [ none ↦ none | some stack ↦ render_ending stack ending ]
