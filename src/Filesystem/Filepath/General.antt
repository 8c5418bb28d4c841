-- ===== src/Filesystem/Filepath/General.antt =====
-- What any path denotes, relative or from the root, with the answers of `normalize` on paths that it
-- does not handle well. `reached` is a normal form.
--
-- A stack holds the names so far, the last one first; an empty name is a separator alone. The first
-- one of a path from the root is empty.
pub mod Ends
pub mod Tokens
pub mod Walks
pub mod Refine
pub mod Rooted
use libdane.Base.{ℕ, zero, suc, ◌+◌, ◌≡◌, List, [], ◌∷◌, ◌++◌, length}
use libdane.Platform.Paths.{path_separator}
use libdane.Filesystem.Filepath.{dot}
use libdane.Filesystem.Filepath.Walk.{
  separators, IsName, Ending, at_separator, in_name, in_self, in_parent, ending_weight,
}

pub data Meaning (A : Type 0) : Type 0 where
  reached : A → Meaning A
  refused : Meaning A
  out_of_bounds : Meaning A

infixl 5 ◌>>=◌
abbrev pub ◌>>=◌ : {A B : Type 0} → Meaning A → (A → Meaning B) → Meaning B
reached a >>= f = f a
refused >>= f = refused
out_of_bounds >>= f = out_of_bounds

-- Each with one separator behind it, and further ones.
pub data Token : Type 0 where
  segment : List ℕ → ℕ → Token
  self_ref : ℕ → Token
  parent_ref : ℕ → Token

abbrev pub tokens_text : List Token → List ℕ → List ℕ
tokens_text [] tail = tail
tokens_text (segment n extra ∷ ts) tail =
    n ++ path_separator ∷ (separators extra ++ tokens_text ts tail)
tokens_text (self_ref extra ∷ ts) tail =
    dot ∷ path_separator ∷ (separators extra ++ tokens_text ts tail)
tokens_text (parent_ref extra ∷ ts) tail =
    dot ∷ dot ∷ path_separator ∷ (separators extra ++ tokens_text ts tail)

-- The bytes behind the last separator: the terminator, and `rest` behind it up to the end of the
-- object.
abbrev pub last_text : Ending → List ℕ → List ℕ
last_text at_separator rest = 0 ∷ rest
last_text (in_name n) rest = n ++ 0 ∷ rest
last_text in_self rest = dot ∷ 0 ∷ rest
last_text in_parent rest = dot ∷ dot ∷ 0 ∷ rest

-- `lead` separators, none for a relative path.
abbrev pub any_text : ℕ → List Token → Ending → List ℕ → List ℕ
any_text lead ts ending rest = separators lead ++ tokens_text ts (last_text ending rest)

abbrev pub tokens_weight : List Token → ℕ
tokens_weight [] = 0
tokens_weight (segment n extra ∷ ts) = length n + 1 + extra + tokens_weight ts
tokens_weight (self_ref extra ∷ ts) = 2 + extra + tokens_weight ts
tokens_weight (parent_ref extra ∷ ts) = 3 + extra + tokens_weight ts

-- The number of bytes up to the terminator.
abbrev pub any_weight : ℕ → List Token → Ending → ℕ
any_weight lead ts ending = lead + (tokens_weight ts + ending_weight ending)

abbrev pub Segments : List Token → Type 0
Segments [] = Unit {0}
Segments (segment n extra ∷ ts) = IsName n × Segments ts
Segments (self_ref extra ∷ ts) = Segments ts
Segments (parent_ref extra ∷ ts) = Segments ts

-- Behind a reference at the end, the terminator is the last byte of the object or followed by
-- another one.
abbrev pub StopsBehind : Ending → List ℕ → Type 0
StopsBehind in_self (c ∷ rest) = c ≡ 0
StopsBehind in_parent (c ∷ rest) = c ≡ 0
StopsBehind _ _ = Unit {0}

-- Further separators behind a reference, or before a path, are written as one.
abbrev pub settle : ℕ → List (List ℕ) → List (List ℕ)
settle zero stack = stack
settle (suc extra) stack = [] ∷ stack

-- The parent of the start of the path and of the root is an error. Taking the first name off a
-- relative path reads the byte before the output.
abbrev pub leave : List (List ℕ) → Meaning (List (List ℕ))
leave [] = refused
leave ([] ∷ []) = refused
leave ((c ∷ n) ∷ []) = out_of_bounds
leave (n ∷ m ∷ stack) = reached (m ∷ stack)

abbrev pub walk_tokens : List (List ℕ) → List Token → Meaning (List (List ℕ))
walk_tokens stack [] = reached stack
walk_tokens stack (segment n extra ∷ ts) = walk_tokens (n ∷ stack) ts
walk_tokens stack (self_ref extra ∷ ts) = walk_tokens (settle extra stack) ts
walk_tokens stack (parent_ref extra ∷ ts) =
    leave stack >>= λ stack'. walk_tokens (settle extra stack') ts

abbrev pub render_stack : List (List ℕ) → List ℕ
render_stack [] = []
render_stack (n ∷ stack) = render_stack stack ++ n ++ path_separator ∷ []

-- Behind a reference at the end the scan goes on after the terminator.
abbrev pub past : List ℕ → List (List ℕ) → Meaning (List ℕ)
past [] stack = out_of_bounds
past (c ∷ rest) stack = reached (render_stack stack)

abbrev pub finish : Ending → List ℕ → List (List ℕ) → Meaning (List ℕ)
finish at_separator rest stack = reached (render_stack stack)
finish (in_name n) rest stack = reached (render_stack stack ++ n)
finish in_self rest stack = past rest stack
finish in_parent rest stack = leave stack >>= past rest

unfoldable pub meaning : ℕ → List Token → Ending → List ℕ → Meaning (List ℕ)
meaning lead ts ending rest = walk_tokens (settle lead []) ts >>= finish ending rest
