-- ===== src/Filesystem/Filepath/Stack.antt =====
-- Names that are written with their last byte first.
use mathlib.Core.List.{reverse_aux}
use libdane.Base.{ℕ, ◌≡◌, refl, List, [], ◌∷◌, ◌++◌}
use libdane.Filesystem.Filepath.Written.{NoSeparator}
use libdane.Filesystem.Filepath.Walk.{IsPlain}

abbrev pub AllPlain : List (List ℕ) → Type 0
AllPlain [] = Unit {0}
AllPlain (n ∷ stack) = IsPlain n × AllPlain stack

pub NoSeparator-reverse_aux :
    (xs acc : List ℕ) → IsPlain xs → NoSeparator acc → NoSeparator (reverse_aux xs acc)
NoSeparator-reverse_aux [] acc plain free = free
NoSeparator-reverse_aux (x ∷ xs) acc plain free =
    NoSeparator-reverse_aux xs (x ∷ acc) plain.2 (plain.1, free)

pub reverse-reverse_aux :
    (xs acc acc' : List ℕ) → reverse_aux (reverse_aux xs acc) acc' ≡ reverse_aux acc (xs ++ acc')
reverse-reverse_aux [] acc acc' = refl
reverse-reverse_aux (x ∷ xs) acc acc' = reverse-reverse_aux xs (x ∷ acc) acc'
