-- ===== src/Filesystem/Filepath/Spec.antt =====
-- What a byte of a path means, independent of the scan: a description on lists.
use libdane.Base.{ℕ, ◌<◌, ◌≡◌, ◌≢◌, Bool, true, false, ◌&&◌, List, [], ◌∷◌, ◌==◌, if◌then◌else◌}
use libdane.Platform.Paths.{path_separator}

-- A separator before another one, the dot of `.`, the first dot of `..`, or a byte that is kept.
pub data Kind : Type 0 where
  squeezed self parent kept : Kind

-- Whether a component ends before these bytes.
abbrev pub ends : List ℕ → Bool
ends [] = true
ends (c ∷ cs) = c == path_separator

abbrev pub ends_after_dot : List ℕ → Bool
ends_after_dot [] = false
ends_after_dot (c ∷ cs) = c == b'.' && ends cs

abbrev pub starts_with_separator : List ℕ → Bool
starts_with_separator [] = false
starts_with_separator (c ∷ cs) = c == path_separator

-- `first` says that a component starts at the byte.
abbrev pub classify : Bool → ℕ → List ℕ → Kind
classify first c cs =
    if c == path_separator
    then (if starts_with_separator cs then squeezed else kept)
    else if c == b'.'
    then (if first && ends cs then self else if first && ends_after_dot cs then parent else kept)
    else kept

-- ASCII bytes other than 0, all of them kept: a path without a reference to the same or to the
-- parent directory and without a separator next to another one.
abbrev pub IsClean : Bool → List ℕ → Type 0
IsClean first [] = Unit {0}
IsClean first (c ∷ cs) =
    (c < 0x80) × (c ≢ 0) × (classify first c cs ≡ kept) × IsClean (c == path_separator) cs
