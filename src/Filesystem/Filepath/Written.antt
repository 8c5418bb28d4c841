-- ===== src/Filesystem/Filepath/Written.antt =====
-- The output buffer as a stack: the bytes before the write position, the last one first.
use mathlib.Core.List.{reverse, reverse-append}
use libdane.Base.{
  ℕ, zero, suc, ◌+◌, ◌≤◌, ◌≡◌, ◌≢◌, refl, ap, sym, ◌∙◌, arith, none, some, List, [], ◌∷◌, ◌++◌,
  length, lt→ltb, ==_of_ne, ==_iff,
}
use libdane.Platform.Paths.{path_separator}
use libdane.Utils.Encodings.{put}
use libdane.Filesystem.Filepath.{Addresses, back_up}
use libdane.Filesystem.Filepath.Clean.{bytes_at}

abbrev pub written : (ℕ → ℕ) → ℕ → List ℕ
written b zero = []
written b (suc w) = b w ∷ written b w

pub length-written : (b : ℕ → ℕ) (w : ℕ) → length (written b w) ≡ w
length-written b zero = refl
length-written b (suc w) = ap suc (length-written b w)

-- A write at or behind the position does not change what is before it.
written-put_behind : (b : ℕ → ℕ) (w at c : ℕ) → w ≤ at → written (put b at c) w ≡ written b w
written-put_behind b zero at c le = refl
written-put_behind b (suc w) at c le =
    rw (==_of_ne w at (λ e. omega arith), written-put_behind b w at c (omega arith)) refl

pub written-put : (b : ℕ → ℕ) (w c : ℕ) → written (put b w c) (suc w) ≡ c ∷ written b w
written-put b w c = rw ((==_iff w w).1 refl, written-put_behind b w w c (omega arith)) refl

bytes_at-suc : (b : ℕ → ℕ) (q n : ℕ) → bytes_at b q (suc n) ≡ bytes_at b q n ++ b (q + n) ∷ []
bytes_at-suc b q zero = rw here refl
  where
    here : q + 0 ≡ q
    here = omega arith
bytes_at-suc b q (suc n) = rw next (ap (λ xs. b q ∷ xs) (bytes_at-suc b (q + 1) n))
  where
    next : q + suc n ≡ q + 1 + n
    next = omega arith

pub bytes_at-written : (b : ℕ → ℕ) (w : ℕ) → bytes_at b 0 w ≡ reverse (written b w)
bytes_at-written b zero = refl
bytes_at-written b (suc w) =
    bytes_at-suc b 0 w
    ∙ rw (here, bytes_at-written b w) (sym (reverse-append (b w ∷ []) (written b w)))
  where
    here : 0 + w ≡ w
    here = omega arith

-- No separator among these bytes.
abbrev pub NoSeparator : List ℕ → Type 0
NoSeparator [] = Unit {0}
NoSeparator (c ∷ cs) = (c ≢ path_separator) × NoSeparator cs

-- The inner loop of a parent reference stops behind the last separator, if the output lies above the
-- input.
pub back_up-written :
    (a : Addresses) (b : ℕ → ℕ) (w : ℕ) (name below : List ℕ)
    → a.input_path ≤ a.out_path
    → NoSeparator name
    → written b w ≡ name ++ path_separator ∷ below
    → (back_up a b w ≡ some (suc (length below)))
      × (written b (suc (length below)) ≡ path_separator ∷ below)
unfolding back_up
back_up-written a b zero [] below above free e = cc
back_up-written a b zero (c ∷ name) below above free e = cc
back_up-written a b (suc w) [] below above free e =
    rw (len, (==_iff (b w) path_separator).1 (cc)) (refl, e)
  where
    below_eq : written b w ≡ below
    below_eq = cc

    len : length below ≡ w
    len = sym (ap length below_eq) ∙ length-written b w
back_up-written a b (suc w) (c ∷ name) below above free e =
    rw
      (
        ==_of_ne (b w) path_separator (rw here free.0),
        lt→ltb (a.input_path + 0) (a.out_path + suc w) (omega arith),
      )
      (back_up-written a b w name below above free.1 (cc))
  where
    here : b w ≡ c
    here = cc

-- Without a separator before the position it reads the byte before the buffer.
pub back_up-none :
    (a : Addresses) (b : ℕ → ℕ) (w : ℕ)
    → a.input_path ≤ a.out_path
    → NoSeparator (written b w)
    → back_up a b w ≡ none
unfolding back_up
back_up-none a b zero above free = refl
back_up-none a b (suc w) above free =
    rw
      (
        ==_of_ne (b w) path_separator free.0,
        lt→ltb (a.input_path + 0) (a.out_path + suc w) (omega arith),
      )
      (back_up-none a b w above free.1)
