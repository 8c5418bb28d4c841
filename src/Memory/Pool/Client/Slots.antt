-- ===== src/Memory/Pool/Client/Slots.antt =====
-- Lists of slots: those that are held and those that are free.
use native.Mathlib.Decide.{ℕ_discrete}
use libdane.Base.{
  ℕ, suc, ◌<◌, ◌≡◌, sym, ◌≢◌, inl, inr, arith, List, [], ◌∷◌, length, length-append, ltb, ◌==◌,
  Bool-cases, ==_of_ne, ==_iff,
}
use libdane.Memory.Pool.Chain.{NotIn, Distinct, NotIn-append}
use libdane.Memory.Pool.Free.{freed}
use libdane.Memory.Pool.Client.{IsIn, remove}

-- Every slot of the first list is no slot of the second.
abbrev pub Apart : List ℕ → List ℕ → Type 0
Apart [] ys = Unit {0}
Apart (x ∷ xs) ys = NotIn x ys × Apart xs ys

abbrev pub AllBelow : ℕ → List ℕ → Type 0
AllBelow n [] = Unit {0}
AllBelow n (x ∷ xs) = (x < n) × AllBelow n xs

pub IsIn-Apart : (s : ℕ) (xs ys : List ℕ) → IsIn s xs → Apart xs ys → NotIn s ys
IsIn-Apart s [] ys h a = absurd h
IsIn-Apart s (x ∷ xs) ys (inl e) a = rw e a.0
IsIn-Apart s (x ∷ xs) ys (inr h) a = IsIn-Apart s xs ys h a.1

pub IsIn-below : (s n : ℕ) (xs : List ℕ) → IsIn s xs → AllBelow n xs → s < n
IsIn-below s n [] h a = absurd h
IsIn-below s n (x ∷ xs) (inl e) a = omega arith
IsIn-below s n (x ∷ xs) (inr h) a = IsIn-below s n xs h a.1

-- The first free slot is not held.
pub Apart-NotIn : (s : ℕ) (xs ys : List ℕ) → Apart xs (s ∷ ys) → NotIn s xs
Apart-NotIn s [] ys a = tt
Apart-NotIn s (x ∷ xs) ys a = (λ e. a.0.0 (sym e), Apart-NotIn s xs ys a.1)

pub Apart-tail : (s : ℕ) (xs ys : List ℕ) → Apart xs (s ∷ ys) → Apart xs ys
Apart-tail s [] ys a = tt
Apart-tail s (x ∷ xs) ys a = (a.0.1, Apart-tail s xs ys a.1)

pub Apart-nil : (xs : List ℕ) → Apart xs []
Apart-nil [] = tt
Apart-nil (x ∷ xs) = (tt, Apart-nil xs)

pub NotIn-remove : (t s : ℕ) (xs : List ℕ) → NotIn t xs → NotIn t (remove s xs)
NotIn-remove t s [] out = tt
NotIn-remove t s (x ∷ xs) out = elim (Bool-cases (s == x)) [
  | inl e ↦ rw e out.1
  | inr e ↦ rw e (out.0, NotIn-remove t s xs out.1)
]

pub remove-Distinct : (s : ℕ) (xs : List ℕ) → Distinct xs → Distinct (remove s xs)
remove-Distinct s [] d = tt
remove-Distinct s (x ∷ xs) d = elim (Bool-cases (s == x)) [
  | inl e ↦ rw e d.1
  | inr e ↦ rw e (NotIn-remove x s xs d.0, remove-Distinct s xs d.1)
]

pub remove-AllBelow : (s n : ℕ) (xs : List ℕ) → AllBelow n xs → AllBelow n (remove s xs)
remove-AllBelow s n [] a = tt
remove-AllBelow s n (x ∷ xs) a = elim (Bool-cases (s == x)) [
  | inl e ↦ rw e a.1
  | inr e ↦ rw e (a.0, remove-AllBelow s n xs a.1)
]

-- A slot that is held once is not held after it is removed.
pub NotIn-remove_self : (s : ℕ) (xs : List ℕ) → Distinct xs → NotIn s (remove s xs)
NotIn-remove_self s [] d = tt
NotIn-remove_self s (x ∷ xs) d = elim (ℕ_discrete s x) [
  | yes e ↦ rw ((==_iff s x).1 e, e) d.0
  | no ne ↦ rw (==_of_ne s x ne) (ne, NotIn-remove_self s xs d.1)
]

pub length-remove : (s : ℕ) (xs : List ℕ) → IsIn s xs → length xs ≡ suc (length (remove s xs))
length-remove s [] h = absurd h
length-remove s (x ∷ xs) (inl e) = rw ((==_iff s x).1 e)
length-remove s (x ∷ xs) (inr h) = elim (ℕ_discrete s x) [
  | yes e ↦ rw ((==_iff s x).1 e)
  | no ne ↦ rw (==_of_ne s x ne) (omega (arith, length-remove s xs h))
]

NotIn-freed :
    (t head s : ℕ) (free_list : List ℕ)
    → t ≢ s
    → NotIn t free_list
    → NotIn t (freed head s free_list)
NotIn-freed t head s free_list ne out = elim (Bool-cases (ltb s head)) [
  | inl e ↦ rw e (ne, out)
  | inr e ↦ rw e (NotIn-append t s free_list out ne)
]

pub Apart-freed :
    (head s : ℕ) (xs free_list : List ℕ)
    → NotIn s xs
    → Apart xs free_list
    → Apart xs (freed head s free_list)
Apart-freed head s [] free_list out a = tt
Apart-freed head s (x ∷ xs) free_list out a = (
  NotIn-freed x head s free_list (λ e. out.0 (sym e)) a.0,
  Apart-freed head s xs free_list out.1 a.1,
)

pub remove-Apart : (s : ℕ) (xs ys : List ℕ) → Apart xs ys → Apart (remove s xs) ys
remove-Apart s [] ys a = tt
remove-Apart s (x ∷ xs) ys a = elim (Bool-cases (s == x)) [
  | inl e ↦ rw e a.1
  | inr e ↦ rw e (a.0, remove-Apart s xs ys a.1)
]

pub length-freed :
    (head s : ℕ) (free_list : List ℕ) → length (freed head s free_list) ≡ suc (length free_list)
length-freed head s free_list = elim (Bool-cases (ltb s head)) [
  | inl e ↦ rw e
  | inr e ↦ rw e (omega (arith, length-append free_list (s ∷ [])))
]
