-- ===== src/Utils/DArray/Client.antt =====
-- A client of darray.h: any sequence of calls that write, on a heap that may refuse any growth, and
-- what the same calls do to a list.
pub mod Lists
pub mod Laws
use libdane.Base.{
  ℕ, suc, ◌+◌, ◌*◌, ◌≡◌, Bool, true, false, Option, none, some, List, [], ◌∷◌, ◌++◌, length, take,
  drop, leb, ℤ, pos, negsuc,
}
use libdane.Utils.DArray.{
  DArray, Heap, Outcome, done, fault, out_of_fuel, create, append_n, append, insert_at,
}

pub data Write {ℓ} (A : Type ℓ) : Type ℓ where
  appending : List A → Write A
  appending_one : A → Write A
  inserting : ℕ → A → Write A

module _ {ℓ} {A : Type ℓ} where
  -- `insert_at` takes the place of an element, and inserts at the end only.
  abbrev pub applied : Write A → List A → List A
  applied (appending src) xs = xs ++ src
  applied (appending_one x) xs = xs ++ x ∷ []
  applied (inserting i x) xs = take i xs ++ (x ∷ drop (i + 1) xs)

  -- Whether the index is inside the list or at its end.
  abbrev pub is_inside : Write A → List A → Bool
  is_inside (appending src) xs = true
  is_inside (appending_one x) xs = true
  is_inside (inserting i x) xs = leb i (length xs)

  abbrev pub added : Write A → ℕ
  added (appending src) = length src
  added (appending_one x) = 1
  added (inserting i x) = 1

  -- A bound of the elements that a sequence of writes adds.
  abbrev pub all_added : List (Write A) → ℕ
  all_added [] = 0
  all_added (w ∷ ws) = added w + all_added ws

module _ {ℓ} {A : Type ℓ} (heap : Heap A) (width : ℕ) where
  abbrev pub call : Write A → DArray A → Outcome A
  call (appending src) arr = append_n heap width 64 (some arr) (some src) (length src)
  call (appending_one x) arr = append heap width 64 (some arr) (some (x ∷ []))
  call (inserting i x) arr = insert_at heap width 64 (some arr) i (some (x ∷ []))

  -- What the calls return, and the array after them. There is none if a call does not return.
  unfoldable pub run : List (Write A) → DArray A → Option (List ℤ × DArray A)
  run [] arr = some ([], arr)
  run (w ∷ ws) arr = elim (call w arr) [
    | done code none ↦ none
    | done code (some arr') ↦ elim (run ws arr') [
      | none ↦ none
      | some (codes, after) ↦ some (code ∷ codes, after)
    ]
    | fault ↦ none
    | out_of_fuel ↦ none
  ]

  -- `create`, and the calls on what it returned.
  unfoldable pub session : ℕ → List (Write A) → Option (List ℤ × DArray A)
  session capacity ws = elim (create heap width capacity).arr [
    | none ↦ none
    | some arr ↦ run ws arr
  ]

  -- What the codes of the calls say of a list. A write at an index behind the end returns -2. A write
  -- that the heap refuses to grow for returns -1.
  pub data Replayed : List (Write A) → List ℤ → List A → List A → Type ℓ where
    finished : (xs : List A) → Replayed [] [] xs xs
    written :
        (w : Write A) (ws : List (Write A)) (codes : List ℤ) (xs xs' : List A)
        → is_inside w xs ≡ true
        → Replayed ws codes (applied w xs) xs'
        → Replayed (w ∷ ws) (pos 0 ∷ codes) xs xs'
    behind_end :
        (w : Write A) (ws : List (Write A)) (codes : List ℤ) (xs xs' : List A)
        → is_inside w xs ≡ false
        → Replayed ws codes xs xs'
        → Replayed (w ∷ ws) (negsuc 1 ∷ codes) xs xs'
    no_memory :
        (w : Write A) (ws : List (Write A)) (codes : List ℤ) (xs xs' : List A) (cap : ℕ)
        → is_inside w xs ≡ true
        → heap.gives (cap * width) ≡ false
        → Replayed ws codes xs xs'
        → Replayed (w ∷ ws) (negsuc 0 ∷ codes) xs xs'
