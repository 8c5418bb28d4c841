-- ===== src/Utils/DArray/Tests.antt =====
-- Arrays of numbers of eight bytes each, and the theorems about them.
use libdane.Base.{
  ℕ, zero, ◌+◌, ◌^◌, ◌≡◌, refl, arith, Option, none, some, List, [], ◌∷◌, get_elem?, ℤ, pos, negsuc,
  leb,
}
use libdane.Utils.DArray.{
  DArray, Heap, Outcome, done, grow_capacity, copy_elements, create, reserve, write_at, memcpy_at,
  append_n, append, insert_at, at,
}
use libdane.Utils.DArray.Growth.{Grown, grow_capacity-Grown, grow_capacity_endless}
use libdane.Utils.DArray.Contents.{elements}
use libdane.Utils.DArray.Writes.{Overwritten, Gives, memcpy_at-Overwritten}
use libdane.Utils.DArray.Valid.{IsValid}
use libdane.Utils.DArray.Client.{Write, appending, appending_one, inserting, run, session, Replayed}
use libdane.Utils.DArray.Client.Laws.{session-Replayed}
use libdane.Utils.DArray.Blocks.{create-IsValid}

-- A heap of blocks up to 1024 bytes, filled with 0.
abbrev heap : Heap ℕ
heap = record { gives = λ n. leb n 1024; fresh = λ q. 0 }

abbrev memory : ℕ → ℕ
memory q = q + 10

-- The elements 10, 11 and 12, in memory for four.
abbrev array : DArray ℕ
array = record { capacity = 4; size = 3; dat = some memory; room = 32 }

array-IsValid : IsValid 8 memory array
array-IsValid = record {
  memory = refl;
  nonempty = omega arith;
  size_le = omega arith;
  room_eq = refl;
  fits = omega arith;
  counted = omega arith;
}

-- The contents after a call that succeeded.
contents : Outcome ℕ → List ℕ
contents (done (pos zero) (some arr)) = elim arr.dat [
  | none ↦ []
  | some dat ↦ elements dat 0 arr.size
]
contents _ = []

-- `insert_at` does not make room: the element that was there is gone.
inserted : contents (insert_at heap 8 64 (some array) 1 (some (5 ∷ []))) ≡ 10 ∷ 5 ∷ 12 ∷ []
unfolding contents insert_at memcpy_at grow_capacity reserve write_at copy_elements
inserted = refl

appended :
    contents (append_n heap 8 64 (some array) (some (1 ∷ 2 ∷ 3 ∷ [])) 3)
    ≡ 10 ∷ 11 ∷ 12 ∷ 1 ∷ 2 ∷ 3 ∷ []
unfolding contents append_n memcpy_at grow_capacity reserve write_at copy_elements
appended = refl

grow_capacity-Grown_example : Grown 9 4 (grow_capacity 64 9 4)
grow_capacity-Grown_example = grow_capacity-Grown 9 4 (omega arith) (omega arith)

grow_capacity_endless_example : grow_capacity 1000 (2 ^ 63 + 1) (2 ^ 3) ≡ none
grow_capacity_endless_example = grow_capacity_endless 1000 3 60 (2 ^ 63 + 1) refl (omega arith)

Gives-four : Gives heap 8 4
Gives-four cap lt = ground arith

Gives-six : Gives heap 8 6
Gives-six cap lt = ground arith

memcpy_at-Overwritten_example :
    Overwritten 8 array memory 2
      (7 ∷ 8 ∷ [])
      (memcpy_at heap 8 64 (some array) 2 (some (7 ∷ 8 ∷ [])) 2)
memcpy_at-Overwritten_example =
    memcpy_at-Overwritten heap 8 2 (7 ∷ 8 ∷ []) array-IsValid (omega arith) (omega arith)
      (omega arith) Gives-four

-- A heap that gives no more than 40 bytes.
abbrev tight : Heap ℕ
tight = record { gives = λ n. leb n 40; fresh = λ q. 0 }

-- The last growth is refused.
abbrev writes : List (Write ℕ)
writes =
    appending (1 ∷ 2 ∷ 3 ∷ [])
    ∷ inserting 1 9
    ∷ inserting 7 5
    ∷ appending_one 4
    ∷ appending_one 6
    ∷ []

codes_of : Option (List ℤ × DArray ℕ) → List ℤ
codes_of none = []
codes_of (some (codes, arr)) = codes

session_codes :
    codes_of (session tight 8 2 writes) ≡ pos 0 ∷ pos 0 ∷ negsuc 1 ∷ pos 0 ∷ negsuc 0 ∷ []
unfolding codes_of session run create append_n append insert_at memcpy_at grow_capacity reserve
    write_at copy_elements
session_codes = refl

session-Replayed_example :
    (codes : List ℤ) × (after : DArray ℕ) × (xs : List ℕ) × (session tight 8 2 writes
      ≡ some (codes, after))
    × Replayed tight 8 writes codes [] xs
    × ((i : ℕ) → at (some after) i ≡ get_elem? xs i)
session-Replayed_example =
    session-Replayed tight 8 40 (omega arith) (omega arith) 2 writes (omega arith) (omega arith)
      (omega arith) refl refl (omega arith)

create-IsValid_example :
    (arr : DArray ℕ) × ((create heap 8 16).arr ≡ some arr)
    × IsValid 8 heap.fresh arr
    × (arr.size ≡ 0)
create-IsValid_example =
    create-IsValid heap 8 16 (omega arith) (omega arith) (omega arith) refl refl
