-- ===== src/Utils/DArray.antt =====
-- include/libd/utils/darray.h: the growing array that `DEFINE_LIBD_DARRAY_IMPL(type)` defines.
--
-- `A` is the element type and `width` its `sizeof`. The memory of an array is a function from
-- indices to elements, of which those within `room` bytes exist; `room` is the size of the block
-- that `malloc` or `realloc` gave. `malloc` is a parameter. A call that is out of fuel is one
-- whose growth loop has not ended after that many rounds.
pub mod Growth
pub mod Contents
pub mod Valid
pub mod Writes
pub mod Blocks
pub mod Client
mod Tests
use libdane.Base.{
  ℕ, zero, suc, ◌+◌, ◌*◌, Bool, true, false, Option, none, some, List, [], ◌∷◌, ◌==◌, ltb, leb,
  if◌then◌else◌, u64, ℤ, pos, negsuc,
}

pub record DArray {ℓ} (A : Type ℓ) : Type ℓ where
  pub capacity : ℕ
  pub size : ℕ
  pub dat : Option (ℕ → A)
  pub room : ℕ

-- `sizeof(*arr)`: two sizes and a pointer.
abbrev pub sizeof_darray : ℕ
sizeof_darray = 24

-- Whether `malloc` or `realloc` gives that many bytes, and what is in them.
pub record Heap {ℓ} (A : Type ℓ) : Type ℓ where
  pub gives : ℕ → Bool
  pub fresh : ℕ → A

-- What a call did to the heap, the last first.
pub data HeapCall : Type 0 where
  allocated : ℕ → HeapCall
  freed : HeapCall

pub record Created {ℓ} (A : Type ℓ) : Type ℓ where
  pub arr : Option (DArray A)
  pub calls : List HeapCall

-- `done` is a return, with the array after it. `fault` is an access out of bounds.
pub data Outcome {ℓ} (A : Type ℓ) : Type ℓ where
  done : ℤ → Option (DArray A) → Outcome A
  fault : Outcome A
  out_of_fuel : Outcome A

-- `while (need > new_cap) new_cap *= 2`.
unfoldable pub grow_capacity : ℕ → ℕ → ℕ → Option ℕ
grow_capacity zero need new_cap = none
grow_capacity (suc fuel) need new_cap =
    let rest = grow_capacity fuel need (u64 (new_cap * 2)) in
    if ltb new_cap need then rest else some new_cap

-- The first `n` elements behind `src`, one after another, to index `i` on.
unfoldable pub copy_elements {ℓ} : {A : Type ℓ} → ℕ → List A → (ℕ → A) → ℕ → Option (ℕ → A)
copy_elements zero src dat i = some dat
copy_elements (suc n) [] dat i = none
copy_elements (suc n) (x ∷ src) dat i =
    copy_elements n src (λ q. if q == i then x else dat q) (i + 1)

-- `MAX(a, b)`.
abbrev pub max : ℕ → ℕ → ℕ
max a b = if ltb b a then a else b

module _ {ℓ} {A : Type ℓ} (heap : Heap A) (width : ℕ) where
  unfoldable pub create : ℕ → Created A
  create capacity =
      if capacity == 0
      then record { arr = none; calls = [] }
      else if heap.gives sizeof_darray
      then (if heap.gives (u64 (width * capacity))
          then record {
            arr = some (record {
              capacity = capacity;
              size = 0;
              dat = some heap.fresh;
              room = u64 (width * capacity);
            });
            calls = allocated (u64 (width * capacity)) ∷ allocated sizeof_darray ∷ [];
          }
          else record { arr = none; calls = freed ∷ allocated sizeof_darray ∷ [] })
      else record { arr = none; calls = [] }

  -- `realloc` to a new capacity: what fits the old block and the new one is kept.
  unfoldable pub reserve : DArray A → (ℕ → A) → ℕ → Option (DArray A)
  reserve arr dat new_cap =
      if new_cap == arr.capacity
      then some (record arr { dat = some dat })
      else if heap.gives (u64 (new_cap * width))
      then some (record arr {
        capacity = new_cap;
        dat = some (λ q. if leb ((q + 1) * width) arr.room then dat q else heap.fresh q);
        room = u64 (new_cap * width);
      })
      else none

  -- `memcpy` and the new size, in an array that has been grown. `n` elements of 2 ^ 64 bytes or more are
  -- an access out of bounds, since no object holds them; the source cuts that length to 64 bits.
  unfoldable pub write_at : DArray A → ℕ → List A → ℕ → Outcome A
  write_at arr i src n = elim arr.dat [
    | none ↦ fault
    | some dat ↦
        if leb ((i + n) * width) arr.room
        then elim (copy_elements n src dat i) [
          | none ↦ fault
          | some dat' ↦
              done (pos 0)
                (some (record arr { dat = some dat'; size = max (u64 (i + n)) arr.size }))
        ]
        else fault
  ]

  unfoldable pub memcpy_at : ℕ → Option (DArray A) → ℕ → Option (List A) → ℕ → Outcome A
  memcpy_at fuel none i src n = done (negsuc 2) none
  memcpy_at fuel (some arr) i none n = done (negsuc 2) (some arr)
  memcpy_at fuel (some arr) i (some src) n = elim arr.dat [
    | none ↦ done (negsuc 2) (some arr)
    | some dat ↦
        if ltb arr.size i
        then done (negsuc 1) (some arr)
        else elim (grow_capacity fuel (u64 (i + n)) arr.capacity) [
          | none ↦ out_of_fuel
          | some new_cap ↦ elim (reserve arr dat new_cap) [
            | none ↦ done (negsuc 0) (some arr)
            | some arr' ↦ write_at arr' i src n
          ]
        ]
  ]

  unfoldable pub append_n : ℕ → Option (DArray A) → Option (List A) → ℕ → Outcome A
  append_n fuel none src n = done (negsuc 2) none
  append_n fuel (some arr) src n = memcpy_at fuel (some arr) arr.size src n

  unfoldable pub append : ℕ → Option (DArray A) → Option (List A) → Outcome A
  append fuel arr src = append_n fuel arr src 1

  unfoldable pub insert_at : ℕ → Option (DArray A) → ℕ → Option (List A) → Outcome A
  insert_at fuel arr i src = memcpy_at fuel arr i src 1

module _ {ℓ} {A : Type ℓ} where
  unfoldable pub at : Option (DArray A) → ℕ → Option A
  at none i = none
  at (some arr) i = elim arr.dat [
    | none ↦ none
    | some dat ↦ if leb arr.size i then none else some (dat i)
  ]

  unfoldable pub destroy : Option (DArray A) → List HeapCall
  destroy none = []
  destroy (some arr) = elim arr.dat [ none ↦ freed ∷ [] | some dat ↦ freed ∷ freed ∷ [] ]
