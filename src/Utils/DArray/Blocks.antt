-- ===== src/Utils/DArray/Blocks.antt =====
-- Creation and destruction of an array, and the blocks of the heap that they take and give back.
use libdane.Base.{
  ℕ, zero, suc, ◌+◌, ◌*◌, ◌^◌, ◌≤◌, ◌<◌, ◌≡◌, refl, sym, ◌∙◌, ◌-◌, arith, true, false, none, some,
  List, [], ◌∷◌, ◌++◌, get_elem?, ◌==◌, leb, u64, Bool-cases, inl, inr, ==_of_ne,
}
use native.Mathlib.Decide.{dec_lt}
use libdane.Utils.DArray.{
  DArray, Heap, HeapCall, allocated, freed, sizeof_darray, create, at, destroy,
}
use libdane.Utils.DArray.Contents.{elements}
use libdane.Utils.DArray.Valid.{IsValid}

-- The blocks that are taken and not given back.
abbrev pub held : List HeapCall → ℕ
held [] = 0
held (allocated n ∷ calls) = suc (held calls)
held (freed ∷ calls) = held calls - 1

module _ {ℓ} {A : Type ℓ} (heap : Heap A) (width : ℕ) where
  -- Whatever the heap gives, destroying what `create` returned gives back every block that it
  -- took, also when it failed half-way.
  pub create-destroy :
      (capacity : ℕ)
      → held (destroy (create heap width capacity).arr ++ (create heap width capacity).calls) ≡ 0
  unfolding create destroy
  create-destroy capacity = elim (Bool-cases (capacity == 0)) [
    | inl e ↦ rw e refl
    | inr e ↦ elim (Bool-cases (heap.gives sizeof_darray)) [
      | inl given ↦ elim (Bool-cases (heap.gives (u64 (width * capacity)))) [
        | inl given' ↦ rw (e, given, given') refl
        | inr failed ↦ rw (e, given, failed) refl
      ]
      | inr failed ↦ rw (e, failed) refl
    ]
  ]

  -- A capacity that is not 0 and whose bytes fit 64 bits, from a heap that gives both blocks: the
  -- new array is valid and empty.
  pub create-IsValid :
      (capacity : ℕ)
      → 0 < capacity
      → capacity < 2 ^ 64
      → capacity * width < 2 ^ 64
      → heap.gives sizeof_darray ≡ true
      → heap.gives (width * capacity) ≡ true
      → (arr : DArray A) × ((create heap width capacity).arr ≡ some arr)
        × IsValid width heap.fresh arr
        × (arr.size ≡ 0)
  unfolding create
  create-IsValid capacity pos counted fits header block =
      rw (==_of_ne capacity 0 (λ e. omega arith), header, word, block)
        (
          record { capacity = capacity; size = 0; dat = some heap.fresh; room = width * capacity },
          refl,
          record {
            memory = refl;
            nonempty = pos;
            size_le = omega arith;
            room_eq = omega arith;
            fits = fits;
            counted = counted;
          },
          refl,
        )
    where
      word : u64 (width * capacity) ≡ width * capacity
      word = omega arith

module _ {ℓ} {A : Type ℓ} where
  get_elem?-elements :
      (dat : ℕ → A) (from n i : ℕ)
      → (i < n → get_elem? (elements dat from n) i ≡ some (dat (from + i)))
        × (n ≤ i → get_elem? (elements dat from n) i ≡ none)
  get_elem?-elements dat from zero i = (λ h. absurd (omega arith), λ h. refl)
  get_elem?-elements dat from (suc n) zero = (λ h. rw here refl, λ h. absurd (omega arith))
    where
      here : from + 0 ≡ from
      here = omega arith
  get_elem?-elements dat from (suc n) (suc i) = (
    λ h. rw here ((get_elem?-elements dat (from + 1) n i).0 (omega arith)),
    λ h. (get_elem?-elements dat (from + 1) n i).1 (omega arith),
  )
    where
      here : from + suc i ≡ from + 1 + i
      here = omega arith

  -- In a valid array `at` is the lookup in its contents, at every index.
  pub at-elements :
      {width : ℕ} {dat : ℕ → A} {arr : DArray A} (i : ℕ)
      → IsValid width dat arr
      → at (some arr) i ≡ get_elem? (elements dat 0 arr.size) i
  unfolding at
  at-elements {dat = dat} {arr = arr} i v = rw v.memory (elim (dec_lt i arr.size) [
    | yes lt ↦ rw (lt_leb lt) (sym ((get_elem?-elements dat 0 arr.size i).0 lt ∙ rw here refl))
    | no ge ↦
        rw (ge_leb (omega arith)) (sym ((get_elem?-elements dat 0 arr.size i).1 (omega arith)))
  ])
    where
      here : 0 + i ≡ i
      here = omega arith

      lt_leb : i < arr.size → leb arr.size i ≡ false
      lt_leb h = ground arith

      ge_leb : arr.size ≤ i → leb arr.size i ≡ true
      ge_leb h = ground arith
