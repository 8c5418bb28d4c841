-- ===== src/Utils/DArray/Client/Laws.antt =====
-- What a client of an array observes is what the codes of its calls say of a list.
use mathlib.Core.List.{append-nil}
use libdane.Base.{
  ℕ, ◌+◌, ◌-◌, ◌*◌, ◌^◌, ◌≤◌, ◌<◌, ◌≡◌, ◌≢◌, refl, ◌∙◌, arith, true, false, inl, inr, some, List,
  [], ◌∷◌, ◌++◌, length, get_elem?, ℤ, pos, negsuc, leb, lt→ltb, ◌==◌, ==_iff, Bool-cases,
}
use native.Mathlib.Decide.{dec_lt}
use libdane.Utils.DArray.{
  DArray, Heap, Outcome, done, max, sizeof_darray, memcpy_at, append_n, append, insert_at, at,
}
use libdane.Utils.DArray.Growth.{grow_capacity-Grown}
use libdane.Utils.DArray.Contents.{elements}
use libdane.Utils.DArray.Writes.{Growth, memcpy_at-given, memcpy_at-refused}
use libdane.Utils.DArray.Valid.{IsValid, mul_mono}
use libdane.Utils.DArray.Blocks.{create-IsValid, at-elements}
use libdane.Utils.DArray.Client.{
  Write, appending, appending_one, inserting, applied, is_inside, added, all_added, call, run,
  session, Replayed, finished, written, behind_end, no_memory,
}
use libdane.Utils.DArray.Client.Lists.{length-elements, take-elements, drop-elements}

max_le : (a b c : ℕ) → a ≤ c → b ≤ c → max a b ≤ c
max_le a b c h h' = ground arith

module _ {ℓ} {A : Type ℓ} (heap : Heap A) (width bound : ℕ) (small : bound < 2 ^ 63)
    (fits : (bound + bound) * width < 2 ^ 64) where
  -- A call that returns, with what its code says of a list.
  record Stepped (w : Write A) (arr : DArray A) (dat : ℕ → A) (r : Outcome A) : Type ℓ where
    code : ℤ
    after : DArray A
    memory : ℕ → A
    returns : r ≡ done code (some after)
    valid : IsValid width memory after
    size_le : after.size ≤ arr.size + added w
    replay :
        (ws : List (Write A)) (codes : List ℤ) (xs' : List A)
        → Replayed heap width ws codes (elements memory 0 after.size) xs'
        → Replayed heap width (w ∷ ws) (code ∷ codes) (elements dat 0 arr.size) xs'

  -- A write inside the array or at its end, granted or refused by the heap.
  memcpy_at-Stepped :
      (w : Write A) (arr : DArray A) (dat : ℕ → A) (i : ℕ) (src : List A)
      → IsValid width dat arr
      → i ≤ arr.size
      → i + length src ≤ bound
      → i + length src ≤ arr.size + added w
      → is_inside w (elements dat 0 arr.size) ≡ true
      → elements dat 0 i ++ (src ++ elements dat (i + length src) (arr.size - (i + length src)))
        ≡ applied w (elements dat 0 arr.size)
      → Stepped w arr dat (memcpy_at heap width 64 (some arr) i (some src) (length src))
  memcpy_at-Stepped w arr dat i src v le room grows inside spells =
      elim (Bool-cases (heap.gives (g.cap * width))) [
        | inl given ↦ granted (λ other. given)
        | inr failed ↦ elim (Bool-cases (g.cap == arr.capacity)) [
          | inl e ↦ granted (λ other. absurd (other ((==_iff g.cap arr.capacity).0 e)))
          | inr ne ↦ record {
            code = negsuc 0;
            after = arr;
            memory = dat;
            returns =
                memcpy_at-refused heap width i src v le (omega arith) doubled g (λ e. ground arith)
                  failed;
            valid = v;
            size_le = omega arith;
            replay = λ ws codes xs' rest. no_memory w ws codes _ xs' g.cap inside failed rest;
          }
        ]
      ]
    where
      doubled : (i + length src + (i + length src)) * width < 2 ^ 64
      doubled = omega (
        arith,
        fits,
        mul_mono (i + length src + (i + length src)) (bound + bound) width (omega arith),
      )

      g : Growth arr (i + length src)
      g = grow_capacity-Grown (i + length src) arr.capacity v.nonempty (omega arith)

      granted :
          (g.cap ≢ arr.capacity → heap.gives (g.cap * width) ≡ true)
          → Stepped w arr dat (memcpy_at heap width 64 (some arr) i (some src) (length src))
      granted given =
          let o = memcpy_at-given heap width i src v le (omega arith) doubled g given in
          record {
            code = pos 0;
            after = o.after;
            memory = o.memory;
            returns = o.returns;
            valid = o.valid;
            size_le = rw o.size_eq (max_le (i + length src) arr.size _ grows (omega arith));
            replay = λ ws codes xs' rest.
                written w ws codes _ xs' inside (rw (o.contents ∙ spells) at rest);
          }

  -- At the end of the array nothing is overwritten.
  at_end :
      (arr : DArray A) (dat : ℕ → A) (src : List A)
      → elements dat 0 arr.size
          ++ (src ++ elements dat (arr.size + length src) (arr.size - (arr.size + length src)))
        ≡ elements dat 0 arr.size ++ src
  at_end arr dat src = rw (none_behind, append-nil src) refl
    where
      none_behind : arr.size - (arr.size + length src) ≡ 0
      none_behind = omega arith

  call-Stepped :
      (w : Write A) (arr : DArray A) (dat : ℕ → A)
      → IsValid width dat arr
      → arr.size + added w ≤ bound
      → Stepped w arr dat (call heap width w arr)
  unfolding append_n append insert_at
  call-Stepped (appending src) arr dat v room =
      memcpy_at-Stepped (appending src) arr dat arr.size src v (omega arith) room (omega arith) refl
        (at_end arr dat src)
  call-Stepped (appending_one x) arr dat v room =
      memcpy_at-Stepped (appending_one x) arr dat arr.size (x ∷ []) v (omega arith) room
        (omega arith) refl (at_end arr dat (x ∷ []))
  call-Stepped (inserting i x) arr dat v room = elim (dec_lt arr.size i) [
    | yes lt ↦ record {
      code = negsuc 1;
      after = arr;
      memory = dat;
      returns = unfold memcpy_at in simp (v.memory, lt→ltb arr.size i lt);
      valid = v;
      size_le = omega arith;
      replay = λ ws codes xs' rest. behind_end (inserting i x) ws codes _ xs' (outside lt) rest;
    }
    | no ge ↦
        memcpy_at-Stepped (inserting i x) arr dat i (x ∷ []) v (omega arith) (omega arith)
          (omega arith) (inside (omega arith))
          (rw
            (
              take-elements dat 0 i arr.size (omega arith),
              drop-elements dat 0 (i + 1) arr.size,
              here,
            )
            refl)
  ]
    where
      outside : arr.size < i → leb i (length (elements dat 0 arr.size)) ≡ false
      outside lt = rw (length-elements dat 0 arr.size) (ground arith)

      inside : i ≤ arr.size → leb i (length (elements dat 0 arr.size)) ≡ true
      inside le = rw (length-elements dat 0 arr.size) (ground arith)

      here : 0 + (i + 1) ≡ i + 1
      here = omega arith

  run-Replayed :
      (ws : List (Write A)) (arr : DArray A) (dat : ℕ → A)
      → IsValid width dat arr
      → arr.size + all_added ws ≤ bound
      → (codes : List ℤ) × (after : DArray A) × (memory : ℕ → A) × (run heap width ws arr
          ≡ some (codes, after))
        × IsValid width memory after
        × Replayed heap width ws codes (elements dat 0 arr.size) (elements memory 0 after.size)
  unfolding run
  run-Replayed [] arr dat v room = ([], arr, dat, refl, v, finished _)
  run-Replayed (w ∷ ws) arr dat v room =
      let s = call-Stepped w arr dat v (omega arith) in
      let (codes, after, memory, e, v', replayed) =
        run-Replayed ws s.after s.memory s.valid (omega (arith, s.size_le)) in
      (s.code ∷ codes, after, memory, rw (run, s.returns, e) refl, v', s.replay ws codes _ replayed)

  -- With a capacity that is not 0, whose bytes fit 64 bits, and for which the heap gives both
  -- blocks, and writes that add no more elements in all than a bound below 2 ^ 63, whose doubled
  -- size in bytes fits 64 bits: whichever growths the heap refuses, every call returns, with a code
  -- that fits the list of the elements so far; a write that is refused changes nothing. What `at`
  -- then gives is the lookup in the list that the codes lead to, at every index.
  pub session-Replayed :
      (capacity : ℕ) (ws : List (Write A))
      → 0 < capacity
      → capacity < 2 ^ 64
      → capacity * width < 2 ^ 64
      → heap.gives sizeof_darray ≡ true
      → heap.gives (width * capacity) ≡ true
      → all_added ws ≤ bound
      → (codes : List ℤ) × (after : DArray A) × (xs : List A) × (session heap width capacity ws
          ≡ some (codes, after))
        × Replayed heap width ws codes [] xs
        × ((i : ℕ) → at (some after) i ≡ get_elem? xs i)
  unfolding session
  session-Replayed capacity ws nonempty counted fits' header block room =
      let (arr, e, v, empty) =
        create-IsValid heap width capacity nonempty counted fits' header block in
      let (codes, after, memory, e', v', replayed) =
        run-Replayed ws arr heap.fresh v (omega (arith, empty)) in
      (
        codes,
        after,
        elements memory 0 after.size,
        rw (session, e, e') refl,
        rw empty at replayed,
        λ i. at-elements i v',
      )
