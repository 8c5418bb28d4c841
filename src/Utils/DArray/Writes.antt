-- ===== src/Utils/DArray/Writes.antt =====
-- The writes of darray.h on a valid array: growth, the contents afterwards, and the errors.
use libdane.Base.{
  ℕ, ◌+◌, ◌-◌, ◌*◌, ◌^◌, ◌≤◌, ◌<◌, ◌≡◌, ◌≢◌, inl, inr, refl, ◌∙◌, arith, true, false, some, List,
  ◌++◌, length, u64, pos, negsuc, ==_of_ne, le→ltb,
}
use mathlib.Core.List.{append-nil}
use libdane.Utils.DArray.{
  DArray, Heap, Outcome, done, max, grow_capacity, reserve, write_at, memcpy_at, append_n,
}
use libdane.Utils.DArray.Growth.{Grown, grow_capacity-Grown}
use libdane.Utils.DArray.Contents.{elements, elements_ext, copy_elements-Copied, Copied-elements}
use libdane.Utils.DArray.Valid.{mul_mono, le→leb, IsValid, reserve-Reserved}

module _ {ℓ} {A : Type ℓ} where
  -- A successful write of `src` to index `i`: the elements before it are as they were, then there is
  -- `src`, and then what was behind it.
  pub record Overwritten (width : ℕ) (arr : DArray A) (dat : ℕ → A) (i : ℕ) (src : List A)
      (r : Outcome A) : Type ℓ where
    pub after : DArray A
    pub memory : ℕ → A
    pub returns : r ≡ done (pos 0) (some after)
    pub valid : IsValid width memory after
    pub size_eq : after.size ≡ max (i + length src) arr.size
    pub contents :
        elements memory 0 after.size
        ≡ elements dat 0 i ++ (src ++ elements dat (i + length src) (arr.size - (i + length src)))

  write_at-Overwritten :
      (heap : Heap A) (width : ℕ) {arr : DArray A} {dat : ℕ → A} (i : ℕ) (src : List A)
      → IsValid width dat arr
      → i ≤ arr.size
      → i + length src ≤ arr.capacity
      → Overwritten width arr dat i src (write_at heap width arr i src (length src))
  unfolding write_at
  write_at-Overwritten heap width {arr} {dat} i src v le room =
      let c = copy_elements-Copied src dat i in
      rw (v.memory, le→leb ((i + length src) * width) arr.room fits, c.returns, word)
        record {
          after = record arr { dat = some c.after; size = max (i + length src) arr.size };
          memory = c.after;
          returns = refl;
          valid = record {
            memory = refl;
            nonempty = v.nonempty;
            size_le = ground (arith, v.size_le);
            room_eq = v.room_eq;
            fits = v.fits;
            counted = v.counted;
          };
          size_eq = refl;
          contents = rw total (Copied-elements c (arr.size - (i + length src)));
        }
    where
      fits : (i + length src) * width ≤ arr.room
      fits = omega (arith, v.room_eq, mul_mono (i + length src) arr.capacity width room)

      word : u64 (i + length src) ≡ i + length src
      word = omega (arith, v.counted)

      total : max (i + length src) arr.size ≡ i + (length src + (arr.size - (i + length src)))
      total = ground arith

  -- The growth loop of a write, which has 64 rounds.
  abbrev pub Growth : DArray A → ℕ → Type 0
  Growth arr need = Grown need arr.capacity (grow_capacity 64 need arr.capacity)

  -- A write inside or at the end of a valid array, whose growth ends with a capacity in bounds.
  module _ (heap : Heap A) (width : ℕ) {arr : DArray A} {dat : ℕ → A} (i : ℕ) (src : List A)
      (v : IsValid width dat arr) (le : i ≤ arr.size) (small : i + length src < 2 ^ 63)
      (fits : (i + length src + (i + length src)) * width < 2 ^ 64)
      (g : Growth arr (i + length src)) where
    word : u64 (i + length src) ≡ i + length src
    word = omega arith

    grown_small : g.cap < 2 ^ 64
    grown_small = omega (arith, v.counted, g.tight)

    grown_fits : g.cap * width < 2 ^ 64
    grown_fits = elim g.tight [
      | inl e ↦ rw e v.fits
      | inr lt ↦
          omega (arith, mul_mono g.cap (i + length src + (i + length src)) width (omega arith))
    ]

    -- The heap gives the bytes of the new capacity, if there is one.
    pub memcpy_at-given :
        (g.cap ≢ arr.capacity → heap.gives (g.cap * width) ≡ true)
        → Overwritten width arr dat i src
            (memcpy_at heap width 64 (some arr) i (some src) (length src))
    unfolding memcpy_at
    memcpy_at-given given =
        let r = reserve-Reserved heap width g.cap v g.kept grown_small grown_fits given in
        let w =
          write_at-Overwritten heap width i src r.valid (omega (arith, r.size_eq))
            (omega (arith, g.enough, r.cap_eq)) in
        rw (v.memory, le→ltb arr.size i le, word, g.returns, r.returns)
          record {
            after = w.after;
            memory = w.memory;
            returns = w.returns;
            valid = w.valid;
            size_eq = w.size_eq ∙ rw r.size_eq refl;
            contents =
                rw
                  (
                    w.contents,
                    r.size_eq,
                    elements_ext r.memory dat 0 i (λ q lo hi. r.same q (omega arith)),
                    elements_ext r.memory dat (i + length src) (arr.size - (i + length src))
                        (λ q lo hi. r.same q (omega arith)),
                  )
                  refl;
          }

    -- It does not.
    pub memcpy_at-refused :
        g.cap ≢ arr.capacity
        → heap.gives (g.cap * width) ≡ false
        → memcpy_at heap width 64 (some arr) i (some src) (length src) ≡ done (negsuc 0) (some arr)
    unfolding memcpy_at reserve
    memcpy_at-refused other failed = simp (
      v.memory,
      le→ltb arr.size i le,
      word,
      g.returns,
      ==_of_ne g.cap arr.capacity other,
      product,
      failed,
    )
      where
        product : u64 (g.cap * width) ≡ g.cap * width
        product = omega (arith, grown_fits)

  -- The bytes of the new capacity are asked for, and given.
  abbrev pub Gives : Heap A → ℕ → ℕ → Type 0
  Gives heap width need = (cap : ℕ) → cap < need + need → heap.gives (cap * width) ≡ true

  -- For a valid array, a start inside the contents, a write up to 2 ^ 62 elements whose doubled size
  -- in bytes fits 64 bits, and a heap that gives what is asked for: `memcpy_at` ends and succeeds,
  -- keeps the array valid, and leaves the elements before the index, then the new ones, then what
  -- was behind them.
  pub memcpy_at-Overwritten :
      (heap : Heap A) (width : ℕ) {arr : DArray A} {dat : ℕ → A} (i : ℕ) (src : List A)
      → IsValid width dat arr
      → i ≤ arr.size
      → i + length src < 2 ^ 63
      → (i + length src + (i + length src)) * width < 2 ^ 64
      → Gives heap width (i + length src)
      → Overwritten width arr dat i src
          (memcpy_at heap width 64 (some arr) i (some src) (length src))
  memcpy_at-Overwritten heap width {arr} i src v le small fits gives =
      let g = grow_capacity-Grown (i + length src) arr.capacity v.nonempty (omega arith) in
      memcpy_at-given heap width i src v le small fits g
        (λ other. elim g.tight [ inl e ↦ absurd (other e) | inr lt ↦ gives g.cap lt ])

  -- Under the conditions of `memcpy_at-Overwritten`, `append_n` puts the new elements behind the old
  -- ones.
  pub append_n-elements :
      (heap : Heap A) (width : ℕ) {arr : DArray A} {dat : ℕ → A} (src : List A)
      → IsValid width dat arr
      → arr.size + length src < 2 ^ 63
      → (arr.size + length src + (arr.size + length src)) * width < 2 ^ 64
      → Gives heap width (arr.size + length src)
      → (after : DArray A) × (memory : ℕ → A) × (append_n heap width 64
            (some arr)
            (some src)
            (length src)
          ≡ done (pos 0) (some after))
        × IsValid width memory after
        × (elements memory 0 after.size ≡ elements dat 0 arr.size ++ src)
  unfolding append_n
  append_n-elements heap width {arr} {dat} src v small fits gives =
      let r = memcpy_at-Overwritten heap width arr.size src v (omega arith) small fits gives in
      (r.after, r.memory, r.returns, r.valid, r.contents ∙ rw (none_behind, append-nil src) refl)
    where
      none_behind : arr.size - (arr.size + length src) ≡ 0
      none_behind = omega arith
