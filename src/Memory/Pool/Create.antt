-- ===== src/Memory/Pool/Create.antt =====
-- `libd_pool_allocator_create`: the sizes it computes, and the pool it returns.
use native.Mathlib.Nat.{mod-eq_of_lt, one-le-pow}
use native.Mathlib.Decide.{dec_lt}
use libdane.Base.{
  ℕ, zero, suc, ◌+◌, ◌-◌, ◌*◌, ◌%◌, ◌^◌, ◌≤◌, ◌<◌, ◌≡◌, ◌↔◌, refl, arith, true, none, some, u32,
  ltb, if◌then◌else◌, pow_mono, lt→ltb, le→ltb, ==_of_ne,
}
use libdane.Common.{libd_ok}
use libdane.Memory.Helpers.{is_valid_alignment, align_up}
use libdane.Memory.Linear.Create.{valid-IsAlignment}
use libdane.Memory.Linear.Valid.{IsAlignment, align_up_size}
use libdane.Memory.Pool.{
  PoolAllocator, Malloc, slot_size, total_size, create_in, create, initialize_free_list,
}
use libdane.Memory.Pool.Valid.{IsSized, IsPool}
use libdane.Memory.Pool.FreeList.{slots, IsFull, initialize_free_list-IsFull}

-- The free-list node takes four bytes.
node_size : align_up 4 4 ≡ 4
unfolding align_up
node_size = refl

slot_size_lem :
    (bytes al : ℕ)
    → slot_size bytes al ≡ (if ltb (u32 (align_up bytes al)) 4 then 4 else u32 (align_up bytes al))
unfolding slot_size
slot_size_lem bytes al = rw node_size

alignment_bounds : (al : ℕ) → IsAlignment al → (0 < al) × (al ≤ 16)
alignment_bounds al (k, hi, e) = rw e (one-le-pow k 2 (omega arith), pow_mono k 4 hi)

-- A slot holds what was asked for exactly when the rounded size fits 32 bits.
pub slot_size_iff :
    (bytes al : ℕ)
    → IsAlignment al
    → 0 < bytes
    → bytes < 2 ^ 32
    → (bytes ≤ slot_size bytes al) ↔ (align_up bytes al < 2 ^ 32)
slot_size_iff bytes al alignment pos small =
    rw slot_size_lem
      (ground (arith, align_up_size bytes al alignment small, alignment_bounds al alignment))

small_slot : (k r : ℕ) → 2 ^ k ≤ r → r < 4 → 4 % 2 ^ k ≡ 0
small_slot zero r le lt = refl
small_slot (suc zero) r le lt = refl
small_slot (suc (suc k)) r le lt = absurd (omega (arith, pow_mono 2 (suc (suc k)) (omega arith)))

multiple_le : (r p : ℕ) → 0 < r → r % p ≡ 0 → p ≤ r
multiple_le r p pos e = elim (dec_lt r p) [
  | yes lt ↦ absurd (omega (arith, mod-eq_of_lt lt))
  | no ge ↦ omega arith
]

-- A slot whose rounded size fits 32 bits is that size, or four bytes if that is more; either way a
-- multiple of the alignment that holds a free-list node.
pub slot_size_aligned :
    (bytes al : ℕ)
    → IsAlignment al
    → 0 < bytes
    → align_up bytes al < 2 ^ 32
    → bytes < 2 ^ 32
    → (slot_size bytes al % al ≡ 0) × (4 ≤ slot_size bytes al)
slot_size_aligned bytes al (k, hi, e) pos fits small =
    rw (slot_size_lem bytes al, word)
      (elim (dec_lt (align_up bytes al) 4) [
        | yes tiny ↦ rw (lt→ltb _ 4 tiny) (
          rw e (
              small_slot k (align_up bytes al)
                (rw (← e) (multiple_le (align_up bytes al) al (omega (arith, rounded)) rounded.2))
                tiny),
          omega arith,
        )
        | no large ↦ rw (le→ltb (align_up bytes al) 4 (omega arith)) (rounded.2, omega arith)
      ])
  where
    word : u32 (align_up bytes al) ≡ align_up bytes al
    word = mod-eq_of_lt fits

    rounded :
        (bytes ≤ align_up bytes al)
        × (align_up bytes al < bytes + al)
        × (align_up bytes al % al ≡ 0)
    rounded = align_up_size bytes al (k, hi, e) small

-- The memory that is asked for holds all slots exactly when the number of slots and one, times the
-- slot size, fits 32 bits.
pub total_size_iff :
    (max slot al : ℕ)
    → 0 < al
    → al ≤ 16
    → 4 ≤ slot
    → slot < 2 ^ 31
    → max < 2 ^ 32 - 1
    → (max * slot ≤ total_size max slot al - 16) ↔ ((max + 1) * slot < 2 ^ 32)
unfolding total_size
total_size_iff max slot al pos hi wide small few =
    rw (count, sum) (λ h. below (omega arith), λ h. omega (arith, mod-eq_of_lt h))
  where
    count : (max + 1) % 2 ^ 32 ≡ max + 1
    count = omega arith

    sum :
        (16 + (max + 1) * slot % 2 ^ 32 + al + 2 ^ 64 - 1) % 2 ^ 64
        ≡ 15 + (max + 1) * slot % 2 ^ 32 + al
    sum = omega arith

    below : max * slot < (max + 1) * slot % 2 ^ 32 + 16 → (max + 1) * slot < 2 ^ 32
    below h = elim (dec_lt ((max + 1) * slot) (2 ^ 32)) [
      | yes lt ↦ lt
      | no ge ↦ absurd (omega arith)
    ]

mul_le : (a b w : ℕ) → a ≤ b → a * w ≤ b * w
mul_le a b w h = grind arith

slot_small : (max slot : ℕ) → 0 < max → (max + 1) * slot < 2 ^ 32 → slot < 2 ^ 31
slot_small max slot pos h = omega (arith, mul_le 2 (max + 1) slot (omega arith))

-- With parameters whose sizes fit 32 bits and memory from `malloc`, `create` returns a pool of
-- that many slots, all free, each of the rounded size.
pub create-IsPool :
    (m : Malloc) (max bytes al : ℕ)
    → is_valid_alignment al ≡ true
    → al < 256
    → 0 < max
    → max < 2 ^ 32 - 1
    → 0 < bytes
    → bytes < 2 ^ 32
    → align_up bytes al < 2 ^ 32
    → (max + 1) * slot_size bytes al < 2 ^ 32
    → m.grants (total_size max (slot_size bytes al) al) ≡ true
    → (pa : PoolAllocator) × (create m true max bytes al
        ≡ some (record { result = libd_ok; out = none; pa = some pa }))
      × IsPool (slots 0 max) pa
      × (pa.max_allocations ≡ max)
      × (pa.bytes_per_alloc ≡ slot_size bytes al)
unfolding create
create-IsPool m max bytes al valid byte some_slots few pos small fits product granted =
    rw
      (
        ==_of_ne max 0 (omega arith),
        ==_of_ne bytes 0 (omega arith),
        valid,
        ==_of_ne max (2 ^ 32 - 1) (omega arith),
        granted,
      )
      (unfold create_in in (f.after, rw f.returns, f.valid, f.same_max, f.same_width))
  where
    alignment : IsAlignment al
    alignment = valid-IsAlignment al byte valid

    wide : 4 ≤ slot_size bytes al
    wide = (slot_size_aligned bytes al alignment pos fits small).1

    empty : PoolAllocator
    empty = record {
      max_allocations = max;
      bytes_per_alloc = slot_size bytes al;
      head_index = 0;
      tail_index = 0;
      bytes = m.contents;
      room = total_size max (slot_size bytes al) al - 16;
    }

    sized : IsSized empty
    sized = record {
      some_slots = some_slots;
      word = omega arith;
      wide = wide;
      offsets = omega arith;
      fits =
          (total_size_iff max (slot_size bytes al) al (alignment_bounds al alignment).0
              (alignment_bounds al alignment).1 wide
              (slot_small max (slot_size bytes al) some_slots product) few).1
            product;
    }

    f : IsFull empty (initialize_free_list empty)
    f = initialize_free_list-IsFull sized
