-- ===== src/Memory/Pool/Valid.antt =====
-- When a pool is in order: its sizes, and its free list as a list of slots.
use libdane.Base.{ℕ, ◌+◌, ◌*◌, ◌^◌, ◌≤◌, ◌<◌, ◌≡◌, arith, true, some, List, leb}
use libdane.Memory.Pool.{PoolAllocator, byte_index, load_index, store_index}
use libdane.Memory.Pool.Bytes.{load_u32, store_u32}
use libdane.Memory.Pool.Chain.{Chain, Distinct, last_or}

-- The pool's sizes: the slots lie in the allocation, and their offsets fit 32 bits.
pub record IsSized (pa : PoolAllocator) : Type 0 where
  pub some_slots : 0 < pa.max_allocations
  pub word : pa.max_allocations < 2 ^ 32
  pub wide : 4 ≤ pa.bytes_per_alloc
  pub offsets : pa.max_allocations * pa.bytes_per_alloc ≤ 2 ^ 32
  pub fits : pa.max_allocations * pa.bytes_per_alloc ≤ pa.room

-- The pool's free slots are those of the list, in this order.
pub record IsPool (free_list : List ℕ) (pa : PoolAllocator) : Type 0 where
  pub sized : IsSized pa
  pub chain : Chain pa.bytes pa.bytes_per_alloc pa.max_allocations pa.head_index free_list
  pub tail : pa.tail_index ≡ last_or pa.max_allocations free_list
  pub distinct : Distinct free_list

mul_le : (a b w : ℕ) → a ≤ b → a * w ≤ b * w
mul_le a b w h = grind arith

module _ {pa : PoolAllocator} (s : IsSized pa) (i : ℕ) (below : i < pa.max_allocations) where
  slot_end : i * pa.bytes_per_alloc + pa.bytes_per_alloc ≤ pa.max_allocations * pa.bytes_per_alloc
  slot_end = omega (arith, mul_le (i + 1) pa.max_allocations pa.bytes_per_alloc (omega arith))

  pub byte_index_lem : byte_index pa i ≡ i * pa.bytes_per_alloc
  unfolding byte_index
  byte_index_lem = omega (arith, slot_end, s.offsets, s.wide)

  in_room : leb (byte_index pa i + 4) pa.room ≡ true
  in_room = rw byte_index_lem (ground (arith, slot_end, s.fits, s.wide))

  pub load_index-ok : load_index pa i ≡ some (load_u32 pa.bytes (i * pa.bytes_per_alloc))
  unfolding load_index
  load_index-ok = rw (in_room, byte_index_lem)

  pub store_index-ok :
      (v : ℕ)
      → store_index pa i v
        ≡ some (record pa { bytes = store_u32 pa.bytes (i * pa.bytes_per_alloc) v })
  unfolding store_index
  store_index-ok v = rw (in_room, byte_index_lem)

abbrev pub with_bytes : PoolAllocator → (ℕ → ℕ) → PoolAllocator
with_bytes pa b = record pa { bytes = b }
