-- ===== src/Memory/Pool/Tests.antt =====
-- A pool of three slots of eight bytes, and the theorems about it.
use libdane.Base.{
  ℕ, ◌+◌, ◌-◌, ◌*◌, ◌^◌, ◌≤◌, ◌<◌, ◌≡◌, ◌↔◌, refl, arith, true, Option, none, some, [], ◌∷◌, pos,
  negsuc,
}
use libdane.Common.{LibdResult, libd_ok, libd_no_memory, libd_invalid_pointer}
use libdane.Memory.Helpers.{is_valid_alignment, align_up}
use libdane.Memory.Linear.Valid.{IsAlignment}
use libdane.Memory.Pool.{
  PoolAllocator, Malloc, Reply, byte_index, head_byte_index, tail_byte_index, terminal_index,
  load_index, store_index, link_slots, initialize_free_list, slot_size, total_size, create_in,
  create, take_head, alloc, link_front, link_back, move_tail, free_slot, free_at, free, reset,
}
use libdane.Memory.Pool.Bytes.{load_u32, store_u32}
use libdane.Memory.Pool.Valid.{IsSized, IsPool}
use libdane.Memory.Pool.Alloc.{Popped, alloc-Popped}
use libdane.Memory.Pool.Free.{Freed, free-Freed}
use libdane.Memory.Pool.Pointers.{SlotOrRefused, free-SlotOrRefused}
use libdane.Memory.Pool.FreeList.{reset-IsFull}
use libdane.Memory.Pool.Create.{total_size_iff, create-IsPool}
use libdane.Memory.Pool.Misuse.{free_head_loses}
use libdane.Memory.Pool.Client.{Client, Reach, here, next, allocate}
use libdane.Memory.Pool.Client.Slots.{AllBelow}
use libdane.Memory.Pool.Client.Laws.{NextSlot, Reach-Distinct, Reach-NextSlot}
use libdane.Memory.Pool.Chain.{Distinct}

-- A system with memory for everyone, all bytes 7.
abbrev system : Malloc
system = record { grants = λ size. true; contents = λ q. 7 }

-- The result codes and pointers of a run of operations.
abbrev result_of : Option Reply → Option LibdResult
result_of none = none
result_of (some r) = some r.result

abbrev out_of : Option Reply → Option ℕ
out_of none = none
out_of (some r) = r.out

abbrev pool_of : Option Reply → Option PoolAllocator
pool_of none = none
pool_of (some r) = r.pa

abbrev made : Option PoolAllocator
made = pool_of (create system true 3 6 8)

abbrev after_alloc : Option PoolAllocator → Option PoolAllocator
after_alloc pa = pool_of (alloc pa true)

-- The offsets of the first and the last free slot.
abbrev offsets : Option PoolAllocator → ℕ × ℕ
offsets none = (0, 0)
offsets (some pa) = (head_byte_index pa, tail_byte_index pa)

made_offsets : offsets (after_alloc made) ≡ (8, 16)
unfolding create slot_size total_size create_in initialize_free_list link_slots store_index
    load_index byte_index head_byte_index tail_byte_index terminal_index load_u32 store_u32 alloc
    take_head is_valid_alignment align_up
made_offsets = refl

pool_run :
    (out_of (alloc made true) ≡ some 0)
    × (out_of (alloc (after_alloc made) true) ≡ some 8)
    × (out_of (alloc (after_alloc (after_alloc made)) true) ≡ some 16)
    × (result_of (alloc (after_alloc (after_alloc (after_alloc made))) true) ≡ some libd_no_memory)
    × (out_of (alloc (pool_of (free (after_alloc (after_alloc made)) (some (pos 8)))) true)
        ≡ some 8)
    × (result_of (free made (some (negsuc 3))) ≡ some libd_invalid_pointer)
    × (result_of (free made (some (pos 4))) ≡ some libd_invalid_pointer)
    × (result_of (free made (some (pos 24))) ≡ some libd_invalid_pointer)
unfolding create slot_size total_size create_in initialize_free_list link_slots store_index
    load_index byte_index terminal_index load_u32 store_u32 alloc take_head free free_at free_slot
    link_front link_back move_tail align_up is_valid_alignment
pool_run = (refl, refl, refl, refl, refl, refl, refl, refl)

-- Three slots, all free.
abbrev bytes : ℕ → ℕ
bytes = store_u32 (store_u32 (store_u32 (λ q. 7) 0 1) 8 2) 16 3

abbrev pool : PoolAllocator
pool = record {
  max_allocations = 3;
  bytes_per_alloc = 8;
  head_index = 0;
  tail_index = 2;
  bytes = bytes;
  room = 39;
}

pool-IsSized : IsSized pool
pool-IsSized = record {
  some_slots = omega arith;
  word = omega arith;
  wide = omega arith;
  offsets = omega arith;
  fits = omega arith;
}

pool-IsPool : IsPool (0 ∷ 1 ∷ 2 ∷ []) pool
unfolding load_u32 store_u32
pool-IsPool = record {
  sized = pool-IsSized;
  chain = omega arith;
  tail = refl;
  distinct = grind arith;
}

-- The pool with slot 0 taken.
abbrev taken : PoolAllocator
taken = record pool { head_index = 1 }

taken-IsPool : IsPool (1 ∷ 2 ∷ []) taken
unfolding load_u32 store_u32
taken-IsPool = record {
  sized = record {
    some_slots = omega arith;
    word = omega arith;
    wide = omega arith;
    offsets = omega arith;
    fits = omega arith;
  };
  chain = omega arith;
  tail = refl;
  distinct = grind arith;
}

alloc-Popped_example : Popped pool 0 (1 ∷ 2 ∷ []) (alloc (some pool) true)
alloc-Popped_example = alloc-Popped 0 (1 ∷ 2 ∷ []) pool-IsPool

free-Freed_example : Freed taken 0 (1 ∷ 2 ∷ []) (free (some taken) (some (pos 0)))
free-Freed_example = free-Freed 0 (1 ∷ 2 ∷ []) taken-IsPool (omega arith) (grind arith)

-- 2 ^ 32 slots behind slot 1 of the pool.
free-SlotOrRefused_example :
    SlotOrRefused pool (pos 34359738376) (free (some pool) (some (pos 34359738376)))
free-SlotOrRefused_example = free-SlotOrRefused pool-IsSized (pos 34359738376)

reset-IsFull_example :
    (after : PoolAllocator) × (reset (some taken)
      ≡ some (record { result = libd_ok; out = none; pa = some after }))
    × IsPool (0 ∷ 1 ∷ 2 ∷ []) after
    × (after.max_allocations ≡ 3)
reset-IsFull_example = reset-IsFull taken-IsPool.sized

free_head_loses_example :
    (after : PoolAllocator) × (free (some pool) (some (pos 0))
      ≡ some (record { result = libd_ok; out = none; pa = some after }))
    × IsPool (0 ∷ []) after
free_head_loses_example = free_head_loses 0 (1 ∷ 2 ∷ []) pool-IsPool

eight : IsAlignment 8
eight = (3, omega arith, refl)

rounded_six : align_up 6 8 < 2 ^ 32
unfolding align_up
rounded_six = omega arith

-- 65536 slots of 65536 bytes: `malloc` is asked for 65559 bytes.
total_size_iff_example :
    (65536 * 65536 ≤ total_size 65536 65536 8 - 16) ↔ ((65536 + 1) * 65536 < 2 ^ 32)
total_size_iff_example =
    total_size_iff 65536 65536 8 (omega arith) (omega arith) (omega arith) (omega arith)
      (omega arith)

overflow_run : total_size 65536 65536 8 ≡ 65559
unfolding total_size
overflow_run = refl

create-IsPool_example :
    (pa : PoolAllocator) × (create system true 3 6 8
      ≡ some (record { result = libd_ok; out = none; pa = some pa }))
    × IsPool (0 ∷ 1 ∷ 2 ∷ []) pa
    × (pa.max_allocations ≡ 3)
    × (pa.bytes_per_alloc ≡ slot_size 6 8)
create-IsPool_example =
    create-IsPool system 3 6 8 valid (omega arith) (omega arith) (omega arith) (omega arith)
      (omega arith) rounded_six product refl
  where
    valid : is_valid_alignment 8 ≡ true
    valid = unfold is_valid_alignment in refl

    product : (3 + 1) * slot_size 6 8 < 2 ^ 32
    product = unfold slot_size align_up in omega arith

abbrev client : Client
client = record { pa = taken; held = 0 ∷ [] }

client-Reach : Reach (record { pa = pool; held = [] }) client
unfolding alloc take_head load_index byte_index terminal_index load_u32 store_u32
client-Reach = next here (allocate (record { pa = pool; held = [] }) 0 taken refl)

Reach-Distinct_example : Distinct client.held × AllBelow 3 client.held
Reach-Distinct_example = Reach-Distinct pool-IsPool client-Reach

Reach-NextSlot_example : NextSlot 3 client
Reach-NextSlot_example = Reach-NextSlot pool-IsPool client-Reach
