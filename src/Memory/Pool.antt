-- ===== src/Memory/Pool.antt =====
-- src/memory/pool_allocator.c: slots of one size, with the free slots linked through their own
-- first four bytes.
--
-- `bytes` is the content of the flexible array `data` and `room` the number of bytes of it that
-- `malloc` returned. `none` is a fault: an access outside of `room`, a division by zero or a
-- read through `NULL`. A pointer is its offset from `data`, and a `NULL` pointer is `none`.
pub mod Bytes
pub mod Chain
pub mod Valid
pub mod Alloc
pub mod Free
pub mod Pointers
pub mod FreeList
pub mod Create
pub mod Client
pub mod Misuse
mod Tests
use libdane.Base.{
  ℕ, zero, suc, ◌+◌, ◌-◌, ◌*◌, ◌/◌, ◌%◌, ◌^◌, Bool, true, false, not, ◌||◌, Option, none, some,
  ◌==◌, ltb, leb, if◌then◌else◌, u32, u64, ℤ, pos, negsuc,
}
use libdane.Common.{
  LibdResult, libd_ok, libd_no_memory, libd_invalid_parameter, libd_invalid_alignment,
  libd_invalid_pointer, libd_free_list_failure,
}
use libdane.Memory.Helpers.{is_valid_alignment, align_up}
use libdane.Memory.Pool.Bytes.{load_u32, store_u32}

pub record PoolAllocator : Type 0 where
  pub max_allocations : ℕ
  pub bytes_per_alloc : ℕ
  pub head_index : ℕ
  pub tail_index : ℕ
  pub bytes : ℕ → ℕ
  pub room : ℕ

-- `sizeof(struct pool_allocator)`, without the flexible array.
abbrev pub sizeof_pool_allocator : ℕ
sizeof_pool_allocator = 16

abbrev pub sizeof_free_node : ℕ
sizeof_free_node = 4

-- `_aligned_sizeof_free_node`: a node is aligned to its size.
abbrev pub aligned_sizeof_free_node : ℕ
aligned_sizeof_free_node = align_up sizeof_free_node sizeof_free_node

abbrev pub u32_max : ℕ
u32_max = 2 ^ 32 - 1

-- How the system answers `malloc`: whether a request of that size is granted, and what the
-- memory holds at first.
pub record Malloc : Type 0 where
  pub grants : ℕ → Bool
  pub contents : ℕ → ℕ

-- `out` is what was stored through the out parameter, `pa` the allocator after the call.
pub record Reply : Type 0 where
  pub result : LibdResult
  pub out : Option ℕ
  pub pa : Option PoolAllocator

infixl 5 ◌>>=◌
abbrev pub ◌>>=◌ {ℓ κ} : {A : Type ℓ} {B : Type κ} → Option A → (A → Option B) → Option B
none >>= f = none
some a >>= f = f a

abbrev pub reply : LibdResult → Option PoolAllocator → Option Reply
reply r pa = some (record { result = r; out = none; pa = pa })

-- `_byte_index`: the product wraps at 32 bits.
unfoldable pub byte_index : PoolAllocator → ℕ → ℕ
byte_index pa i = u32 (i * pa.bytes_per_alloc)

-- No code uses the next two.
unfoldable pub head_byte_index : PoolAllocator → ℕ
head_byte_index pa = u32 (pa.head_index * pa.bytes_per_alloc)

unfoldable pub tail_byte_index : PoolAllocator → ℕ
tail_byte_index pa = u32 (pa.tail_index * pa.bytes_per_alloc)

unfoldable pub terminal_index : PoolAllocator → ℕ
terminal_index pa = pa.max_allocations

-- `memcpy(&index, _ptr_to_index(pa, i), sizeof(free_node))`.
unfoldable pub load_index : PoolAllocator → ℕ → Option ℕ
load_index pa i =
    if leb (byte_index pa i + sizeof_free_node) pa.room
    then some (load_u32 pa.bytes (byte_index pa i))
    else none

-- `memcpy(_ptr_to_index(pa, i), &index, sizeof(free_node))`.
unfoldable pub store_index : PoolAllocator → ℕ → ℕ → Option PoolAllocator
store_index pa i index =
    if leb (byte_index pa i + sizeof_free_node) pa.room
    then some (record pa { bytes = store_u32 pa.bytes (byte_index pa i) index })
    else none

-- The loop of `_initialize_free_list` at `i`, with the given number of rounds left.
unfoldable pub link_slots : ℕ → ℕ → PoolAllocator → Option PoolAllocator
link_slots zero i pa = some pa
link_slots (suc left) i pa = do
  pa ← store_index pa i (u32 (i + 1))
  link_slots left (u32 (i + 1)) pa

unfoldable pub initialize_free_list : PoolAllocator → Option PoolAllocator
initialize_free_list pa =
    let tail = u32 (terminal_index pa + 2 ^ 32 - 1) in
    link_slots tail 0 (record pa { head_index = 0; tail_index = tail }) >>= λ pa.
    store_index pa pa.tail_index (terminal_index pa)

-- The slot size: `bytes_per_alloc` rounded up in 32 bits, and room for a free-list node at least.
unfoldable pub slot_size : ℕ → ℕ → ℕ
slot_size bytes_per_alloc alignment =
    let aligned_bytes_per_alloc = u32 (align_up bytes_per_alloc alignment) in
    if ltb aligned_bytes_per_alloc aligned_sizeof_free_node
    then u32 aligned_sizeof_free_node
    else aligned_bytes_per_alloc

-- What is asked of `malloc`. The product is a product of 32-bit words.
unfoldable pub total_size : ℕ → ℕ → ℕ → ℕ
total_size max_allocations slot alignment =
    let data_size = u32 (u32 (max_allocations + 1) * slot) in
    u64 (sizeof_pool_allocator + data_size + alignment + 2 ^ 64 - 1)

-- The part of `create` behind the checks and `malloc`. `_initialize_free_list` never fails.
unfoldable pub create_in : Malloc → ℕ → ℕ → ℕ → Option Reply
create_in m max_allocations slot total =
    initialize_free_list (record {
      max_allocations = max_allocations;
      bytes_per_alloc = slot;
      head_index = 0;
      tail_index = 0;
      bytes = m.contents;
      room = total - sizeof_pool_allocator;
    })
    >>= λ pa. reply libd_ok (some pa)

unfoldable pub create : Malloc → Bool → ℕ → ℕ → ℕ → Option Reply
create m out_pa max_allocations bytes_per_alloc alignment =
    let slot = slot_size bytes_per_alloc alignment in
    let total = total_size max_allocations slot alignment in
    if not out_pa || max_allocations == 0 || bytes_per_alloc == 0
    then reply libd_invalid_parameter none
    else if not (is_valid_alignment alignment)
    then reply libd_invalid_alignment none
    else if max_allocations == u32_max
    then reply libd_no_memory none
    else if not (m.grants total)
    then reply libd_no_memory none
    else create_in m max_allocations slot total

unfoldable pub destroy : Option PoolAllocator → Option Reply
destroy none = reply libd_invalid_parameter none
destroy (some pa) = reply libd_ok none

-- The slot's first bytes are the new head.
unfoldable pub take_head : PoolAllocator → Option Reply
take_head pa = do
  next ← load_index pa pa.head_index
  let tail = if next == terminal_index pa then terminal_index pa else pa.tail_index
  some (record {
    result = libd_ok;
    out = some (byte_index pa pa.head_index);
    pa = some (record pa { head_index = next; tail_index = tail });
  })

unfoldable pub alloc : Option PoolAllocator → Bool → Option Reply
alloc none out_pointer = reply libd_invalid_parameter none
alloc (some pa) out_pointer =
    if not out_pointer
    then reply libd_invalid_parameter (some pa)
    else if pa.head_index == terminal_index pa
    then reply libd_no_memory (some pa)
    else take_head pa

-- In front of the list, if the slot lies before the head.
unfoldable pub link_front : PoolAllocator → ℕ → Option PoolAllocator
link_front pa free_index = do
  pa ← store_index pa free_index pa.head_index
  some (record pa { head_index = free_index })

-- Behind the tail otherwise.
unfoldable pub link_back : PoolAllocator → ℕ → Option PoolAllocator
link_back pa free_index = do
  pa ← store_index pa pa.tail_index free_index
  store_index (record pa { tail_index = free_index }) free_index (terminal_index pa)

-- Freeing out of a full allocator leaves the tail at the terminal index.
unfoldable pub move_tail : PoolAllocator → PoolAllocator
move_tail pa =
    if pa.tail_index == terminal_index pa then record pa { tail_index = pa.head_index } else pa

unfoldable pub free_slot : PoolAllocator → ℕ → Option Reply
free_slot pa free_index =
    (if ltb free_index pa.head_index then link_front pa free_index else link_back pa free_index)
    >>= λ pa. reply libd_ok (some (move_tail pa))

unfoldable pub free_at : PoolAllocator → ℕ → Option Reply
free_at pa byte_offset =
    let free_index = u32 (byte_offset / pa.bytes_per_alloc) in
    if pa.bytes_per_alloc == 0
    then none
    else if not (byte_offset % pa.bytes_per_alloc == 0)
    then reply libd_invalid_pointer (some pa)
    else if leb pa.max_allocations free_index
    then reply libd_invalid_pointer (some pa)
    else free_slot pa free_index

unfoldable pub free : Option PoolAllocator → Option ℤ → Option Reply
free none p_to_free = reply libd_invalid_parameter none
free (some pa) none = reply libd_invalid_parameter (some pa)
free (some pa) (some (negsuc n)) = reply libd_invalid_pointer (some pa)
free (some pa) (some (pos byte_offset)) = free_at pa byte_offset

-- There is no check for `NULL`.
unfoldable pub reset : Option PoolAllocator → Option Reply
reset none = none
reset (some pa) = initialize_free_list pa >>= λ pa. reply libd_ok (some pa)
