-- ===== src/Memory/Linear.antt =====
-- src/memory/linear_allocator.c: an arena over a reservation of address space.
--
-- The system calls are not code of the library: each operation takes a `Kernel`, which says how
-- the calls are answered, and returns the calls that succeeded, in order. `Mapping` is what those
-- calls do to the allocator's address range: how many bytes are reserved, and how many of them,
-- from the start, can be read and written. A `NULL` handle is `none`, and a `NULL` out parameter is
-- `false`. A block is its offset from the allocator's `data` field.
pub mod Valid
pub mod Alloc
pub mod Create
pub mod Ungranted
pub mod Savepoint
pub mod Blocks
pub mod Arena
mod Tests
use Prim.Native.Nat.{min, max}
use libdane.Base.{
  ℕ, ◌+◌, ◌-◌, ◌*◌, ◌^◌, Bool, true, false, not, ◌&&◌, ◌||◌, Option, none, some, List, [], ◌∷◌,
  ◌==◌, ltb, if◌then◌else◌, u8, u32, u64,
}
use libdane.Common.{
  LibdResult, libd_ok, libd_err, libd_no_memory, libd_invalid_parameter, libd_invalid_alignment,
}
use libdane.Memory.Helpers.{is_valid_alignment, align_up}

pub record LinearAllocator : Type 0 where
  pub curr_data_size : ℕ
  pub head_index : ℕ
  pub alignment : ℕ
  pub header_size : ℕ
  pub sys_page_size : ℕ
  pub data_reservation_size : ℕ

-- `sizeof(struct linear_allocator)`: two words, two bytes and their padding, 4 bytes, a word.
abbrev pub sizeof_linear_allocator : ℕ
sizeof_linear_allocator = 32

pub record LinearAllocatorSavepoint : Type 0 where
  pub data_index : ℕ

-- How the system answers: `sysconf(_SC_PAGE_SIZE)`, with `none` for -1, and whether a call of each
-- of the others with that length succeeds.
pub record Kernel : Type 0 where
  pub page_size : Option ℕ
  pub mmap : ℕ → Bool
  pub mprotect : ℕ → Bool
  pub munmap : ℕ → Bool

-- The calls that succeeded, with their lengths. All of them start at the allocator.
pub data Syscall : Type 0 where
  mapped : ℕ → Syscall
  protected : ℕ → Syscall
  unmapped : ℕ → Syscall

pub record Mapping : Type 0 where
  pub reserved : ℕ
  pub writable : ℕ

abbrev pub unmapped_range : Mapping
unmapped_range = record { reserved = 0; writable = 0 }

-- `mprotect` changes the pages it is given and no other.
abbrev pub effect : Mapping → Syscall → Mapping
effect m (mapped len) = record { reserved = len; writable = 0 }
effect m (protected len) = record { reserved = m.reserved; writable = max m.writable len }
effect m (unmapped len) = record { reserved = m.reserved - len; writable = m.writable - len }

abbrev pub effects : Mapping → List Syscall → Mapping
effects m [] = m
effects m (c ∷ cs) = effects (effect m c) cs

pub record Created : Type 0 where
  pub result : LibdResult
  pub out : Option LinearAllocator
  pub calls : List Syscall

-- `out` is what was stored through the out parameter, `la` the allocator after the call.
pub record Reply (A : Type 0) : Type 0 where
  pub result : LibdResult
  pub out : Option A
  pub la : Option LinearAllocator
  pub calls : List Syscall

-- `_total_reservation_size`: the sum is done in `usize`.
unfoldable pub total_reservation_size : LinearAllocator → ℕ
total_reservation_size la =
    align_up (u64 (la.header_size + la.data_reservation_size)) la.sys_page_size

-- The part of `create` behind the parameter checks. The first sum is done in 32 bits: it adds a
-- `u8` to a `u32`.
unfoldable pub create_checked : Kernel → ℕ → ℕ → ℕ → ℕ → Created
create_checked k page_size data_reservation_size starting_capacity alignment =
    let header_size = u8 sizeof_linear_allocator in
    let total_reservation_size = align_up (u32 (header_size + data_reservation_size)) page_size in
    let curr_data_size = align_up starting_capacity page_size in
    let curr_total_size = align_up (u64 (header_size + curr_data_size)) page_size in
    if not (k.mmap total_reservation_size)
    then record { result = libd_err; out = none; calls = [] }
    else if not (k.mprotect curr_total_size)
    then record { result = libd_err; out = none; calls = mapped total_reservation_size ∷ [] }
    else record {
      result = libd_ok;
      out = some (record {
        curr_data_size = curr_data_size;
        head_index = 0;
        alignment = alignment;
        header_size = header_size;
        sys_page_size = u32 page_size;
        data_reservation_size = data_reservation_size;
      });
      calls = mapped total_reservation_size ∷ protected curr_total_size ∷ [];
    }

abbrev pub create_refused : LibdResult → Created
create_refused r = record { result = r; out = none; calls = [] }

unfoldable pub create : Kernel → Bool → ℕ → ℕ → ℕ → Created
create k out data_reservation_size starting_capacity alignment =
    if not out || starting_capacity == 0
    then create_refused libd_invalid_parameter
    else if not (is_valid_alignment alignment)
    then create_refused libd_invalid_alignment
    else elim k.page_size [
      | none ↦ create_refused libd_err
      | some page_size ↦
          create_checked k page_size data_reservation_size starting_capacity alignment
    ]

abbrev pub refused : {A : Type 0} → Option LinearAllocator → Reply A
refused la = record { result = libd_invalid_parameter; out = none; la = la; calls = [] }

-- The allocator is gone once `munmap` has succeeded.
unfoldable pub destroy : Kernel → Option LinearAllocator → Reply (Unit {0})
unfolding total_reservation_size
destroy k none = refused none
destroy k (some la) =
    if k.munmap (total_reservation_size la)
    then record {
      result = libd_ok;
      out = none;
      la = none;
      calls = unmapped (total_reservation_size la) ∷ [];
    }
    else record { result = libd_err; out = none; la = some la; calls = [] }

-- The size of the allocation, header included, that `alloc` grows to.
unfoldable pub grown_size : LinearAllocator → ℕ → ℕ
grown_size la size =
    let new_data_size = align_up (u64 (la.head_index + size)) (u64 (la.curr_data_size * 2)) in
    min (align_up (u64 (la.header_size + new_data_size)) la.sys_page_size)
      (total_reservation_size la)

-- Growing ignores the answer of `mprotect`.
unfoldable pub grow : Kernel → LinearAllocator → ℕ → LinearAllocator × List Syscall
grow k la size =
    let new_total_size = grown_size la size in
    (
      record la { curr_data_size = u64 (new_total_size + 2 ^ 64 - la.header_size) },
      if k.mprotect new_total_size then protected new_total_size ∷ [] else [],
    )

-- The end of `alloc`: hand out the block at the head and move the head behind it.
unfoldable pub bump : LinearAllocator → List Syscall → ℕ → Reply ℕ
bump la calls size = record {
  result = libd_ok;
  out = some la.head_index;
  la = some (record la { head_index = u64 (la.head_index + align_up size la.alignment) });
  calls = calls;
}

unfoldable pub alloc : Kernel → Option LinearAllocator → Bool → ℕ → Reply ℕ
alloc k none out_ptr size = refused none
alloc k (some la) out_ptr size =
    if not out_ptr
    then refused (some la)
    else if ltb la.curr_data_size (u64 (la.head_index + size))
    then (if ltb la.data_reservation_size (u64 (la.head_index + size))
        then record { result = libd_no_memory; out = none; la = some la; calls = [] }
        else bump (grow k la size).0 (grow k la size).1 size)
    else bump la [] size

abbrev pub quiet : {A : Type 0} → Option A → LinearAllocator → Reply A
quiet out la = record { result = libd_ok; out = out; la = some la; calls = [] }

-- A savepoint holds the head in 32 bits.
unfoldable pub set_savepoint : Option LinearAllocator → Bool → Reply LinearAllocatorSavepoint
set_savepoint none out_sp = refused none
set_savepoint (some la) out_sp =
    if not out_sp
    then refused (some la)
    else quiet (some (record { data_index = u32 la.head_index })) la

unfoldable pub restore_savepoint :
    Option LinearAllocator → Option LinearAllocatorSavepoint → Reply (Unit {0})
restore_savepoint none sp = refused none
restore_savepoint (some la) none = refused (some la)
restore_savepoint (some la) (some sp) = quiet none (record la { head_index = sp.data_index })

unfoldable pub reset : Option LinearAllocator → Reply (Unit {0})
reset none = refused none
reset (some la) = quiet none (record la { head_index = 0 })

-- The difference wraps if the head is behind the data.
unfoldable pub bytes_free : Option LinearAllocator → Bool → Reply ℕ
bytes_free none out_size_bytes = refused none
bytes_free (some la) out_size_bytes =
    if not out_size_bytes
    then refused (some la)
    else quiet (some (u64 (la.curr_data_size + 2 ^ 64 - la.head_index))) la
