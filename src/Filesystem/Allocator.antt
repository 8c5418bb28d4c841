-- ===== src/Filesystem/Allocator.antt =====
-- src/filesystem/internal/allocator_wrap.c and src/filesystem/filepath_allocator.c: the allocator of
-- the filepath code, a linear allocator behind a handle.
pub mod Laws
pub mod Client
mod Tests
use libdane.Base.{ℕ, Option, none, some, List, true}
use libdane.Common.{LibdResult, libd_ok, libd_no_memory}
use libdane.Memory.Linear.{LinearAllocator, Kernel, Syscall, create, alloc, reset, destroy}

-- The allocator is `none` for `NULL` or a handle that holds none yet.
pub record FilepathAllocatorWrapper : Type 0 where
  pub a : Option LinearAllocator

-- The function pointers of a filepath allocator are constants, and its wrapper is the state.
pub record FilepathAllocator : Type 0 where
  pub wrapper : FilepathAllocatorWrapper

-- The handle is stored only when `libd_linear_allocator_create` stores one.
unfoldable pub wrapper_create :
    Kernel
    → FilepathAllocatorWrapper
    → ℕ
    → ℕ
    → ℕ
    → LibdResult × FilepathAllocatorWrapper × List Syscall
wrapper_create k allocator reserve size alignment =
    let c = create k true reserve size alignment in
    (c.result, elim c.out [ none ↦ allocator | some la ↦ record { a = some la } ], c.calls)

unfoldable pub wrapper_alloc :
    Kernel → FilepathAllocatorWrapper → ℕ → Option ℕ × FilepathAllocatorWrapper × List Syscall
wrapper_alloc k allocator bytes =
    let r = alloc k allocator.a true bytes in
    (elim r.result [ libd_ok ↦ r.out | _ ↦ none ], record { a = r.la }, r.calls)

unfoldable pub wrapper_reset : FilepathAllocatorWrapper → FilepathAllocatorWrapper
wrapper_reset allocator = record { a = (reset allocator.a).la }

-- The handle is cleared whatever `libd_linear_allocator_destroy` returned.
unfoldable pub wrapper_destroy :
    Kernel → FilepathAllocatorWrapper → FilepathAllocatorWrapper × List Syscall
wrapper_destroy k allocator = (record { a = none }, (destroy k allocator.a).calls)

-- 8 KiB are reserved, and 1 KiB is asked for at first. Every error becomes `libd_no_memory`.
unfoldable pub filepath_allocator_create :
    Kernel → FilepathAllocator → ℕ → LibdResult × FilepathAllocator × List Syscall
filepath_allocator_create k out_ta alignment =
    let r = wrapper_create k out_ta.wrapper 8192 1024 alignment in
    (elim r.0 [ libd_ok ↦ libd_ok | _ ↦ libd_no_memory ], record { wrapper = r.1 }, r.2)

unfoldable pub filepath_allocator_destroy :
    Kernel → FilepathAllocator → FilepathAllocator × List Syscall
filepath_allocator_destroy k ta =
    let r = wrapper_destroy k ta.wrapper in (record { wrapper = r.0 }, r.1)
