-- ===== src/Filesystem/Allocator/Tests.antt =====
-- A filepath allocator on systems with pages of 4 KiB and 16 KiB, and the theorems about it.
use libdane.Base.{ℕ, ◌≡◌, refl, arith, true, none, some, [], ◌∷◌, leb}
use libdane.Common.{libd_ok, libd_no_memory}
use libdane.Memory.Helpers.{is_valid_alignment, align_up}
use libdane.Memory.Linear.{
  LinearAllocator, Mapping, Kernel, mapped, create, create_checked, total_reservation_size, alloc,
  grow, grown_size, bump,
}
use libdane.Memory.Linear.Valid.{IsValid, Grants, Guards}
use libdane.Memory.Linear.Create.{requested}
use libdane.Filesystem.Allocator.{
  FilepathAllocator, wrapper_create, wrapper_alloc, wrapper_reset, wrapper_destroy,
  filepath_allocator_create,
}
use libdane.Memory.Linear.Blocks.{Disjoint, AllUsable}
use libdane.Filesystem.Allocator.Client.{
  Client, allocation, Runs, started, called, created_client, Runs-Disjoint,
}
use libdane.Filesystem.Allocator.Laws.{
  Served, wrapper_alloc-Served, filepath_allocator_create_large_pages,
}

-- A system that maps anything and gives access to `limit` bytes at most.
abbrev system : ℕ → ℕ → Kernel
system page limit = record {
  page_size = some page;
  mmap = λ len. true;
  mprotect = λ len. leb len limit;
  munmap = λ len. true;
}

abbrev empty : FilepathAllocator
empty = record { wrapper = record { a = none } }

created : (filepath_allocator_create (system 4096 12288) empty 8).0 ≡ libd_ok
unfolding filepath_allocator_create wrapper_create create create_checked align_up is_valid_alignment
created = refl

abbrev arena : LinearAllocator
arena = record {
  curr_data_size = 4096;
  head_index = 16;
  alignment = 8;
  header_size = 32;
  sys_page_size = 4096;
  data_reservation_size = 8192;
}

abbrev range : Mapping
range = record { reserved = 12288; writable = 8192 }

arena-IsValid : IsValid arena range
unfolding total_reservation_size align_up
arena-IsValid = record {
  header = refl;
  alignment = (3, omega arith, refl);
  page = (12, omega arith, omega arith, refl);
  aligned_head = refl;
  aligned_data = refl;
  nonempty = omega arith;
  head_le = omega arith;
  data_le = omega arith;
  writable_le = omega arith;
  reserved = refl;
  fits = omega arith;
}

-- The block of `alloc` lies at the head; after a reset the next one lies at the start.
reused :
    ((wrapper_alloc (system 4096 12288) (record { a = some arena }) 5000).0 ≡ some 16)
    × ((wrapper_alloc (system 4096 12288) (wrapper_reset (record { a = some arena })) 5000).0
        ≡ some 0)
    × ((wrapper_alloc
          (system 4096 12288)
          (wrapper_destroy (system 4096 12288) (record { a = some arena })).0
          5000).0
        ≡ none)
unfolding wrapper_alloc wrapper_reset wrapper_destroy alloc libdane.Memory.Linear.reset
    libdane.Memory.Linear.destroy grow grown_size total_reservation_size bump align_up
reused = (refl, refl, refl)

grants : Grants (system 4096 12288) range
grants len h = ground arith

wrapper_alloc-Served_example :
    Served arena range 5000 (wrapper_alloc (system 4096 12288) (record { a = some arena }) 5000)
wrapper_alloc-Served_example =
    wrapper_alloc-Served (system 4096 12288) 5000 arena-IsValid grants (omega arith)

valid_eight : is_valid_alignment 8 ≡ true
unfolding is_valid_alignment
valid_eight = refl

requested_large : requested 16384 8192 ≡ 16384
unfolding align_up
requested_large = refl

guards : Guards (system 16384 16384) 16384
guards len h = ground arith

filepath_allocator_create_large_pages_example :
    filepath_allocator_create (system 16384 16384) empty 8
    ≡ (libd_no_memory, empty, mapped (requested 16384 8192) ∷ [])
filepath_allocator_create_large_pages_example =
    filepath_allocator_create_large_pages (system 16384 16384) empty 16384 8 refl
      (14, omega arith, omega arith, refl) (omega arith) valid_eight refl
      (rw requested_large guards)

-- 5000 bytes and 100 bytes are handed out, and 9000 bytes are refused.
abbrev used : Client
used = record {
  wrapper = record { a = some (record arena { curr_data_size = 12256; head_index = 5104 }) };
  mapping = record { reserved = 12288; writable = 12288 };
  blocks = record { offset = 5000; size = 100 } ∷ record { offset = 0; size = 5000 } ∷ [];
}

used_runs : Runs (created_client (system 4096 12288) empty 8) used
unfolding filepath_allocator_create wrapper_create create create_checked align_up is_valid_alignment
    wrapper_alloc alloc grow grown_size total_reservation_size bump
used_runs =
    called
      (called (called started (allocation _ (system 4096 12288) 5000 grants (omega arith)))
        (allocation _ (system 4096 12288) 100 grants (omega arith)))
      (allocation _ (system 4096 12288) 9000 grants (omega arith))

requested_small : requested 4096 8192 ≡ 12288
unfolding align_up
requested_small = refl

Guards-small : Guards (system 4096 12288) 12288
Guards-small len h = ground arith

Runs-Disjoint_example : Disjoint used.blocks × AllUsable 8 12288 used.blocks
Runs-Disjoint_example =
    Runs-Disjoint (system 4096 12288) empty 4096 8 refl (12, omega arith, omega arith, refl)
      (omega arith) (rw requested_small Guards-small) created used_runs
