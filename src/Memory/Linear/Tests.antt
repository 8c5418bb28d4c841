-- ===== src/Memory/Linear/Tests.antt =====
-- The allocator of the filepath module, 8 KiB reserved and 1 KiB at the start, on pages of 4 KiB.
use libdane.Base.{ℕ, ◌-◌, ◌≡◌, inr, refl, arith, true, false, none, some, [], ◌∷◌, leb}
use libdane.Common.{
  libd_ok, libd_err, libd_no_memory, libd_invalid_parameter, libd_invalid_alignment,
}
use libdane.Memory.Helpers.{is_valid_alignment, align_up}
use libdane.Memory.Linear.{
  LinearAllocator, Mapping, Kernel, mapped, unmapped_range, effects, total_reservation_size,
  grown_size, create_checked, create, grow, bump, alloc, bytes_free,
}
use libdane.Memory.Linear.Valid.{IsPage, IsValid, Grants, Guards}
use libdane.Memory.Linear.Alloc.{Handed, alloc-Handed}
use libdane.Memory.Linear.Create.{IsFresh, requested, create-IsFresh, create_too_small}
use libdane.Memory.Linear.Savepoint.{bytes_free-alloc}
use libdane.Memory.Linear.Ungranted.{Unusable, create-alloc_ungranted}
use libdane.Memory.Linear.Blocks.{Disjoint, AllUsable}
use libdane.Memory.Linear.Arena.{Arena, Reach, here, next, allocate, Reach-Disjoint}

-- A system that maps anything and gives access to `limit` bytes at most.
abbrev linux : ℕ → Kernel
linux limit = record {
  page_size = some 4096;
  mmap = λ len. true;
  mprotect = λ len. leb len limit;
  munmap = λ len. true;
}

abbrev arena : LinearAllocator
arena = record {
  curr_data_size = 4096;
  head_index = 0;
  alignment = 8;
  header_size = 32;
  sys_page_size = 4096;
  data_reservation_size = 8192;
}

abbrev range : Mapping
range = record { reserved = 12288; writable = 8192 }

create_run :
    ((create (linux 12288) true 8192 1024 8).out ≡ some arena)
    × (effects unmapped_range (create (linux 12288) true 8192 1024 8).calls ≡ range)
    × ((create (linux 12288) false 8192 1024 8).result ≡ libd_invalid_parameter)
    × ((create (linux 12288) true 8192 1024 3).result ≡ libd_invalid_alignment)
unfolding create create_checked align_up is_valid_alignment
create_run = (refl, refl, refl, refl)

-- Growing asks for the next multiple of 8192 bytes and is cut to the reservation.
alloc_run :
    ((alloc (linux 12288) (some arena) true 5000).out ≡ some 0)
    × ((alloc (linux 12288) (some arena) true 5000).la
        ≡ some (record arena { curr_data_size = 12256; head_index = 5000 }))
    × ((alloc (linux 12288) (some arena) true 9000).result ≡ libd_no_memory)
unfolding alloc grow grown_size total_reservation_size bump align_up
alloc_run = (refl, refl, refl)

page : IsPage 4096
page = (12, omega arith, omega arith, refl)

arena-IsValid : IsValid arena range
unfolding total_reservation_size align_up
arena-IsValid = record {
  header = refl;
  alignment = (3, omega arith, refl);
  page = page;
  aligned_head = refl;
  aligned_data = refl;
  nonempty = omega arith;
  head_le = omega arith;
  data_le = omega arith;
  writable_le = omega arith;
  reserved = refl;
  fits = omega arith;
}

grants : Grants (linux 12288) range
grants len h = ground arith

guards : (limit : ℕ) → Guards (linux limit) limit
guards limit len h = ground arith

requested_eq : requested 4096 8192 ≡ 12288
unfolding align_up
requested_eq = refl

requested_small : requested 4096 1024 ≡ 4096
unfolding align_up
requested_small = refl

create_ok : (create (linux 12288) true 8192 1024 8).result ≡ libd_ok
unfolding create create_checked align_up is_valid_alignment
create_ok = refl

valid_eight : is_valid_alignment 8 ≡ true
unfolding is_valid_alignment
valid_eight = refl

create-IsFresh_example : IsFresh 8192 1024 8 (create (linux 12288) true 8192 1024 8)
create-IsFresh_example =
    create-IsFresh (linux 12288) true 4096 8192 1024 8 refl page (omega arith) (omega arith)
      (omega arith) (rw requested_eq (guards 12288)) create_ok

create_too_small_example :
    create (linux 4096) true 1024 1024 8
    ≡ record { result = libd_err; out = none; calls = mapped (requested 4096 1024) ∷ [] }
create_too_small_example =
    create_too_small (linux 4096) 4096 1024 1024 8 refl page (omega arith) (omega arith) valid_eight
      (omega arith) (omega arith) refl (rw requested_small (guards 4096))

alloc-Handed_example : Handed arena range 5000 (alloc (linux 12288) (some arena) true 5000)
alloc-Handed_example =
    alloc-Handed arena-IsValid (linux 12288) 5000 grants (omega arith) (inr (omega arith))

-- A system that refuses every further range.
abbrev refusing : Kernel
refusing = record (linux 0) { mprotect = λ len. false }

rounded_capacity : align_up 1024 4096 ≡ 4096
unfolding align_up
rounded_capacity = refl

create-alloc_ungranted_example : Unusable refusing (create (linux 12288) true 8192 1024 8) 8192
create-alloc_ungranted_example =
    create-alloc_ungranted (linux 12288) refusing 4096 8192 1024 8 8192 refl page (omega arith)
      (omega arith) create_ok (λ len. refl) (omega (arith, rounded_capacity)) (omega arith)

bytes_free_known : (bytes_free (some arena) true).out ≡ some 4096
unfolding bytes_free
bytes_free_known = refl

bytes_free-alloc_example :
    ((alloc (linux 12288) (some arena) true 30).result ≡ libd_ok)
    × ((alloc (linux 12288) (some arena) true 30).calls ≡ [])
    × ((bytes_free (alloc (linux 12288) (some arena) true 30).la true).out
        ≡ some (4096 - align_up 30 8))
bytes_free-alloc_example =
    bytes_free-alloc arena-IsValid (linux 12288) 30 4096 bytes_free_known (omega arith)
      (omega arith)

abbrev start : Arena
start = record { la = arena; mapping = range; blocks = []; saved = [] }

abbrev finish : Arena
finish = record {
  la = record arena { head_index = 32 };
  mapping = range;
  blocks = record { offset = 0; size = 30 } ∷ [];
  saved = [];
}

start-finish : Reach start finish
unfolding alloc bump align_up
start-finish = next here (
    allocate start (linux 12288) 30 (record arena { head_index = 32 }) 0 grants (omega arith) refl
      refl refl)

Reach-Disjoint_example :
    Disjoint finish.blocks × AllUsable 8 8192 finish.blocks × IsValid finish.la range
Reach-Disjoint_example = Reach-Disjoint arena-IsValid refl refl start-finish
