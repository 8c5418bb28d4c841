-- ===== src/Memory/Linear/Savepoint.antt =====
-- Savepoints, `libd_linear_allocator_reset` and `libd_linear_allocator_bytes_free`.
use libdane.Base.{
  ℕ, ◌+◌, ◌-◌, ◌%◌, ◌^◌, ◌≤◌, ◌<◌, ◌≡◌, refl, ap, arith, true, some, [], u32, u64, le→ltb,
}
use libdane.Common.{libd_ok}
use libdane.Memory.Helpers.{align_up}
use libdane.Memory.Linear.{
  LinearAllocator, Mapping, Kernel, Reply, total_reservation_size, alloc, bump, quiet,
  set_savepoint, bytes_free,
}
use libdane.Memory.Linear.Valid.{IsValid}
use libdane.Memory.Linear.Alloc.{data_bounds, head_moved, bump-IsValid}

module _ {la : LinearAllocator} {m : Mapping} (v : IsValid la m) where
  -- A valid allocator stays valid when its head moves back to an aligned offset.
  pub rewind-IsValid :
      (head : ℕ)
      → head ≤ la.head_index
      → head % la.alignment ≡ 0
      → IsValid (record la { head_index = head }) m
  unfolding total_reservation_size
  rewind-IsValid head le aligned = record {
    header = v.header;
    alignment = v.alignment;
    page = v.page;
    aligned_head = aligned;
    aligned_data = v.aligned_data;
    nonempty = v.nonempty;
    head_le = omega (arith, v.head_le);
    data_le = v.data_le;
    writable_le = v.writable_le;
    reserved = v.reserved;
    fits = v.fits;
  }

  -- `set_savepoint` keeps the whole head, in spite of the 32 bits of a savepoint.
  pub set_savepoint_whole :
      set_savepoint (some la) true ≡ quiet (some (record { data_index = la.head_index })) la
  unfolding set_savepoint
  set_savepoint_whole = ap (λ n. quiet (some (record { data_index = n })) la) word
    where
      word : u32 la.head_index ≡ la.head_index
      word = omega (arith, v.head_le, v.nonempty, data_bounds v)

  -- `bytes_free` stores the exact number of bytes between the head and the end of the data.
  pub bytes_free_lem :
      bytes_free (some la) true ≡ quiet (some (la.curr_data_size - la.head_index)) la
  unfolding bytes_free
  bytes_free_lem = ap (λ n. quiet (some n) la) word
    where
      word : u64 (la.curr_data_size + 2 ^ 64 - la.head_index) ≡ la.curr_data_size - la.head_index
      word = omega (arith, v.head_le, data_bounds v)

  alloc-bump :
      (k : Kernel) (size : ℕ)
      → la.head_index + size ≤ la.curr_data_size
      → alloc k (some la) true size ≡ bump la [] size
  unfolding alloc
  alloc-bump k size room = rw (word, le→ltb la.curr_data_size (la.head_index + size) room)
    where
      word : (la.head_index + size) % 2 ^ 64 ≡ la.head_index + size
      word = omega (arith, data_bounds v)

  free_eq :
      (free : ℕ)
      → (bytes_free (some la) true).out ≡ some free
      → la.curr_data_size - la.head_index ≡ free
  free_eq free known = ground (arith, ap (λ (r : Reply ℕ). r.out) bytes_free_lem)

module _ {la : LinearAllocator} {m : Mapping} (v : IsValid la m) where
  -- A request of no more than the free bytes needs no system call, and takes its rounded size off
  -- the free bytes.
  pub bytes_free-alloc :
      (k : Kernel) (size free : ℕ)
      → (bytes_free (some la) true).out ≡ some free
      → size ≤ free
      → size < 2 ^ 32
      → ((alloc k (some la) true size).result ≡ libd_ok)
        × ((alloc k (some la) true size).calls ≡ [])
        × ((bytes_free (alloc k (some la) true size).la true).out
            ≡ some (free - align_up size la.alignment))
  bytes_free-alloc k size free known le small = rw (alloc-bump v k size room) (
      unfold bump in
      (
        refl,
        refl,
        rw (bytes_free_lem (bump-IsValid v size small room), (head_moved v size small room).2)
            (ap some (omega (arith, free_eq v free known))),
      ))
    where
      room : la.head_index + size ≤ la.curr_data_size
      room = omega (arith, free_eq v free known, v.head_le)
