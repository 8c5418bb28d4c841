-- ===== src/Memory/Linear/Alloc.antt =====
-- `libd_linear_allocator_alloc` on a valid allocator: growth, the block it hands out, and refusal.
use libdane.Base.{
  ℕ, ◌+◌, ◌-◌, ◌*◌, ◌%◌, ◌^◌, ◌≤◌, ◌<◌, ◌≡◌, refl, ap, List, ◌⊎◌, inl, inr, arith, true, none, some,
  [], u64, lt→ltb, le→ltb,
}
use native.Mathlib.Decide.{dec_lt}
use libdane.Common.{libd_ok, libd_no_memory}
use libdane.Memory.Helpers.{align_up}
use libdane.Memory.Helpers.Align.{align_up_bounds}
use libdane.Memory.Linear.{
  LinearAllocator, Mapping, Kernel, Syscall, Reply, effects, total_reservation_size, grown_size,
  grow, bump, alloc,
}
use libdane.Memory.Linear.Valid.{
  IsValid, Grants, align_up_page, align_up_size, advance_head, total_reservation_bounds,
}

module _ {la : LinearAllocator} {m : Mapping} (v : IsValid la m) where
  -- The sizes of a valid allocator stay below 2 ^ 32.
  pub data_bounds : la.curr_data_size + 32 ≤ 2 ^ 32
  data_bounds = omega (arith, total_reservation_bounds la v.header v.page v.fits)

  new_data_bounds :
      (size : ℕ)
      → la.head_index + size ≤ la.data_reservation_size
      → let new = align_up (u64 (la.head_index + size)) (u64 (la.curr_data_size * 2)) in
        (la.head_index + size ≤ new) × (new < 2 ^ 35)
  new_data_bounds size room =
      rw (request, step)
        (omega (
          arith,
          data_bounds,
          align_up_bounds (la.head_index + size) (la.curr_data_size * 2) (omega arith)
              (omega (arith, data_bounds)),
        ))
    where
      request : (la.head_index + size) % 2 ^ 64 ≡ la.head_index + size
      request = omega arith

      step : (la.curr_data_size * 2) % 2 ^ 64 ≡ la.curr_data_size * 2
      step = omega (arith, data_bounds)

  grown_size_bounds :
      (size : ℕ)
      → la.head_index + size ≤ la.data_reservation_size
      → (32 + la.head_index + size ≤ grown_size la size)
        × (grown_size la size ≤ m.reserved)
        × (grown_size la size % 16 ≡ 0)
  unfolding grown_size
  grown_size_bounds size room = rw sum (
      omega (
        arith,
        new_data_bounds size room,
        total_reservation_bounds la v.header v.page v.fits,
        align_up_page (32 + new) la.sys_page_size v.page (omega (arith, new_data_bounds size room)),
      ))
    where
      new : ℕ
      new = align_up (u64 (la.head_index + size)) (u64 (la.curr_data_size * 2))

      sum : (la.header_size + new) % 2 ^ 64 ≡ 32 + new
      sum = omega (arith, new_data_bounds size room)

-- What a successful `alloc` of `size` bytes leaves: the block starts at the old head, which is
-- aligned; it lies in memory that can be read and written; the head has moved behind it by the
-- rounded size; and the allocator is valid.
pub record Handed (la : LinearAllocator) (m : Mapping) (size : ℕ) (r : Reply ℕ) : Type 0 where
  pub after : LinearAllocator
  pub ok : r.result ≡ libd_ok
  pub out : r.out ≡ some la.head_index
  pub state : r.la ≡ some after
  pub aligned : la.head_index % la.alignment ≡ 0
  pub inside : 32 + la.head_index + size ≤ (effects m r.calls).writable
  pub moved : after.head_index ≡ la.head_index + align_up size la.alignment
  pub rounded : size ≤ align_up size la.alignment
  pub same_alignment : after.alignment ≡ la.alignment
  pub valid : IsValid after (effects m r.calls)

module _ {la : LinearAllocator} {m : Mapping} (v : IsValid la m) where
  -- The head moves behind the block, rounded up to the alignment, and stays in the data.
  pub head_moved :
      (size : ℕ)
      → size < 2 ^ 32
      → la.head_index + size ≤ la.curr_data_size
      → let head = la.head_index + align_up size la.alignment in
        (head ≤ la.curr_data_size) × (head % la.alignment ≡ 0) × (u64 head ≡ head)
  head_moved size small room =
      let b = align_up_size size la.alignment v.alignment small in
      let moved =
        advance_head la.alignment la.head_index la.curr_data_size size (align_up size la.alignment)
          v.alignment v.aligned_head v.aligned_data room b.1 b.2 in
      (moved.0, moved.1, omega (arith, moved.0, data_bounds v))

  pub bump-IsValid :
      (size : ℕ)
      → size < 2 ^ 32
      → la.head_index + size ≤ la.curr_data_size
      → IsValid (record la { head_index = u64 (la.head_index + align_up size la.alignment) }) m
  unfolding total_reservation_size
  bump-IsValid size small room = record {
    header = v.header;
    alignment = v.alignment;
    page = v.page;
    aligned_head = rw (head_moved size small room).2 (head_moved size small room).1;
    aligned_data = v.aligned_data;
    nonempty = v.nonempty;
    head_le = rw (head_moved size small room).2 (head_moved size small room).0;
    data_le = v.data_le;
    writable_le = v.writable_le;
    reserved = v.reserved;
    fits = v.fits;
  }

  grow-IsValid :
      (k : Kernel) (size : ℕ)
      → Grants k m
      → la.curr_data_size < la.head_index + size
      → la.head_index + size ≤ la.data_reservation_size
      → IsValid (grow k la size).0 (effects m (grow k la size).1)
        × (la.head_index + size ≤ (grow k la size).0.curr_data_size)
  unfolding grow
  grow-IsValid k size grants full room =
      rw (grants (grown_size la size) bounds.1, word)
        (
          record {
            header = v.header;
            alignment = v.alignment;
            page = v.page;
            aligned_head = v.aligned_head;
            aligned_data = omega (arith, bounds);
            nonempty = omega (arith, bounds);
            head_le = omega (arith, bounds);
            data_le = omega (arith, bounds);
            writable_le = omega (arith, bounds, v);
            reserved = unfold total_reservation_size in v.reserved;
            fits = v.fits;
          },
          omega (arith, bounds),
        )
    where
      bounds :
          (32 + la.head_index + size ≤ grown_size la size)
          × (grown_size la size ≤ m.reserved)
          × (grown_size la size % 16 ≡ 0)
      bounds = grown_size_bounds v size room

      word : (grown_size la size + 2 ^ 64 - la.header_size) % 2 ^ 64 ≡ grown_size la size - 32
      word =
          omega (
            arith,
            bounds,
            v.header,
            v.reserved,
            total_reservation_bounds la v.header v.page v.fits,
          )

-- `old` is the allocator that was called, `la` the one after it grew, if it did.
bump-Handed :
    (old la : LinearAllocator) (m : Mapping) (calls : List Syscall) (size : ℕ)
    → IsValid la (effects m calls)
    → la.head_index ≡ old.head_index
    → la.alignment ≡ old.alignment
    → size < 2 ^ 32
    → la.head_index + size ≤ la.curr_data_size
    → Handed old m size (bump la calls size)
unfolding bump
bump-Handed old la m calls size v head al small room = record {
  after = record la { head_index = u64 (la.head_index + align_up size la.alignment) };
  ok = refl;
  out = ap some head;
  state = refl;
  aligned = rw (← head, ← al) v.aligned_head;
  inside = omega (arith, v.data_le);
  moved = rw (← head, ← al) (head_moved v size small room).2;
  rounded = rw (← al) (align_up_size size la.alignment v.alignment small).0;
  same_alignment = al;
  valid = bump-IsValid v size small room;
}

module _ {la : LinearAllocator} {m : Mapping} (v : IsValid la m) where
  -- A request that fits the data, or the reservation after growing, is granted.
  pub alloc-Handed :
      (k : Kernel) (size : ℕ)
      → Grants k m
      → size < 2 ^ 32
      → (la.head_index + size ≤ la.curr_data_size)
        ⊎ (la.head_index + size ≤ la.data_reservation_size)
      → Handed la m size (alloc k (some la) true size)
  unfolding alloc
  alloc-Handed k size grants small room =
      rw word (elim (dec_lt la.curr_data_size (la.head_index + size)) [
        | yes full ↦
            rw
              (
                lt→ltb _ _ full,
                le→ltb la.data_reservation_size (la.head_index + size) (omega arith),
              )
              (let g = grow-IsValid v k size grants full (omega arith) in
                bump-Handed la (grow k la size).0 m (grow k la size).1 size g.0
                  (unfold grow in refl) (unfold grow in refl) small (unfold grow in g.1))
        | no fits ↦
            rw (le→ltb la.curr_data_size (la.head_index + size) (omega arith))
              (bump-Handed la la m [] size v refl refl small (omega arith))
      ])
    where
      word : (la.head_index + size) % 2 ^ 64 ≡ la.head_index + size
      word = omega (arith, v.head_le, data_bounds v)

  -- Any other request is refused, without a system call and without a change.
  pub alloc_no_memory :
      (k : Kernel) (size : ℕ)
      → size < 2 ^ 32
      → la.curr_data_size < la.head_index + size
      → la.data_reservation_size < la.head_index + size
      → alloc k (some la) true size
        ≡ record { result = libd_no_memory; out = none; la = some la; calls = [] }
  unfolding alloc
  alloc_no_memory k size small full over =
      rw (word, lt→ltb la.curr_data_size _ full, lt→ltb la.data_reservation_size _ over)
    where
      word : (la.head_index + size) % 2 ^ 64 ≡ la.head_index + size
      word = omega (arith, v.head_le, data_bounds v)

  pub alloc_ok_fits :
      (k : Kernel) (size : ℕ)
      → size < 2 ^ 32
      → (alloc k (some la) true size).result ≡ libd_ok
      → (la.head_index + size ≤ la.curr_data_size)
        ⊎ (la.head_index + size ≤ la.data_reservation_size)
  alloc_ok_fits k size small ok = elim (dec_lt la.curr_data_size (la.head_index + size)) [
    | no fits ↦ inl (omega arith)
    | yes full ↦ elim (dec_lt la.data_reservation_size (la.head_index + size)) [
      | no fits ↦ inr (omega arith)
      | yes over ↦ cc (ap (λ (r : Reply ℕ). r.result) (alloc_no_memory k size small full over))
    ]
  ]
