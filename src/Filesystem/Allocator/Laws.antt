-- ===== src/Filesystem/Allocator/Laws.antt =====
-- What the filepath allocator hands out, and on which systems it can be created.
use libdane.Base.{
  ℕ, ◌+◌, ◌^◌, ◌≤◌, ◌<◌, ◌≡◌, ◌⊎◌, inl, inr, refl, ap, arith, true, Option, none, some, List, [],
  ◌∷◌,
}
use native.Mathlib.Decide.{dec_lt}
use libdane.Common.{libd_err, libd_no_memory}
use libdane.Memory.Helpers.{is_valid_alignment}
use libdane.Memory.Linear.{
  LinearAllocator, Mapping, Kernel, Syscall, mapped, effects, create, alloc,
}
use libdane.Memory.Linear.Valid.{IsValid, Grants, Guards, IsPage}
use libdane.Memory.Linear.Alloc.{Handed, alloc-Handed, alloc_no_memory}
use libdane.Memory.Linear.Create.{requested, create_too_small}
use libdane.Filesystem.Allocator.{
  FilepathAllocatorWrapper, FilepathAllocator, wrapper_create, wrapper_alloc,
  filepath_allocator_create,
}

abbrev pub Fits : LinearAllocator → ℕ → Type 0
Fits la bytes =
    (la.head_index + bytes ≤ la.curr_data_size) ⊎ (la.head_index + bytes ≤ la.data_reservation_size)

-- What `alloc` of a wrapper returns: a block at the old head, which lies in accessible memory, of an
-- allocator that stays valid, if the request fits; `NULL` and no change if it does not.
abbrev pub Served :
    LinearAllocator → Mapping → ℕ → Option ℕ × FilepathAllocatorWrapper × List Syscall → Type 0
Served la m bytes r =
    (Fits la bytes
      × (r.0 ≡ some la.head_index)
      × (32 + la.head_index + bytes ≤ (effects m r.2).writable)
      × ((after : LinearAllocator) × (r.1 ≡ record { a = some after })
          × IsValid after (effects m r.2)))
    ⊎ ((¬ Fits la bytes) × (r ≡ (none, record { a = some la }, [])))

Handed-Served :
    {la : LinearAllocator} {m : Mapping} (k : Kernel) (bytes : ℕ)
    → Fits la bytes
    → Handed la m bytes (alloc k (some la) true bytes)
    → Served la m bytes (wrapper_alloc k (record { a = some la }) bytes)
unfolding wrapper_alloc
Handed-Served k bytes fits h = inl (
  fits,
  rw (wrapper_alloc, h.ok) h.out,
  h.inside,
  (h.after, ap (λ la. record { a = la }) h.state, h.valid),
)

over_full :
    (la : LinearAllocator) (bytes : ℕ)
    → la.curr_data_size < la.head_index + bytes
    → la.data_reservation_size < la.head_index + bytes
    → ¬ Fits la bytes
over_full la bytes full over (inl fits) = omega arith
over_full la bytes full over (inr fits) = omega arith

-- On a valid allocator and a system that grants what lies in the reservation, `alloc` of a wrapper
-- serves exactly the requests that fit the data or the reservation: a block at the old head, in
-- accessible memory, with a valid allocator after it. Every other one gets `NULL`, and nothing changes.
-- Requests are below 2 ^ 32 bytes.
pub wrapper_alloc-Served :
    {la : LinearAllocator} {m : Mapping} (k : Kernel) (bytes : ℕ)
    → IsValid la m
    → Grants k m
    → bytes < 2 ^ 32
    → Served la m bytes (wrapper_alloc k (record { a = some la }) bytes)
unfolding wrapper_alloc
wrapper_alloc-Served {la} {m} k bytes v grants small =
    elim (dec_lt la.curr_data_size (la.head_index + bytes)) [
      | no fits ↦
          let room : Fits la bytes = inl (omega arith) in
          Handed-Served k bytes room (alloc-Handed v k bytes grants small room)
      | yes full ↦ elim (dec_lt la.data_reservation_size (la.head_index + bytes)) [
        | no fits ↦
            let room : Fits la bytes = inr (omega arith) in
            Handed-Served k bytes room (alloc-Handed v k bytes grants small room)
        | yes over ↦
            rw (alloc_no_memory v k bytes small full over)
              (inr ((λ fits. over_full la bytes full over fits), refl))
      ]
    ]

wrapper_create_refused :
    (k : Kernel) (w : FilepathAllocatorWrapper) (res start al : ℕ) (calls : List Syscall)
    → create k true res start al ≡ record { result = libd_err; out = none; calls = calls }
    → wrapper_create k w res start al ≡ (libd_err, w, calls)
unfolding wrapper_create
wrapper_create_refused k w res start al calls e = rw e refl

-- On a system with pages of 16 KiB or more the filepath allocator can never be created, since its
-- reservation fills less than one page: the result is `libd_no_memory`, the handle stays as it was,
-- and the reservation stays mapped.
pub filepath_allocator_create_large_pages :
    (k : Kernel) (fa : FilepathAllocator) (p al : ℕ)
    → k.page_size ≡ some p
    → IsPage p
    → 2 ^ 14 ≤ p
    → is_valid_alignment al ≡ true
    → k.mmap (requested p 8192) ≡ true
    → Guards k (requested p 8192)
    → filepath_allocator_create k fa al ≡ (libd_no_memory, fa, mapped (requested p 8192) ∷ [])
unfolding filepath_allocator_create
filepath_allocator_create_large_pages k fa p al size page large valid maps guards =
    rw
      (wrapper_create_refused k fa.wrapper 8192 1024 al (mapped (requested p 8192) ∷ []) (
        create_too_small k p 8192 1024 al size page (omega arith) (omega arith) valid (omega arith)
          (omega arith) maps guards))
      refl
