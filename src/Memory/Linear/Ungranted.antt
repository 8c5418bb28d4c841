-- ===== src/Memory/Linear/Ungranted.antt =====
-- `alloc` where the system refuses to make more memory accessible.
use libdane.Base.{
  ℕ, ◌+◌, ◌%◌, ◌^◌, ◌≤◌, ◌<◌, ◌≡◌, refl, arith, true, false, some, [], ◌∷◌, lt→ltb, le→ltb,
  pow_mono,
}
use native.Mathlib.Nat.{mod-eq_of_lt}
use libdane.Common.{libd_ok}
use libdane.Memory.Helpers.{align_up}
use libdane.Memory.Linear.{
  LinearAllocator, Mapping, Kernel, Created, mapped, protected, unmapped_range, effects, create,
  grow, bump, alloc, grown_size,
}
use libdane.Memory.Linear.Valid.{IsPage, align_up_page}
use libdane.Memory.Linear.Create.{accessible, requested, fresh, create_succeeded, IsPage-le}

-- A first request behind `create`: `libd_ok` and the block at offset 0, which does not end in the
-- memory that the calls of `create` and of `alloc` made accessible.
abbrev pub Unusable : Kernel → Created → ℕ → Type 0
Unusable k c size =
    let r = alloc k c.out true size in
    (r.result ≡ libd_ok)
    × (r.out ≡ some 0)
    × ((effects (effects unmapped_range c.calls) r.calls).writable < 32 + size)

-- `create` makes less than the header, the data and a page accessible.
accessible_tight :
    (p start : ℕ) → IsPage p → start < 2 ^ 32 → accessible p start < 32 + align_up start p + p
accessible_tight p start page small = rw word rounded_twice.1
  where
    le : p ≤ 2 ^ 31
    le = IsPage-le p page

    rounded :
        (start ≤ align_up start p) × (align_up start p < start + p) × (align_up start p % 16 ≡ 0)
    rounded = align_up_page start p page (omega arith)

    word : (32 + align_up start p) % 2 ^ 64 ≡ 32 + align_up start p
    word = omega (arith, rounded, le)

    rounded_twice :
        (32 + align_up start p ≤ align_up (32 + align_up start p) p)
        × (align_up (32 + align_up start p) p < 32 + align_up start p + p)
        × (align_up (32 + align_up start p) p % 16 ≡ 0)
    rounded_twice = align_up_page (32 + align_up start p) p page (omega (arith, rounded, le))

IsPage-pos : (p : ℕ) → IsPage p → 16 ≤ p
IsPage-pos p (k, lo, hi, e) = rw e (pow_mono 4 k lo)

-- A refused growth does not stop `alloc`.
alloc_refused :
    (k : Kernel) (la : LinearAllocator) (m : Mapping) (size : ℕ)
    → la.head_index + size < 2 ^ 64
    → la.curr_data_size < la.head_index + size
    → la.head_index + size ≤ la.data_reservation_size
    → k.mprotect (grown_size la size) ≡ false
    → ((alloc k (some la) true size).result ≡ libd_ok)
      × ((alloc k (some la) true size).out ≡ some la.head_index)
      × (effects m (alloc k (some la) true size).calls ≡ m)
unfolding alloc grow bump
alloc_refused k la m size small full room refuses =
    rw (cut, lt→ltb la.curr_data_size _ full, le→ltb la.data_reservation_size _ room, refuses)
      (refl, refl, refl)
  where
    cut : (la.head_index + size) % 2 ^ 64 ≡ la.head_index + size
    cut = mod-eq_of_lt small

fresh-Unusable :
    (k : Kernel) (p res start al size : ℕ)
    → IsPage p
    → start < 2 ^ 32
    → size < 2 ^ 32
    → ((len : ℕ) → k.mprotect len ≡ false)
    → align_up start p < size
    → align_up start p + p ≤ size
    → size ≤ res
    → Unusable k
        (record {
          result = libd_ok;
          out = some (fresh p res start al);
          calls = mapped (requested p res) ∷ protected (accessible p start) ∷ [];
        })
        size
fresh-Unusable k p res start al size page small word refuses full beyond room =
    let made : Mapping =
      effects unmapped_range (mapped (requested p res) ∷ protected (accessible p start) ∷ []) in
    let r =
      alloc_refused k (fresh p res start al) made size (omega arith) (omega arith) (omega arith)
        (refuses _) in
    (r.0, r.1, rw r.2 (omega (arith, accessible_tight p start page small)))

-- On a system with a page size that is a power of two from 16 bytes to 2 GiB: if `create` reports
-- success for a starting capacity and a reservation below 2 ^ 32 bytes, and `mprotect` then refuses
-- every call, a first request that fits the reservation and is at least a page larger than the
-- starting capacity rounded up to pages still gets `libd_ok` and the block at offset 0, and the block does not end in
-- memory that was made accessible.
pub create-alloc_ungranted :
    (k later : Kernel) (p res start al size : ℕ)
    → k.page_size ≡ some p
    → IsPage p
    → start < 2 ^ 32
    → res < 2 ^ 32
    → (create k true res start al).result ≡ libd_ok
    → ((len : ℕ) → later.mprotect len ≡ false)
    → align_up start p + p ≤ size
    → size ≤ res
    → Unusable later (create k true res start al) size
create-alloc_ungranted k later p res start al size page_size page small word ok refuses beyond
      room =
    let made = create_succeeded k p res start al page_size ok in
    rw made.1 (
      fresh-Unusable later p res start al size page small (omega arith) refuses
        (omega (arith, IsPage-pos p page)) beyond room)
