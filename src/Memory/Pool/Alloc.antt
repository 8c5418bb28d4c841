-- ===== src/Memory/Pool/Alloc.antt =====
-- `libd_pool_allocator_alloc` takes the first slot off the free list.
use mathlib.Core.Path.{subst}
use libdane.Base.{
  ℕ, ◌*◌, ◌<◌, ◌≡◌, refl, ap, sym, ◌∙◌, arith, true, Option, none, some, List, [], ◌∷◌, ◌==◌,
  if◌then◌else◌, ==_of_ne, ==_iff,
}
use libdane.Common.{libd_ok, libd_no_memory}
use libdane.Memory.Pool.{PoolAllocator, Reply, terminal_index, take_head, alloc}
use libdane.Memory.Pool.Bytes.{load_u32}
use libdane.Memory.Pool.Chain.{Chain, last_or}
use libdane.Memory.Pool.Valid.{IsSized, IsPool, byte_index_lem, load_index-ok}

-- With a free slot, `alloc` stores the offset of the first one, and the other slots stay free. The
-- bytes do not change.
pub record Popped (pa : PoolAllocator) (x : ℕ) (xs : List ℕ) (r : Option Reply) : Type 0 where
  pub after : PoolAllocator
  pub returns :
      r ≡ some (record { result = libd_ok; out = some (x * pa.bytes_per_alloc); pa = some after })
  pub bytes : after.bytes ≡ pa.bytes
  pub same_max : after.max_allocations ≡ pa.max_allocations
  pub same_width : after.bytes_per_alloc ≡ pa.bytes_per_alloc
  pub valid : IsPool xs after

abbrev next_slot : PoolAllocator → ℕ
next_slot pa = load_u32 pa.bytes (pa.head_index * pa.bytes_per_alloc)

pub resized :
    {pa : PoolAllocator}
    → IsSized pa
    → (head tail : ℕ) → IsSized (record pa { head_index = head; tail_index = tail })
resized s head tail = record {
  some_slots = s.some_slots;
  word = s.word;
  wide = s.wide;
  offsets = s.offsets;
  fits = s.fits;
}

next_tail :
    (x : ℕ) (xs : List ℕ) (b : ℕ → ℕ) (w max next tail : ℕ)
    → Chain b w max next xs
    → tail ≡ last_or max (x ∷ xs)
    → (if next == max then max else tail) ≡ last_or max xs
next_tail x [] b w max next tail ch t = ground arith
next_tail x (y ∷ ys) b w max next tail ch t = ground arith

module _ {pa : PoolAllocator} (s : IsSized pa) (below : pa.head_index < pa.max_allocations) where
  alloc_run :
      (tail : ℕ)
      → (if next_slot pa == pa.max_allocations then pa.max_allocations else pa.tail_index) ≡ tail
      → alloc (some pa) true
        ≡ some (record {
          result = libd_ok;
          out = some (pa.head_index * pa.bytes_per_alloc);
          pa = some (record pa { head_index = next_slot pa; tail_index = tail });
        })
  unfolding alloc take_head terminal_index
  alloc_run tail e = rw (
    ==_of_ne pa.head_index pa.max_allocations (omega arith),
    load_index-ok s pa.head_index below,
    byte_index_lem s pa.head_index below,
    e,
  )

module _ {pa : PoolAllocator} where
  -- On a pool with a free slot, `alloc` returns the first one and leaves a pool whose free list is
  -- the rest.
  pub alloc-Popped :
      (x : ℕ) (xs : List ℕ) → IsPool (x ∷ xs) pa → Popped pa x xs (alloc (some pa) true)
  alloc-Popped x xs v = record {
    after = record pa { head_index = next_slot pa; tail_index = last_or pa.max_allocations xs };
    returns = alloc_run v.sized below (last_or pa.max_allocations xs) tail ∙ ap offset v.chain.0;
    bytes = refl;
    same_max = refl;
    same_width = refl;
    valid = record {
      sized = resized v.sized _ _;
      chain = rest;
      tail = refl;
      distinct = v.distinct.1;
    };
  }
    where
      below : pa.head_index < pa.max_allocations
      below = omega (arith, v.chain.0, v.chain.1)

      offset : ℕ → Option Reply
      offset h = some (record {
        result = libd_ok;
        out = some (h * pa.bytes_per_alloc);
        pa =
            some
              (record pa { head_index = next_slot pa; tail_index = last_or pa.max_allocations xs });
      })

      rest : Chain pa.bytes pa.bytes_per_alloc pa.max_allocations (next_slot pa) xs
      rest =
          subst
            (λ h.
              Chain pa.bytes pa.bytes_per_alloc pa.max_allocations
                (load_u32 pa.bytes (h * pa.bytes_per_alloc)) xs)
            (sym v.chain.0) v.chain.2

      tail :
          (if next_slot pa == pa.max_allocations then pa.max_allocations else pa.tail_index)
          ≡ last_or pa.max_allocations xs
      tail =
          next_tail x xs pa.bytes pa.bytes_per_alloc pa.max_allocations (next_slot pa) pa.tail_index
            rest v.tail

module _ {pa : PoolAllocator} where
  -- With no free slot, `alloc` says so and changes nothing.
  pub alloc_exhausted :
      IsPool [] pa
      → alloc (some pa) true ≡ some (record { result = libd_no_memory; out = none; pa = some pa })
  unfolding alloc terminal_index
  alloc_exhausted v = rw (v.chain, (==_iff pa.max_allocations pa.max_allocations).1 refl)
