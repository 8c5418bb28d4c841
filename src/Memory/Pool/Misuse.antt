-- ===== src/Memory/Pool/Misuse.antt =====
-- A pool cannot tell a slot that is in use from a free one: what freeing a free slot does.
use libdane.Base.{ℕ, ◌*◌, ◌<◌, ◌≡◌, refl, ◌∙◌, arith, none, some, List, [], ◌∷◌, pos}
use libdane.Common.{libd_ok}
use libdane.Memory.Pool.{PoolAllocator, free}
use libdane.Memory.Pool.Bytes.{load-store_self}
use libdane.Memory.Pool.Chain.{Chain-below}
use libdane.Memory.Pool.Valid.{IsPool}
use libdane.Memory.Pool.Free.{free_back, free_run, linked, linked-IsSized, back_bytes}

-- Freeing the first free slot, which no caller holds, returns `libd_ok`, and the free list is left
-- with that slot alone: all other free slots are lost.
pub free_head_loses :
    {pa : PoolAllocator} (x : ℕ) (xs : List ℕ)
    → IsPool (x ∷ xs) pa
    → (after : PoolAllocator) × (free (some pa) (some (pos (x * pa.bytes_per_alloc)))
        ≡ some (record { result = libd_ok; out = none; pa = some after }))
      × IsPool (x ∷ []) after
free_head_loses {pa} x xs v = (
  linked pa pa.head_index x (back_bytes pa x),
  free_run v.sized x v.chain.1 ∙ free_back v.sized x v.chain.1 (omega (arith, v.chain.0)) tail,
  record {
    sized = linked-IsSized pa.head_index x (back_bytes pa x) v.sized;
    chain = (
      v.chain.0,
      v.chain.1,
      load-store_self _ (x * pa.bytes_per_alloc) pa.max_allocations v.sized.word,
    );
    tail = refl;
    distinct = (tt, tt);
  },
)
  where
    tail : pa.tail_index < pa.max_allocations
    tail = omega (
      arith,
      v.tail,
      Chain-below pa.bytes pa.bytes_per_alloc pa.max_allocations pa.head_index x xs v.chain,
    )
