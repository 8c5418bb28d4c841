-- ===== src/Memory/Pool/Free.antt =====
-- `libd_pool_allocator_free` links a slot in front of the free list or behind it.
use mathlib.Core.Path.{subst}
use native.Mathlib.Nat.{mul-mod_left, mul-div_left}
use libdane.Base.{
  ℕ, ◌*◌, ◌/◌, ◌%◌, ◌^◌, ◌≤◌, ◌<◌, ◌≡◌, refl, sym, arith, false, Option, none, some, List, [], ◌∷◌,
  ◌++◌, ltb, leb, ◌==◌, if◌then◌else◌, lt→ltb, le→ltb, ==_of_ne, pos,
}
use native.Mathlib.Decide.{dec_lt}
use libdane.Common.{libd_ok}
use libdane.Memory.Pool.{
  PoolAllocator, Reply, terminal_index, link_front, link_back, move_tail, free_slot, free_at, free,
}
use libdane.Memory.Pool.Bytes.{store_u32, load-store_self}
use libdane.Memory.Pool.Chain.{
  Chain, NotIn, last_or, load-store_ne, Chain-frame, Chain-below, Chain-extend, Distinct-append,
  last_or-append,
}
use libdane.Memory.Pool.Valid.{IsSized, IsPool, store_index-ok}

-- The list after slot `s` is freed: in front if it lies before the head, behind otherwise.
abbrev pub freed : ℕ → ℕ → List ℕ → List ℕ
freed head s xs = if ltb s head then s ∷ xs else xs ++ s ∷ []

pub record Freed (pa : PoolAllocator) (s : ℕ) (xs : List ℕ) (r : Option Reply) : Type 0 where
  pub after : PoolAllocator
  pub returns : r ≡ some (record { result = libd_ok; out = none; pa = some after })
  pub same_max : after.max_allocations ≡ pa.max_allocations
  pub same_width : after.bytes_per_alloc ≡ pa.bytes_per_alloc
  pub valid : IsPool (freed pa.head_index s xs) after

abbrev pub linked : PoolAllocator → ℕ → ℕ → (ℕ → ℕ) → PoolAllocator
linked pa head tail b = record pa { head_index = head; tail_index = tail; bytes = b }

pub linked-IsSized :
    {pa : PoolAllocator} (head tail : ℕ) (b : ℕ → ℕ) → IsSized pa → IsSized (linked pa head tail b)
linked-IsSized head tail b s = record {
  some_slots = s.some_slots;
  word = s.word;
  wide = s.wide;
  offsets = s.offsets;
  fits = s.fits;
}

-- The bytes after a slot is linked in front, and behind.
abbrev front_bytes : PoolAllocator → ℕ → ℕ → ℕ
front_bytes pa s = store_u32 pa.bytes (s * pa.bytes_per_alloc) pa.head_index

abbrev pub back_bytes : PoolAllocator → ℕ → ℕ → ℕ
back_bytes pa s =
    store_u32 (store_u32 pa.bytes (pa.tail_index * pa.bytes_per_alloc) s) (s * pa.bytes_per_alloc)
      pa.max_allocations

module _ {pa : PoolAllocator} (sized : IsSized pa) (s : ℕ) (below : s < pa.max_allocations) where
  free_front :
      s < pa.head_index
      → free_slot pa s
        ≡ some (record {
          result = libd_ok;
          out = none;
          pa = some (
              linked pa s
                (if pa.tail_index == pa.max_allocations then s else pa.tail_index)
                (front_bytes pa s));
        })
  unfolding free_slot link_front move_tail terminal_index
  free_front before =
      rw (lt→ltb s pa.head_index before, store_index-ok sized s below pa.head_index) (ground arith)

  pub free_back :
      pa.head_index ≤ s
      → pa.tail_index < pa.max_allocations
      → free_slot pa s
        ≡ some (record {
          result = libd_ok;
          out = none;
          pa = some (linked pa pa.head_index s (back_bytes pa s));
        })
  unfolding free_slot link_back move_tail terminal_index
  free_back behind tail = rw (
    le→ltb s pa.head_index behind,
    store_index-ok sized pa.tail_index tail s,
    store_index-ok
        (linked-IsSized pa.head_index s (store_u32 pa.bytes (pa.tail_index * pa.bytes_per_alloc) s)
          sized)
        s below pa.max_allocations,
    ==_of_ne s pa.max_allocations (omega arith),
  )

head_le : (b : ℕ → ℕ) (w max head : ℕ) (xs : List ℕ) → Chain b w max head xs → head ≤ max
head_le b w max head [] ch = omega arith
head_le b w max head (x ∷ xs) ch = omega (arith, ch.0, ch.1)

front_tail :
    (b : ℕ → ℕ) (w max head tail s : ℕ) (xs : List ℕ)
    → Chain b w max head xs
    → tail ≡ last_or max xs
    → (if tail == max then s else tail) ≡ last_or s xs
front_tail b w max head tail s [] ch t = ground arith
front_tail b w max head tail s (x ∷ xs) ch t = ground (arith, Chain-below b w max head x xs ch)

front-Chain :
    (b : ℕ → ℕ) (w max head s : ℕ) (xs : List ℕ)
    → 4 ≤ w
    → max < 2 ^ 32
    → s < max
    → NotIn s xs
    → Chain b w max head xs
    → Chain (store_u32 b (s * w) head) w max s (s ∷ xs)
front-Chain b w max head s xs wide word below out ch = (
  refl,
  below,
  rw (load-store_self b (s * w) head (omega (arith, head_le b w max head xs ch))) (
      Chain-frame b (store_u32 b (s * w) head) w max s head xs
        (λ y ne. load-store_ne b w wide s y head ne) out ch),
)

module _ {pa : PoolAllocator} (s : ℕ) (below : s < pa.max_allocations) where
  free-Freed_front :
      (xs : List ℕ) → IsPool xs pa → NotIn s xs → s < pa.head_index → Freed pa s xs (free_slot pa s)
  free-Freed_front xs v out before = record {
    after =
        linked pa s (if pa.tail_index == pa.max_allocations then s else pa.tail_index)
          (front_bytes pa s);
    returns = free_front v.sized s below before;
    same_max = refl;
    same_width = refl;
    valid = rw (lt→ltb s pa.head_index before) (record {
      sized = linked-IsSized _ _ _ v.sized;
      chain =
          front-Chain pa.bytes pa.bytes_per_alloc pa.max_allocations pa.head_index s xs v.sized.wide
            v.sized.word below out v.chain;
      tail =
          front_tail pa.bytes pa.bytes_per_alloc pa.max_allocations pa.head_index pa.tail_index s xs
            v.chain v.tail;
      distinct = (out, v.distinct);
    });
  }

  free-Freed_back :
      (x : ℕ) (xs : List ℕ)
      → IsPool (x ∷ xs) pa
      → NotIn s (x ∷ xs)
      → pa.head_index ≤ s
      → Freed pa s (x ∷ xs) (free_slot pa s)
  free-Freed_back x xs v out behind = record {
    after = linked pa pa.head_index s (back_bytes pa s);
    returns = free_back v.sized s below behind tail;
    same_max = refl;
    same_width = refl;
    valid = rw (le→ltb s pa.head_index behind) (record {
      sized = linked-IsSized _ _ _ v.sized;
      chain = extended;
      tail = sym (last_or-append x s xs);
      distinct = Distinct-append s (x ∷ xs) out v.distinct;
    });
  }
    where
      tail : pa.tail_index < pa.max_allocations
      tail = omega (
        arith,
        v.tail,
        Chain-below pa.bytes pa.bytes_per_alloc pa.max_allocations pa.head_index x xs v.chain,
      )

      extended :
          Chain
            (back_bytes pa s)
            pa.bytes_per_alloc
            pa.max_allocations
            pa.head_index
            (x ∷ xs ++ s ∷ [])
      extended =
          subst
            (λ t.
              Chain
                (store_u32 (store_u32 pa.bytes (t * pa.bytes_per_alloc) s) (s * pa.bytes_per_alloc)
                  pa.max_allocations)
                pa.bytes_per_alloc pa.max_allocations pa.head_index (x ∷ xs ++ s ∷ []))
            (sym v.tail)
            (Chain-extend pa.bytes pa.bytes_per_alloc pa.max_allocations s pa.head_index x xs
              v.sized.wide v.sized.word below out v.distinct v.chain)

  free-Freed_slot : (xs : List ℕ) → IsPool xs pa → NotIn s xs → Freed pa s xs (free_slot pa s)
  free-Freed_slot xs v out = elim (dec_lt s pa.head_index) [
    | yes before ↦ free-Freed_front xs v out before
    | no behind ↦ pick xs v out (omega arith)
  ]
    where
      pick :
          (xs : List ℕ)
          → IsPool xs pa
          → NotIn s xs
          → pa.head_index ≤ s
          → Freed pa s xs (free_slot pa s)
      pick [] v out behind = absurd (omega (arith, v.chain))
      pick (x ∷ xs) v out behind = free-Freed_back x xs v out behind

module _ {pa : PoolAllocator} (sized : IsSized pa) where
  pub free_run :
      (s : ℕ)
      → s < pa.max_allocations
      → free (some pa) (some (pos (s * pa.bytes_per_alloc))) ≡ free_slot pa s
  unfolding free free_at
  free_run s below = rw (
    ==_of_ne pa.bytes_per_alloc 0 (omega (arith, sized.wide)),
    mul-mod_left s pa.bytes_per_alloc,
    slot_number,
    word,
    inside,
  )
    where
      word : s % 2 ^ 32 ≡ s
      word = omega (arith, sized.word)

      slot_number : s * pa.bytes_per_alloc / pa.bytes_per_alloc ≡ s
      slot_number = mul-div_left s (omega (arith, sized.wide))

      inside : leb pa.max_allocations s ≡ false
      inside = ground arith

-- Freeing a slot that is not free returns `libd_ok` and puts the slot in front of the free list or
-- behind it.
pub free-Freed :
    {pa : PoolAllocator} (s : ℕ) (xs : List ℕ)
    → IsPool xs pa
    → s < pa.max_allocations
    → NotIn s xs
    → Freed pa s xs (free (some pa) (some (pos (s * pa.bytes_per_alloc))))
free-Freed s xs v below out = rw (free_run v.sized s below) (free-Freed_slot s below xs v out)
