-- ===== src/Memory/Pool/Client/Laws.antt =====
-- What a client of a fresh pool can rely on.
use mathlib.Core.Path.{subst}
use libdane.Base.{
  ℕ, ◌*◌, ◌<◌, ◌≡◌, ◌⊎◌, inl, inr, refl, arith, true, none, some, List, [], ◌∷◌, length, ap,
}
use libdane.Common.{libd_ok, libd_no_memory}
use libdane.Memory.Pool.{PoolAllocator, alloc}
use libdane.Memory.Pool.Chain.{NotIn, Distinct}
use libdane.Memory.Pool.Valid.{IsPool}
use libdane.Memory.Pool.Alloc.{alloc-Popped, alloc_exhausted}
use libdane.Memory.Pool.FreeList.{slots}
use libdane.Memory.Pool.Client.{Client, Reach}
use libdane.Memory.Pool.Client.Slots.{Apart, AllBelow, Apart-NotIn}
use libdane.Memory.Pool.Client.Sound.{IsSound, Reach-IsSound, fresh-IsSound}

-- No slot is handed out twice, and every slot lies in the pool.
pub Reach-Distinct :
    {pa : PoolAllocator} {c : Client}
    → IsPool (slots 0 pa.max_allocations) pa
    → Reach (record { pa = pa; held = [] }) c
    → Distinct c.held × AllBelow pa.max_allocations c.held
Reach-Distinct {pa} v r =
    let i = Reach-IsSound pa.max_allocations (fresh-IsSound v) r in (i.distinct, i.below)

-- The next allocation of a client that holds `held`: refused when all slots are held, and another
-- slot of the pool otherwise.
abbrev pub NextSlot : ℕ → Client → Type 0
NextSlot max c =
    ((length c.held ≡ max)
      × (alloc (some c.pa) true
          ≡ some (record { result = libd_no_memory; out = none; pa = some c.pa })))
    ⊎ ((s : ℕ) × (pa' : PoolAllocator) × (length c.held < max)
        × (s < max)
        × NotIn s c.held
        × (alloc (some c.pa) true
            ≡ some (record {
              result = libd_ok;
              out = some (s * c.pa.bytes_per_alloc);
              pa = some pa';
            })))

sound-NextSlot :
    (max : ℕ) (c : Client) (i : IsSound max c) (free_list : List ℕ)
    → i.free_list ≡ free_list
    → NextSlot max c
sound-NextSlot max c i [] e =
    inl (omega (arith, i.count, ap length e), alloc_exhausted (subst (λ l. IsPool l c.pa) e i.pool))
sound-NextSlot max c i (x ∷ xs) e =
    let v : IsPool (x ∷ xs) c.pa = subst (λ l. IsPool l c.pa) e i.pool in
    let p = alloc-Popped x xs v in
    inr (
      x,
      p.after,
      omega (arith, i.count, ap length e),
      rw (← i.same_max) v.chain.1,
      Apart-NotIn x c.held xs (subst (Apart c.held) e i.apart),
      p.returns,
    )

-- A pool never runs out before all its slots are held: in every reachable state `alloc` refuses
-- exactly when the client holds every slot, and otherwise hands out a slot that it does not hold.
pub Reach-NextSlot :
    {pa : PoolAllocator} {c : Client}
    → IsPool (slots 0 pa.max_allocations) pa
    → Reach (record { pa = pa; held = [] }) c
    → NextSlot pa.max_allocations c
Reach-NextSlot {pa} {c} v r =
    let i = Reach-IsSound pa.max_allocations (fresh-IsSound v) r in
    sound-NextSlot pa.max_allocations c i i.free_list refl
