-- ===== src/Memory/Pool/Client/Sound.antt =====
-- What holds in every state that a client can reach.
use mathlib.Core.Path.{subst}
use libdane.Base.{
  ℕ, ◌+◌, ◌*◌, ◌≤◌, ◌≡◌, refl, ap, sym, ◌∙◌, ◌≢◌, ◌⊎◌, inl, inr, arith, true, Option, none, some,
  some_inj, List, [], ◌∷◌, length, pos,
}
use native.Mathlib.Decide.{dec_lt, ℕ_discrete}
use libdane.Common.{libd_ok}
use libdane.Memory.Pool.{PoolAllocator, Reply, alloc, free, reset}
use libdane.Memory.Pool.Bytes.{load_u32}
use libdane.Memory.Pool.Chain.{NotIn, Distinct, Chain-frame}
use libdane.Memory.Pool.Valid.{IsPool, with_bytes}
use libdane.Memory.Pool.Alloc.{Popped, alloc-Popped, alloc_exhausted}
use libdane.Memory.Pool.Free.{Freed, freed, free-Freed}
use libdane.Memory.Pool.FreeList.{slots, with_bytes-IsSized, reset-IsFull, length-slots}
use libdane.Memory.Pool.Client.{
  Client, IsIn, remove, SameOutside, Step, allocate, write, give_back, clear, Reach, here, next,
}
use libdane.Memory.Pool.Client.Slots.{
  Apart, AllBelow, IsIn-Apart, IsIn-below, Apart-NotIn, Apart-tail, NotIn-remove_self,
  remove-Distinct, remove-AllBelow, length-remove, Apart-freed, remove-Apart, length-freed,
}

-- The slots are split between the client and the free list.
pub record IsSound (max : ℕ) (c : Client) : Type 0 where
  pub free_list : List ℕ
  pub pool : IsPool free_list c.pa
  pub same_max : c.pa.max_allocations ≡ max
  pub distinct : Distinct c.held
  pub below : AllBelow max c.held
  pub apart : Apart c.held free_list
  pub count : length free_list + length c.held ≡ max

mul_le : (a b w : ℕ) → a ≤ b → a * w ≤ b * w
mul_le a b w h = grind arith

-- The first word of another slot is outside of slot `s`.
same_load :
    (pa : PoolAllocator) (s y : ℕ) (b : ℕ → ℕ)
    → 4 ≤ pa.bytes_per_alloc
    → SameOutside pa s b
    → s ≢ y
    → load_u32 b (y * pa.bytes_per_alloc) ≡ load_u32 pa.bytes (y * pa.bytes_per_alloc)
unfolding load_u32
same_load pa s y b wide same ne = omega (
  arith,
  same (y * pa.bytes_per_alloc) (ground (arith, apart)),
  same (y * pa.bytes_per_alloc + 1) (ground (arith, apart)),
  same (y * pa.bytes_per_alloc + 2) (ground (arith, apart)),
  same (y * pa.bytes_per_alloc + 3) (ground (arith, apart)),
)
  where
    w : ℕ
    w = pa.bytes_per_alloc

    apart : (y * w + 4 ≤ s * w) ⊎ (s * w + w ≤ y * w)
    apart = elim (dec_lt y s) [
      | yes lt ↦ inl (omega (arith, mul_le (y + 1) s w (omega arith)))
      | no ge ↦ inr (omega (arith, mul_le (s + 1) y w (omega arith)))
    ]

write-IsPool :
    {pa : PoolAllocator} (s : ℕ) (b : ℕ → ℕ) (free_list : List ℕ)
    → NotIn s free_list
    → SameOutside pa s b
    → IsPool free_list pa
    → IsPool free_list (with_bytes pa b)
write-IsPool {pa} s b free_list out same v = record {
  sized = with_bytes-IsSized b v.sized;
  chain =
      Chain-frame pa.bytes b pa.bytes_per_alloc pa.max_allocations s pa.head_index free_list
        (λ y ne. same_load pa s y b v.sized.wide same ne) out v.chain;
  tail = v.tail;
  distinct = v.distinct;
}

reply_pa : {r : Option Reply} {x y : Reply} → r ≡ some x → r ≡ some y → x.pa ≡ y.pa
reply_pa p q = ap (λ (r : Reply). r.pa) (some_inj (sym p ∙ q))

reply_out : {r : Option Reply} {x y : Reply} → r ≡ some x → r ≡ some y → x.out ≡ y.out
reply_out p q = ap (λ (r : Reply). r.out) (some_inj (sym p ∙ q))

mul_cancel : (a b w : ℕ) → 4 ≤ w → a * w ≡ b * w → a ≡ b
mul_cancel a b w wide e = elim (ℕ_discrete a b) [
  | yes same ↦ same
  | no ne ↦ elim (dec_lt a b) [
    | yes lt ↦ absurd (omega (arith, mul_le (a + 1) b w (omega arith)))
    | no ge ↦ absurd (omega (arith, mul_le (b + 1) a w (omega arith)))
  ]
]

module _ (max : ℕ) (c : Client) where
  allocate-IsSound :
      (s : ℕ) (pa' : PoolAllocator) (i : IsSound max c) (free_list : List ℕ)
      → i.free_list ≡ free_list
      → alloc (some c.pa) true
        ≡ some (record { result = libd_ok; out = some (s * c.pa.bytes_per_alloc); pa = some pa' })
      → IsSound max (record { pa = pa'; held = s ∷ c.held })
  allocate-IsSound s pa' i [] e r = cc (
      ap (λ (r : Reply). r.result)
        (some_inj (sym r ∙ alloc_exhausted (subst (λ l. IsPool l c.pa) e i.pool))))
  allocate-IsSound s pa' i (x ∷ xs) e r =
      rw (← after_eq, ← slot_eq)
        (record {
          free_list = xs;
          pool = p.valid;
          same_max = p.same_max ∙ i.same_max;
          distinct = (Apart-NotIn x c.held xs apart, i.distinct);
          below = (rw (← i.same_max) v.chain.1, i.below);
          apart = (v.distinct.0, Apart-tail x c.held xs apart);
          count = omega (arith, i.count, ap length e);
        })
    where
      v : IsPool (x ∷ xs) c.pa
      v = subst (λ l. IsPool l c.pa) e i.pool

      p : Popped c.pa x xs (alloc (some c.pa) true)
      p = alloc-Popped x xs v

      apart : Apart c.held (x ∷ xs)
      apart = subst (Apart c.held) e i.apart

      after_eq : p.after ≡ pa'
      after_eq = some_inj (reply_pa p.returns r)

      slot_eq : x ≡ s
      slot_eq = mul_cancel x s c.pa.bytes_per_alloc v.sized.wide (some_inj (reply_out p.returns r))

  give_back-IsSound :
      (s : ℕ) (pa' : PoolAllocator)
      → IsSound max c
      → IsIn s c.held
      → free (some c.pa) (some (pos (s * c.pa.bytes_per_alloc)))
        ≡ some (record { result = libd_ok; out = none; pa = some pa' })
      → IsSound max (record { pa = pa'; held = remove s c.held })
  give_back-IsSound s pa' i h r = rw (← after_eq) (record {
    free_list = freed c.pa.head_index s i.free_list;
    pool = f.valid;
    same_max = f.same_max ∙ i.same_max;
    distinct = remove-Distinct s c.held i.distinct;
    below = remove-AllBelow s max c.held i.below;
    apart =
        Apart-freed c.pa.head_index s (remove s c.held) i.free_list
          (NotIn-remove_self s c.held i.distinct) (remove-Apart s c.held i.free_list i.apart);
    count =
        omega
          (arith, i.count, length-freed c.pa.head_index s i.free_list, length-remove s c.held h);
  })
    where
      f : Freed c.pa s i.free_list (free (some c.pa) (some (pos (s * c.pa.bytes_per_alloc))))
      f =
          free-Freed s i.free_list i.pool (rw i.same_max (IsIn-below s max c.held h i.below))
            (IsIn-Apart s c.held i.free_list h i.apart)

      after_eq : f.after ≡ pa'
      after_eq = some_inj (reply_pa f.returns r)

  clear-IsSound :
      (pa' : PoolAllocator)
      → IsSound max c
      → reset (some c.pa) ≡ some (record { result = libd_ok; out = none; pa = some pa' })
      → IsSound max (record { pa = pa'; held = [] })
  clear-IsSound pa' i r =
      let f = reset-IsFull i.pool.sized in
      rw (← some_inj (reply_pa f.1 r)) (record {
        free_list = slots 0 c.pa.max_allocations;
        pool = f.2;
        same_max = f.3 ∙ i.same_max;
        distinct = tt;
        below = tt;
        apart = tt;
        count = omega (arith, length-slots 0 c.pa.max_allocations, i.same_max);
      })

Step-IsSound : (max : ℕ) {c d : Client} → Step c d → IsSound max c → IsSound max d
Step-IsSound max (allocate c s pa' r) i = allocate-IsSound max c s pa' i i.free_list refl r
Step-IsSound max (write c s b h same) i = record {
  free_list = i.free_list;
  pool = write-IsPool s b i.free_list (IsIn-Apart s c.held i.free_list h i.apart) same i.pool;
  same_max = i.same_max;
  distinct = i.distinct;
  below = i.below;
  apart = i.apart;
  count = i.count;
}
Step-IsSound max (give_back c s pa' h r) i = give_back-IsSound max c s pa' i h r
Step-IsSound max (clear c pa' r) i = clear-IsSound max c pa' i r

-- Whatever a client does, starting from a pool with every slot free: the pool stays in order, the
-- client never holds a slot twice, and the slots that it holds and the free ones make up the pool.
pub Reach-IsSound : (max : ℕ) {c d : Client} → IsSound max c → Reach c d → IsSound max d
Reach-IsSound max i here = i
Reach-IsSound max i (next r st) = Step-IsSound max st (Reach-IsSound max i r)

pub fresh-IsSound :
    {pa : PoolAllocator}
    → IsPool (slots 0 pa.max_allocations) pa
    → IsSound pa.max_allocations (record { pa = pa; held = [] })
fresh-IsSound {pa} v = record {
  free_list = slots 0 pa.max_allocations;
  pool = v;
  same_max = refl;
  distinct = tt;
  below = tt;
  apart = tt;
  count = omega (arith, length-slots 0 pa.max_allocations);
}
