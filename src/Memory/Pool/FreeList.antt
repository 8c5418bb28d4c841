-- ===== src/Memory/Pool/FreeList.antt =====
-- `_initialize_free_list`, and with it `libd_pool_allocator_reset`: every slot is free, in ascending
-- order.
use native.Mathlib.Nat.{add-zero, zero-add}
use mathlib.Core.Path.{subst}
use libdane.Base.{
  ℕ, zero, suc, ◌+◌, ◌-◌, ◌*◌, ◌%◌, ◌^◌, ◌≤◌, ◌<◌, ◌≡◌, refl, ap, sym, ◌∙◌, arith, Option, none,
  some, List, [], ◌∷◌, length,
}
use native.Mathlib.Decide.{ℕ_discrete}
use libdane.Common.{libd_ok}
use libdane.Memory.Pool.{PoolAllocator, terminal_index, link_slots, initialize_free_list, reset}
use libdane.Memory.Pool.Bytes.{load_u32, store_u32, load-store_self}
use libdane.Memory.Pool.Chain.{Chain, NotIn, Distinct, last_or, load-store_ne}
use libdane.Memory.Pool.Valid.{IsSized, IsPool, with_bytes, store_index-ok}

-- `n` slots from `i` on, in ascending order.
abbrev pub slots : ℕ → ℕ → List ℕ
slots i zero = []
slots i (suc n) = i ∷ slots (suc i) n

-- The bytes after the loop has linked `left` slots from `i` on, each to the next one.
linked_bytes : ℕ → ℕ → ℕ → (ℕ → ℕ) → ℕ → ℕ
linked_bytes w zero i b = b
linked_bytes w (suc left) i b = linked_bytes w left (suc i) (store_u32 b (i * w) (suc i))

linked_bytes_before :
    (w left i j : ℕ) (b : ℕ → ℕ)
    → 4 ≤ w
    → j < i
    → load_u32 (linked_bytes w left i b) (j * w) ≡ load_u32 b (j * w)
unfolding linked_bytes
linked_bytes_before w zero i j b wide lt = refl
linked_bytes_before w (suc left) i j b wide lt =
    linked_bytes_before w left (suc i) j (store_u32 b (i * w) (suc i)) wide (omega arith)
    ∙ load-store_ne b w wide i j (suc i) (omega arith)

linked_bytes_inside :
    (w left i j : ℕ) (b : ℕ → ℕ)
    → 4 ≤ w
    → i + left < 2 ^ 32
    → i ≤ j
    → j < i + left
    → load_u32 (linked_bytes w left i b) (j * w) ≡ suc j
unfolding linked_bytes
linked_bytes_inside w zero i j b wide word le lt = absurd (omega arith)
linked_bytes_inside w (suc left) i j b wide word le lt = elim (ℕ_discrete i j) [
  | yes e ↦
      linked_bytes_before w left (suc i) j (store_u32 b (i * w) (suc i)) wide (omega arith)
      ∙ rw (← e) (load-store_self b (i * w) (suc i) (omega arith))
  | no ne ↦
      linked_bytes_inside w left (suc i) j (store_u32 b (i * w) (suc i)) wide (omega arith)
        (omega arith) (omega arith)
]

pub with_bytes-IsSized : {pa : PoolAllocator} (b : ℕ → ℕ) → IsSized pa → IsSized (with_bytes pa b)
with_bytes-IsSized b s = record {
  some_slots = s.some_slots;
  word = s.word;
  wide = s.wide;
  offsets = s.offsets;
  fits = s.fits;
}

link_slots_lem :
    (left i : ℕ) {pa : PoolAllocator}
    → IsSized pa
    → i + left < pa.max_allocations
    → link_slots left i pa ≡ some (with_bytes pa (linked_bytes pa.bytes_per_alloc left i pa.bytes))
unfolding link_slots linked_bytes
link_slots_lem zero i s inside = refl
link_slots_lem (suc left) i {pa} s inside =
    rw (word, store_index-ok s i (omega arith) (suc i))
      (link_slots_lem left (suc i)
        (with_bytes-IsSized (store_u32 pa.bytes (i * pa.bytes_per_alloc) (suc i)) s) (omega arith))
  where
    word : (i + 1) % 2 ^ 32 ≡ suc i
    word = omega (arith, s.word)

-- Slots that lead to the next one each, the last one to `max`, are a chain.
slots-Chain :
    (b : ℕ → ℕ) (w max n i : ℕ)
    → i + suc n ≡ max
    → ((j : ℕ) → i ≤ j → j < i + n → load_u32 b (j * w) ≡ suc j)
    → load_u32 b ((i + n) * w) ≡ max
    → Chain b w max i (slots i (suc n))
slots-Chain b w max zero i e links last = (refl, omega arith, rw add-zero at last)
slots-Chain b w max (suc n) i e links last = (
  refl,
  omega arith,
  rw (links i (omega arith) (omega arith)) (
      slots-Chain b w max n (suc i) (omega arith) (λ j le lt. links j (omega arith) (omega arith))
        (ap (λ (t : ℕ). load_u32 b (t * w)) (omega arith) ∙ last)),
)

NotIn-slots : (x i n : ℕ) → x < i → NotIn x (slots i n)
NotIn-slots x i zero lt = tt
NotIn-slots x i (suc n) lt = (omega arith, NotIn-slots x (suc i) n (omega arith))

slots-Distinct : (i n : ℕ) → Distinct (slots i n)
slots-Distinct i zero = tt
slots-Distinct i (suc n) = (NotIn-slots i (suc i) n (omega arith), slots-Distinct (suc i) n)

last_or-slots : (m i n : ℕ) → last_or m (slots i (suc n)) ≡ i + n
last_or-slots m i zero = omega arith
last_or-slots m i (suc n) = omega (arith, last_or-slots i (suc i) n)

pub length-slots : (i n : ℕ) → length (slots i n) ≡ n
length-slots i zero = refl
length-slots i (suc n) = ap suc (length-slots (suc i) n)

-- The pool after the loop and the last write.
full_bytes : PoolAllocator → ℕ → ℕ
full_bytes pa =
    store_u32 (linked_bytes pa.bytes_per_alloc (pa.max_allocations - 1) 0 pa.bytes)
      ((pa.max_allocations - 1) * pa.bytes_per_alloc) pa.max_allocations

full : PoolAllocator → PoolAllocator
full pa = record pa { head_index = 0; tail_index = pa.max_allocations - 1; bytes = full_bytes pa }

relinked-IsSized :
    {pa : PoolAllocator} (head tail : ℕ) (b : ℕ → ℕ)
    → IsSized pa
    → IsSized (record pa { head_index = head; tail_index = tail; bytes = b })
relinked-IsSized head tail b s = record {
  some_slots = s.some_slots;
  word = s.word;
  wide = s.wide;
  offsets = s.offsets;
  fits = s.fits;
}

module _ {pa : PoolAllocator} (s : IsSized pa) where
  full-IsSized : IsSized (full pa)
  unfolding full
  full-IsSized = relinked-IsSized 0 (pa.max_allocations - 1) (full_bytes pa) s

  initialize_run : initialize_free_list pa ≡ some (full pa)
  unfolding initialize_free_list terminal_index full full_bytes
  initialize_run = rw (
    word,
    link_slots_lem (pa.max_allocations - 1) 0
        (relinked-IsSized 0 (pa.max_allocations - 1) pa.bytes s) (omega (arith, s.some_slots)),
    store_index-ok
        (relinked-IsSized 0 (pa.max_allocations - 1)
          (linked_bytes pa.bytes_per_alloc (pa.max_allocations - 1) 0 pa.bytes) s)
        (pa.max_allocations - 1) (omega (arith, s.some_slots)) pa.max_allocations,
  )
    where
      word : (pa.max_allocations + 2 ^ 32 - 1) % 2 ^ 32 ≡ pa.max_allocations - 1
      word = omega (arith, s.word, s.some_slots)

  full_links :
      (j : ℕ)
      → 0 ≤ j
      → j < 0 + (pa.max_allocations - 1)
      → load_u32 (full_bytes pa) (j * pa.bytes_per_alloc) ≡ suc j
  unfolding full_bytes
  full_links j le lt =
      load-store_ne (linked_bytes pa.bytes_per_alloc (pa.max_allocations - 1) 0 pa.bytes)
        pa.bytes_per_alloc s.wide (pa.max_allocations - 1) j pa.max_allocations (omega arith)
      ∙ linked_bytes_inside pa.bytes_per_alloc (pa.max_allocations - 1) 0 j pa.bytes s.wide
          (omega (arith, s.word)) le lt

  full_last :
      load_u32 (full_bytes pa) ((0 + (pa.max_allocations - 1)) * pa.bytes_per_alloc)
      ≡ pa.max_allocations
  unfolding full_bytes
  full_last = rw zero-add (
      load-store_self (linked_bytes pa.bytes_per_alloc (pa.max_allocations - 1) 0 pa.bytes)
        ((pa.max_allocations - 1) * pa.bytes_per_alloc) pa.max_allocations s.word)

-- A pool with every slot free, in ascending order.
pub record IsFull (pa : PoolAllocator) (r : Option PoolAllocator) : Type 0 where
  pub after : PoolAllocator
  pub returns : r ≡ some after
  pub same_max : after.max_allocations ≡ pa.max_allocations
  pub same_width : after.bytes_per_alloc ≡ pa.bytes_per_alloc
  pub valid : IsPool (slots 0 pa.max_allocations) after

last_or-slots_all : (n : ℕ) → 0 < n → last_or n (slots 0 n) ≡ n - 1
last_or-slots_all zero pos = absurd (omega arith)
last_or-slots_all (suc n) pos = omega (arith, last_or-slots (suc n) 0 n)

pub initialize_free_list-IsFull :
    {pa : PoolAllocator} → IsSized pa → IsFull pa (initialize_free_list pa)
unfolding full
initialize_free_list-IsFull {pa} s = record {
  after = full pa;
  returns = initialize_run s;
  same_max = refl;
  same_width = refl;
  valid = record {
    sized = full-IsSized s;
    chain =
        subst (λ n. Chain (full_bytes pa) pa.bytes_per_alloc pa.max_allocations 0 (slots 0 n)) count
          (slots-Chain (full_bytes pa) pa.bytes_per_alloc pa.max_allocations
            (pa.max_allocations - 1) 0 (omega (arith, s.some_slots)) (full_links s) (full_last s));
    tail = sym (last_or-slots_all pa.max_allocations s.some_slots);
    distinct = slots-Distinct 0 pa.max_allocations;
  };
}
  where
    count : suc (pa.max_allocations - 1) ≡ pa.max_allocations
    count = omega (arith, s.some_slots)

-- `reset` frees every slot of any pool, whatever its free list was.
pub reset-IsFull :
    {pa : PoolAllocator}
    → IsSized pa
    → (after : PoolAllocator) × (reset (some pa)
        ≡ some (record { result = libd_ok; out = none; pa = some after }))
      × IsPool (slots 0 pa.max_allocations) after
      × (after.max_allocations ≡ pa.max_allocations)
unfolding reset
reset-IsFull s =
    let f = initialize_free_list-IsFull s in (f.after, rw f.returns, f.valid, f.same_max)
