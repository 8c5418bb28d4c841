-- ===== src/Memory/Pool/Pointers.antt =====
-- Which pointers `libd_pool_allocator_free` takes, and for which slots.
use mathlib.Core.Path.{subst}
use native.Mathlib.Nat.{mul-mod_left, mul-div_left, mod-add-div'}
use native.Mathlib.Decide.{dec_lt, ℕ_discrete}
use libdane.Base.{
  ℕ, ◌+◌, ◌*◌, ◌/◌, ◌%◌, ◌^◌, ◌≤◌, ◌<◌, ◌≡◌, refl, sym, ap, ◌∙◌, ◌≢◌, arith, true, false, Option,
  none, some, u32, leb, ==_of_ne, pos, negsuc, ℤ, ◌⊎◌, inl, inr,
}
use libdane.Common.{libd_invalid_pointer}
use libdane.Memory.Pool.{PoolAllocator, Reply, free_slot, free_at, free}
use libdane.Memory.Pool.Valid.{IsSized}

-- The offset of slot `s`, and `k` times 2 ^ 32 slots behind it.
abbrev pub slot_offset : PoolAllocator → ℕ → ℕ → ℤ
slot_offset pa k s = pos ((k * 2 ^ 32 + s) * pa.bytes_per_alloc)

-- What `free` does with a pointer: it is taken for a slot of the pool, or refused.
abbrev pub SlotOrRefused : PoolAllocator → ℤ → Option Reply → Type 0
SlotOrRefused pa offset r =
    ((k : ℕ) × (s : ℕ) × (s < pa.max_allocations)
      × (offset ≡ slot_offset pa k s)
      × (r ≡ free_slot pa s))
    ⊎ (((k s : ℕ) → s < pa.max_allocations → offset ≢ slot_offset pa k s)
        × (r ≡ some (record { result = libd_invalid_pointer; out = none; pa = some pa })))

pos-inj : {m n : ℕ} → pos m ≡ pos n → m ≡ n
pos-inj e = cc

module _ {pa : PoolAllocator} (sized : IsSized pa) where
  free_at_wrapped :
      (k s : ℕ)
      → s < pa.max_allocations
      → free (some pa) (some (slot_offset pa k s)) ≡ free_slot pa s
  unfolding free free_at
  free_at_wrapped k s below = rw (
    ==_of_ne pa.bytes_per_alloc 0 (omega (arith, sized.wide)),
    mul-mod_left (k * 2 ^ 32 + s) pa.bytes_per_alloc,
    slot_number,
    word,
    inside,
  )
    where
      word : (k * 2 ^ 32 + s) % 2 ^ 32 ≡ s
      word = omega (arith, sized.word)

      slot_number : (k * 2 ^ 32 + s) * pa.bytes_per_alloc / pa.bytes_per_alloc ≡ k * 2 ^ 32 + s
      slot_number = mul-div_left (k * 2 ^ 32 + s) (omega (arith, sized.wide))

      inside : leb pa.max_allocations s ≡ false
      inside = ground arith

  free_between :
      (n : ℕ)
      → n % pa.bytes_per_alloc ≢ 0
      → SlotOrRefused pa (pos n) (free (some pa) (some (pos n)))
  unfolding free free_at
  free_between n odd = inr (
    (λ k s below e. odd (rw (pos-inj e) (mul-mod_left (k * 2 ^ 32 + s) pa.bytes_per_alloc))),
    ground (arith, sized.wide),
  )

  slot_inj : (q q' : ℕ) → q * pa.bytes_per_alloc ≡ q' * pa.bytes_per_alloc → q ≡ q'
  slot_inj q q' e =
      sym (mul-div_left q some_width)
      ∙ ap (λ n. n / pa.bytes_per_alloc) e
      ∙ mul-div_left q' some_width
    where
      some_width : 0 < pa.bytes_per_alloc
      some_width = omega (arith, sized.wide)

  free_behind :
      (q : ℕ)
      → pa.max_allocations ≤ u32 q
      → free (some pa) (some (pos (q * pa.bytes_per_alloc)))
        ≡ some (record { result = libd_invalid_pointer; out = none; pa = some pa })
  unfolding free free_at
  free_behind q behind =
      rw
        (
          ==_of_ne pa.bytes_per_alloc 0 (omega (arith, sized.wide)),
          mul-mod_left q pa.bytes_per_alloc,
          slot_number,
          over,
        )
        refl
    where
      over : leb pa.max_allocations (u32 q) ≡ true
      over = ground arith

      slot_number : q * pa.bytes_per_alloc / pa.bytes_per_alloc ≡ q
      slot_number = mul-div_left q (omega (arith, sized.wide))

  free_aligned :
      (q : ℕ)
      → SlotOrRefused pa
          (pos (q * pa.bytes_per_alloc))
          (free (some pa) (some (pos (q * pa.bytes_per_alloc))))
  free_aligned q = elim (dec_lt (u32 q) pa.max_allocations) [
    | yes below ↦
        let split : q ≡ q / 2 ^ 32 * 2 ^ 32 + u32 q = omega arith in
        let at : pos (q * pa.bytes_per_alloc) ≡ slot_offset pa (q / 2 ^ 32) (u32 q) =
          ap (λ x. pos (x * pa.bytes_per_alloc)) split in
        inl (
          q / 2 ^ 32,
          u32 q,
          below,
          at,
          ap (λ x. free (some pa) (some x)) at ∙ free_at_wrapped (q / 2 ^ 32) (u32 q) below,
        )
    | no behind ↦ inr (
      (λ k s below e.
          let same : q ≡ k * 2 ^ 32 + s = slot_inj q (k * 2 ^ 32 + s) (pos-inj e) in
          omega (arith, sized.word)),
      free_behind q (omega arith),
    )
  ]

  -- Every pointer, wherever it points: if it lies at a slot of the pool, or a multiple of 2 ^ 32 slots
  -- behind one, then `free` takes it for that slot; every other pointer (before the data, between
  -- two slots, at another number) is refused with `libd_invalid_pointer`, and nothing changes.
  pub free-SlotOrRefused : (offset : ℤ) → SlotOrRefused pa offset (free (some pa) (some offset))
  unfolding free
  free-SlotOrRefused (negsuc n) = inr ((λ k s below e. cc), refl)
  free-SlotOrRefused (pos n) = elim (ℕ_discrete (n % pa.bytes_per_alloc) 0) [
    | yes whole ↦
        let multiple : n / pa.bytes_per_alloc * pa.bytes_per_alloc ≡ n =
          omega (arith, mod-add-div' n pa.bytes_per_alloc) in
        subst (λ x. SlotOrRefused pa (pos x) (free (some pa) (some (pos x)))) multiple
          (free_aligned (n / pa.bytes_per_alloc))
    | no odd ↦ free_between n odd
  ]
