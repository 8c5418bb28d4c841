-- ===== src/Memory/Linear/Create.antt =====
-- `libd_linear_allocator_create`: what success means, and reservations that it cannot serve.
use native.Mathlib.Decide.{dec_lt}
use libdane.Base.{
  ℕ, ◌+◌, ◌*◌, ◌%◌, ◌^◌, ◌≤◌, ◌<◌, ◌≡◌, refl, ◌∙◌, ◌⊎◌, inl, inr, arith, true, false, Bool, none,
  some, [], ◌∷◌, u32, u64, Bool-cases, pow_mono,
}
use native.Mathlib.Nat.{zero-mod, mod-eq_of_lt}
use libdane.Common.{libd_ok, libd_err}
use libdane.Memory.Helpers.{is_valid_alignment, align_up}
use libdane.Memory.Helpers.Align.{align_up_least}
use libdane.Memory.Helpers.Validity.{is_valid_alignment_iff}
use libdane.Memory.Linear.{
  LinearAllocator, Kernel, mapped, protected, unmapped_range, effects, Created,
  total_reservation_size, create_checked, create,
}
use libdane.Memory.Linear.Valid.{IsAlignment, IsPage, IsValid, Guards, align_up_page}

pub valid-IsAlignment : (a : ℕ) → a < 256 → is_valid_alignment a ≡ true → IsAlignment a
valid-IsAlignment a small h = pick ((is_valid_alignment_iff a small).0 h)
  where
    pick : (a ≡ 1) ⊎ (a ≡ 2) ⊎ (a ≡ 4) ⊎ (a ≡ 8) ⊎ (a ≡ 16) → IsAlignment a
    pick (inl e) = (0, omega arith, e)
    pick (inr (inl e)) = (1, omega arith, e)
    pick (inr (inr (inl e))) = (2, omega arith, e)
    pick (inr (inr (inr (inl e)))) = (3, omega arith, e)
    pick (inr (inr (inr (inr e)))) = (4, omega arith, e)

-- The size of the reservation that `create` asks for.
abbrev pub requested : ℕ → ℕ → ℕ
requested page_size data_reservation_size = align_up (u32 (32 + data_reservation_size)) page_size

-- What success means: an allocator that is valid over the mapped range, empty, with at least the
-- starting capacity.
pub record IsFresh (res start al : ℕ) (c : Created) : Type 0 where
  pub la : LinearAllocator
  pub out : c.out ≡ some la
  pub valid : IsValid la (effects unmapped_range c.calls)
  pub empty : la.head_index ≡ 0
  pub capacity : start ≤ la.curr_data_size
  pub reservation : la.data_reservation_size ≡ res
  pub alignment : la.alignment ≡ al

pub IsPage-le : (p : ℕ) → IsPage p → p ≤ 2 ^ 31
IsPage-le p (k, lo, hi, e) = rw e (pow_mono k 31 hi)

align_up-le_page : (v p : ℕ) → IsPage p → v ≤ p → align_up v p ≤ p
align_up-le_page v p (k, lo, hi, e) h = rw e (
    omega (
      arith,
      pow_mono k 31 hi,
      (align_up_least v k (omega (arith, pow_mono k 31 hi))).2 1 (omega arith),
    ))

-- A page multiple that is not 0 is a page at least.
at_least_page : (v p : ℕ) → IsPage p → 0 < v → v < 2 ^ 32 → p ≤ align_up v p
at_least_page v p (k, lo, hi, e) pos small = rw e (elim (dec_lt (align_up v (2 ^ k)) (2 ^ k)) [
  | yes below ↦ absurd (omega (arith, least.0, least.1, mod-eq_of_lt below))
  | no above ↦ omega arith
])
  where
    least :
        (align_up v (2 ^ k) % 2 ^ k ≡ 0)
        × (v ≤ align_up v (2 ^ k))
        × ((m : ℕ) → v ≤ m * 2 ^ k → align_up v (2 ^ k) ≤ m * 2 ^ k)
    least = align_up_least v k (omega (arith, pow_mono k 31 hi))

abbrev pub fresh : ℕ → ℕ → ℕ → ℕ → LinearAllocator
fresh p res start al = record {
  curr_data_size = align_up start p;
  head_index = 0;
  alignment = al;
  header_size = 32;
  sys_page_size = u32 p;
  data_reservation_size = res;
}

-- The range that `create` makes accessible.
abbrev pub accessible : ℕ → ℕ → ℕ
accessible p start = align_up (u64 (32 + align_up start p)) p

module _ (p res start al : ℕ) (page : IsPage p) (pos : 0 < start) (small : start < 2 ^ 32) where
  pub accessible_bounds :
      (32 + align_up start p ≤ accessible p start)
      × (start ≤ align_up start p)
      × (align_up start p % 16 ≡ 0)
  accessible_bounds = rw word (
    (align_up_page (32 + align_up start p) p page (omega (arith, rounded, IsPage-le p page))).0,
    rounded.0,
    rounded.2,
  )
    where
      rounded :
          (start ≤ align_up start p) × (align_up start p < start + p) × (align_up start p % 16 ≡ 0)
      rounded = align_up_page start p page (omega arith)

      word : (32 + align_up start p) % 2 ^ 64 ≡ 32 + align_up start p
      word = omega (arith, rounded, IsPage-le p page)

  fresh-IsValid :
      IsAlignment al
      → res + 32 < 2 ^ 32
      → accessible p start ≤ requested p res
      → IsValid
          (fresh p res start al)
          (effects unmapped_range (mapped (requested p res) ∷ protected (accessible p start) ∷ []))
  fresh-IsValid alignment fits inside = record {
    header = refl;
    alignment = alignment;
    page = rw word page;
    aligned_head = zero-mod al;
    aligned_data = accessible_bounds.2;
    nonempty = omega (arith, accessible_bounds);
    head_le = omega arith;
    data_le = omega (arith, accessible_bounds);
    writable_le = omega (arith, accessible_bounds);
    reserved = unfold total_reservation_size in rw (word, sum) refl;
    fits = fits;
  }
    where
      word : u32 p ≡ p
      word = omega (arith, IsPage-le p page)

      sum : u64 (32 + res) ≡ u32 (32 + res)
      sum = omega arith

create_checked_granted :
    (k : Kernel) (p res start al : ℕ)
    → (create_checked k p res start al).result ≡ libd_ok
    → (k.mmap (requested p res) ≡ true) × (k.mprotect (accessible p start) ≡ true)
unfolding create_checked
create_checked_granted k p res start al ok = ground arith

create_checked-IsFresh :
    (k : Kernel) (p res start al : ℕ)
    → IsPage p
    → IsAlignment al
    → 0 < start
    → start < 2 ^ 32
    → res + 32 < 2 ^ 32
    → Guards k (requested p res)
    → (create_checked k p res start al).result ≡ libd_ok
    → IsFresh res start al (create_checked k p res start al)
create_checked-IsFresh k p res start al page alignment pos small fits guards ok =
    unfold create_checked in
    rw (granted.0, granted.1)
      (record {
        la = fresh p res start al;
        out = refl;
        valid = fresh-IsValid p res start al page pos small alignment fits (guards _ granted.1);
        empty = refl;
        capacity = (accessible_bounds p res start al page pos small).1;
        reservation = refl;
        alignment = refl;
      })
  where
    granted : (k.mmap (requested p res) ≡ true) × (k.mprotect (accessible p start) ≡ true)
    granted = create_checked_granted k p res start al ok

-- The shape of every call of `create` whose parameters pass the checks.
create_lem :
    (k : Kernel) (p res start al : ℕ)
    → k.page_size ≡ some p
    → 0 < start
    → is_valid_alignment al ≡ true
    → create k true res start al ≡ create_checked k p res start al
unfolding create
create_lem k p res start al page pos valid = ground arith

-- A reported success has passed the checks.
create_passed :
    (k : Kernel) (out : Bool) (p res start al : ℕ)
    → k.page_size ≡ some p
    → (create k out res start al).result ≡ libd_ok
    → (out ≡ true) × (0 < start) × (is_valid_alignment al ≡ true)
unfolding create
create_passed k out p res start al page ok = ground arith

-- The allocator and the system calls of every call that reports success.
pub create_succeeded :
    (k : Kernel) (p res start al : ℕ)
    → k.page_size ≡ some p
    → (create k true res start al).result ≡ libd_ok
    → (0 < start)
      × (create k true res start al ≡ record {
        result = libd_ok;
        out = some (fresh p res start al);
        calls = mapped (requested p res) ∷ protected (accessible p start) ∷ [];
      })
unfolding create_checked
create_succeeded k p res start al size ok =
    let passed = create_passed k true p res start al size ok in
    let whole = create_lem k p res start al size passed.1 passed.2 in
    let granted = create_checked_granted k p res start al (rw whole at ok) in
    (passed.1, whole ∙ rw (granted.0, granted.1) refl)

-- Whenever `create` reports success, what it stored is a valid and empty allocator with the
-- requested capacity. The reservation and the header together stay below 2 ^ 32 bytes.
pub create-IsFresh :
    (k : Kernel) (out : Bool) (p res start al : ℕ)
    → k.page_size ≡ some p
    → IsPage p
    → start < 2 ^ 32
    → al < 256
    → res + 32 < 2 ^ 32
    → Guards k (requested p res)
    → (create k out res start al).result ≡ libd_ok
    → IsFresh res start al (create k out res start al)
create-IsFresh k out p res start al size page small byte fits guards ok =
    let passed = create_passed k out p res start al size ok in
    let whole = create_lem k p res start al size passed.1 passed.2 in
    rw (passed.0, whole)
      (create_checked-IsFresh k p res start al page (valid-IsAlignment al byte passed.2) passed.1
        small fits guards (rw (passed.0, whole) at ok))

-- For a positive starting capacity of less than 2 ^ 32 bytes, a valid alignment, and a page size
-- that is a power of two from 16 bytes to 2 GiB: if the 32-bit sum of the header and the reservation
-- is not 0 and fits in one page, `mmap` succeeds, and `mprotect` refuses every length beyond the
-- reservation, then `create` returns `libd_err` and leaves the reservation mapped.
pub create_too_small :
    (k : Kernel) (p res start al : ℕ)
    → k.page_size ≡ some p
    → IsPage p
    → 0 < start
    → start < 2 ^ 32
    → is_valid_alignment al ≡ true
    → 0 < u32 (32 + res)
    → u32 (32 + res) ≤ p
    → k.mmap (requested p res) ≡ true
    → Guards k (requested p res)
    → create k true res start al
      ≡ record { result = libd_err; out = none; calls = mapped (requested p res) ∷ [] }
create_too_small k p res start al size page pos small valid some_bytes one_page maps guards =
    rw (create_lem k p res start al size pos valid) (unfold create_checked in rw (maps, refused))
  where
    one : requested p res ≤ p
    one = align_up-le_page (u32 (32 + res)) p page one_page

    refused : k.mprotect (accessible p start) ≡ false
    refused = elim (Bool-cases (k.mprotect (accessible p start))) [
      | inl grants ↦ absurd (
          omega (
            arith,
            one,
            guards _ grants,
            accessible_bounds p res start al page pos small,
            at_least_page start p page pos small,
          ))
      | inr refuses ↦ refuses
    ]
