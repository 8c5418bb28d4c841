-- ===== src/Memory/Linear/Valid.antt =====
-- When an allocator and its address range are in order, and the arithmetic that keeps them so.
use native.Mathlib.Nat.{one-le-pow}
use libdane.Base.{
  ℕ, zero, suc, ◌+◌, ◌-◌, ◌*◌, ◌/◌, ◌%◌, ◌^◌, ◌≤◌, ◌<◌, ◌≡◌, ap, ◌∙◌, arith, true, pow-add,
  pow_mono,
}
use libdane.Memory.Helpers.{align_up}
use libdane.Memory.Helpers.Align.{align_up_bounds, align_up_least, align_up_pow}
use libdane.Memory.Linear.{LinearAllocator, Mapping, Kernel, total_reservation_size}

-- 1, 2, 4, 8 or 16.
abbrev pub IsAlignment : ℕ → Type 0
IsAlignment a = (k : ℕ) × (k ≤ 4) × (a ≡ 2 ^ k)

-- A power of two between 16 bytes and 2 GiB.
abbrev pub IsPage : ℕ → Type 0
IsPage p = (k : ℕ) × (4 ≤ k) × (k ≤ 31) × (p ≡ 2 ^ k)

-- The header, the data and the reservation lie in each other; the head is aligned and in the data.
pub record IsValid (la : LinearAllocator) (m : Mapping) : Type 0 where
  pub header : la.header_size ≡ 32
  pub alignment : IsAlignment la.alignment
  pub page : IsPage la.sys_page_size
  pub aligned_head : la.head_index % la.alignment ≡ 0
  pub aligned_data : la.curr_data_size % 16 ≡ 0
  pub nonempty : 0 < la.curr_data_size
  pub head_le : la.head_index ≤ la.curr_data_size
  pub data_le : 32 + la.curr_data_size ≤ m.writable
  pub writable_le : m.writable ≤ m.reserved
  pub reserved : m.reserved ≡ total_reservation_size la
  pub fits : la.data_reservation_size + 32 < 2 ^ 32

-- The system makes every page of the reservation accessible that it is asked for.
abbrev pub Grants : Kernel → Mapping → Type 0
Grants k m = (len : ℕ) → len ≤ m.reserved → k.mprotect len ≡ true

-- It refuses to go beyond the reservation, where nothing is mapped.
abbrev pub Guards : Kernel → ℕ → Type 0
Guards k reserved = (len : ℕ) → k.mprotect len ≡ true → len ≤ reserved

-- A page multiple is a multiple of 16.
page_multiple : (k q : ℕ) → 4 ≤ k → (q * 2 ^ k) % 16 ≡ 0
page_multiple k q h = omega (arith, ap (λ (t : ℕ). q * t) sixteen)
  where
    exponent : k ≡ (k - 4) + 4
    exponent = omega arith

    sixteen : 2 ^ k ≡ 2 ^ (k - 4) * 16
    sixteen = ap (λ (t : ℕ). 2 ^ t) exponent ∙ pow-add (k - 4) 4

pub align_up_page :
    (v p : ℕ)
    → IsPage p
    → v < 2 ^ 63
    → (v ≤ align_up v p) × (align_up v p < v + p) × (align_up v p % 16 ≡ 0)
align_up_page v p (k, lo, hi, e) small = rw e (bounds.0, bounds.1, multiple)
  where
    page_le : 2 ^ k ≤ 2 ^ 31
    page_le = pow_mono k 31 hi

    bounds : (v ≤ align_up v (2 ^ k)) × (align_up v (2 ^ k) < v + 2 ^ k)
    bounds = align_up_bounds v (2 ^ k) (one-le-pow k 2 (omega arith)) (omega (arith, page_le))

    multiple : align_up v (2 ^ k) % 16 ≡ 0
    multiple =
        rw (align_up_pow v k (omega (arith, page_le)))
          (page_multiple k ((v + 2 ^ k - 1) / 2 ^ k) lo)

-- 2 ^ 32 is a multiple of every page size.
align_up-le_word : (v p : ℕ) → IsPage p → v < 2 ^ 32 → align_up v p ≤ 2 ^ 32
align_up-le_word v p (k, lo, hi, e) small = rw e (
    omega (
      arith,
      word,
      (align_up_least v k (omega (arith, pow_mono k 31 hi))).2 (2 ^ (32 - k)) (omega (arith, word)),
    ))
  where
    exponent : 32 ≡ (32 - k) + k
    exponent = omega arith

    word : 2 ^ 32 ≡ 2 ^ (32 - k) * 2 ^ k
    word = ap (λ (t : ℕ). 2 ^ t) exponent ∙ pow-add (32 - k) k

pub align_up_size :
    (v a : ℕ)
    → IsAlignment a
    → v < 2 ^ 32
    → (v ≤ align_up v a) × (align_up v a < v + a) × (align_up v a % a ≡ 0)
align_up_size v a (k, hi, e) small = rw e (least.1, bounds.1, least.0)
  where
    alignment_le : 2 ^ k ≤ 2 ^ 4
    alignment_le = pow_mono k 4 hi

    bounds : (v ≤ align_up v (2 ^ k)) × (align_up v (2 ^ k) < v + 2 ^ k)
    bounds = align_up_bounds v (2 ^ k) (one-le-pow k 2 (omega arith)) (omega (arith, alignment_le))

    least :
        (align_up v (2 ^ k) % 2 ^ k ≡ 0)
        × (v ≤ align_up v (2 ^ k))
        × ((m : ℕ) → v ≤ m * 2 ^ k → align_up v (2 ^ k) ≤ m * 2 ^ k)
    least = align_up_least v k (omega (arith, alignment_le))

-- A block that fits the data still fits when its size is rounded up.
advance :
    (k head curr size r : ℕ)
    → k ≤ 4
    → head % 2 ^ k ≡ 0
    → curr % 16 ≡ 0
    → head + size ≤ curr
    → r < size + 2 ^ k
    → r % 2 ^ k ≡ 0
    → (head + r ≤ curr) × ((head + r) % 2 ^ k ≡ 0)
advance zero head curr size r h a b c d e = omega arith
advance (suc zero) head curr size r h a b c d e = omega arith
advance (suc (suc zero)) head curr size r h a b c d e = omega arith
advance (suc (suc (suc zero))) head curr size r h a b c d e = omega arith
advance (suc (suc (suc (suc zero)))) head curr size r h a b c d e = omega arith
advance (suc (suc (suc (suc (suc k))))) head curr size r h a b c d e = absurd (omega arith)

pub advance_head :
    (al head curr size r : ℕ)
    → IsAlignment al
    → head % al ≡ 0
    → curr % 16 ≡ 0
    → head + size ≤ curr
    → r < size + al
    → r % al ≡ 0
    → (head + r ≤ curr) × ((head + r) % al ≡ 0)
advance_head al head curr size r (k, h, e) a b c d f =
    rw e (advance k head curr size r h (rw e at a) b c (omega arith) (rw e at f))

-- The reservation holds the header and the data, and its size is a multiple of 16 up to 2 ^ 32.
pub total_reservation_bounds :
    (la : LinearAllocator)
    → la.header_size ≡ 32
    → IsPage la.sys_page_size
    → la.data_reservation_size + 32 < 2 ^ 32
    → (la.data_reservation_size + 32 ≤ total_reservation_size la)
      × (total_reservation_size la ≤ 2 ^ 32)
      × (total_reservation_size la % 16 ≡ 0)
unfolding total_reservation_size
total_reservation_bounds la header page fits = rw sum (
  (align_up_page (la.data_reservation_size + 32) la.sys_page_size page (omega arith)).0,
  align_up-le_word (la.data_reservation_size + 32) la.sys_page_size page (omega arith),
  (align_up_page (la.data_reservation_size + 32) la.sys_page_size page (omega arith)).2,
)
  where
    sum : (la.header_size + la.data_reservation_size) % 2 ^ 64 ≡ la.data_reservation_size + 32
    sum = omega arith
