-- ===== src/Utils/DArray/Client/Lists.antt =====
-- The elements in memory before and behind an index, as parts of a list.
use libdane.Base.{ℕ, zero, suc, ◌+◌, ◌-◌, ◌≤◌, ◌≡◌, refl, ap, arith, ◌∷◌, length, take, drop}
use libdane.Utils.DArray.Contents.{elements}

module _ {ℓ} {A : Type ℓ} where
  pub length-elements : (dat : ℕ → A) (at n : ℕ) → length (elements dat at n) ≡ n
  length-elements dat at zero = refl
  length-elements dat at (suc n) = ap suc (length-elements dat (at + 1) n)

  pub take-elements :
      (dat : ℕ → A) (at i n : ℕ) → i ≤ n → take i (elements dat at n) ≡ elements dat at i
  take-elements dat at zero n le = refl
  take-elements dat at (suc i) zero le = absurd (omega arith)
  take-elements dat at (suc i) (suc n) le =
      ap (λ xs. dat at ∷ xs) (take-elements dat (at + 1) i n (omega arith))

  pub drop-elements :
      (dat : ℕ → A) (at i n : ℕ) → drop i (elements dat at n) ≡ elements dat (at + i) (n - i)
  drop-elements dat at zero zero = refl
  drop-elements dat at (suc i) zero = rw none_left refl
    where
      none_left : 0 - suc i ≡ 0
      none_left = omega arith
  drop-elements dat at zero (suc n) = rw (here, whole) refl
    where
      whole : suc n - 0 ≡ suc n
      whole = omega arith

      here : at + 0 ≡ at
      here = omega arith
  drop-elements dat at (suc i) (suc n) = rw (left, here) (drop-elements dat (at + 1) i n)
    where
      left : suc n - suc i ≡ n - i
      left = omega arith

      here : at + suc i ≡ at + 1 + i
      here = omega arith
