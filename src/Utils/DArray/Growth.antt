-- ===== src/Utils/DArray/Growth.antt =====
-- The growth loop of darray.h: when it ends, and with which capacity.
use libdane.Base.{
  ℕ, zero, suc, ◌+◌, ◌*◌, ◌%◌, ◌^◌, ◌≤◌, ◌<◌, ◌≡◌, ◌⊎◌, inl, inr, refl, ap, ◌∙◌, arith, Option,
  none, some, u64, lt→ltb, le→ltb, pow_mono,
}
use native.Mathlib.Nat.{pow-suc}
use native.Mathlib.Decide.{dec_lt}
use libdane.Utils.DArray.{grow_capacity}

-- `cap` is a capacity for `need` elements, reached from `old` by doubling.
pub record Grown (need old : ℕ) (r : Option ℕ) : Type 0 where
  pub cap : ℕ
  pub returns : r ≡ some cap
  pub enough : need ≤ cap
  pub kept : old ≤ cap
  pub tight : (cap ≡ old) ⊎ (cap < need + need)

half : (need old fuel : ℕ) → need ≤ old * 2 ^ suc fuel → need ≤ old * 2 * 2 ^ fuel
half need old fuel h = omega (arith, ap (λ n. old * n) (pow_suc fuel) ∙ regroup old (2 ^ fuel))
  where
    pow_suc : (n : ℕ) → 2 ^ suc n ≡ 2 ^ n * 2
    pow_suc n = pow-suc 2 n

    regroup : (a b : ℕ) → a * (b * 2) ≡ a * 2 * b
    regroup a b = omega arith

grow_capacity-Grown_from :
    (fuel need old : ℕ)
    → need ≤ 2 ^ 63
    → need ≤ old * 2 ^ fuel
    → Grown need old (grow_capacity (suc fuel) need old)
unfolding grow_capacity
grow_capacity-Grown_from zero need old small reach =
    rw (le→ltb old need (omega arith)) record {
      cap = old;
      returns = refl;
      enough = omega arith;
      kept = omega arith;
      tight = inl refl;
    }
grow_capacity-Grown_from (suc fuel) need old small reach = elim (dec_lt old need) [
  | yes lt ↦
      let r = grow_capacity-Grown_from fuel need (old * 2) small (half need old fuel reach) in
      rw (lt→ltb old need lt, word lt)
        record {
          cap = r.cap;
          returns = r.returns;
          enough = r.enough;
          kept = omega (arith, r.kept);
          tight = inr (elim r.tight [ inl e ↦ omega arith | inr e ↦ e ]);
        }
  | no ge ↦ rw (le→ltb old need (omega arith)) record {
    cap = old;
    returns = refl;
    enough = omega arith;
    kept = omega arith;
    tight = inl refl;
  }
]
  where
    word : old < need → (old * 2) % 2 ^ 64 ≡ old * 2
    word lt = omega arith

-- For a capacity that is not 0 and up to 2 ^ 63 elements, 64 rounds of the loop are enough. It ends
-- with a capacity that is enough, and is the old one or less than twice the need.
pub grow_capacity-Grown :
    (need old : ℕ) → 0 < old → need ≤ 2 ^ 63 → Grown need old (grow_capacity 64 need old)
grow_capacity-Grown need old pos small = grow_capacity-Grown_from 63 need old small (omega arith)

stuck_at_zero : (fuel need : ℕ) → 0 < need → grow_capacity fuel need 0 ≡ none
unfolding grow_capacity
stuck_at_zero zero need pos = refl
stuck_at_zero (suc fuel) need pos = rw (lt→ltb 0 need pos, stuck_at_zero fuel need pos)

-- With a capacity that is a power of two and a need of more than 2 ^ 63 elements the loop never
-- ends: the capacity wraps around to 0, which doubling does not change.
pub grow_capacity_endless :
    (fuel k d need : ℕ) → k + d ≡ 63 → 2 ^ 63 < need → grow_capacity fuel need (2 ^ k) ≡ none
unfolding grow_capacity
grow_capacity_endless zero k d need e big = refl
grow_capacity_endless (suc fuel) k zero need e big =
    rw (lt→ltb (2 ^ k) need (omega (arith, pow_mono k 63 (omega arith))), wrapped)
      (stuck_at_zero fuel need (omega arith))
  where
    at_top : (n : ℕ) → n + 0 ≡ 63 → n ≡ 63
    at_top n h = omega arith

    wrapped : u64 (2 ^ k * 2) ≡ 0
    wrapped = rw (at_top k e) refl
grow_capacity_endless (suc fuel) k (suc d) need e big =
    rw (lt→ltb (2 ^ k) need (omega (arith, pow_mono k 63 (omega arith))), doubled)
      (grow_capacity_endless fuel (suc k) d need (omega arith) big)
  where
    next : (n : ℕ) → 2 ^ suc n ≡ 2 ^ n * 2
    next n = pow-suc 2 n

    doubled : u64 (2 ^ k * 2) ≡ 2 ^ suc k
    doubled = omega (arith, next k, pow_mono (suc k) 63 (omega arith))
