-- ===== src/Testing/Assertions/Unsigned.antt =====
-- The assertions that compare words: on unsigned integers, truth values, result codes and pointers.
use Prim.Native.String.{String}
use libdane.Base.{
  ℕ, ◌^◌, ◌≤◌, ◌<◌, ◌≡◌, ◌≢◌, arith, ◌↔◌, Bool, true, Option, pos, word, ltb, leb, ==_iff,
}
use libdane.Testing.Predicates.{
  Predicate, eq_u_pred, ne_u_pred, lt_u_pred, le_u_pred, gt_u_pred, ge_u_pred,
}
use libdane.Testing.Assertions.{
  Context, Site, assert_op, assert_true, assert_false, assert_zero, assert_nonzero, assert_ok,
  assert_eq_u, assert_ne_u, assert_lt_u, assert_le_u, assert_gt_u, assert_ge_u, assert_eq_ptr,
  assert_ne_ptr, assert_null, assert_not_null,
}
use libdane.Testing.Assertions.Passing.{Passes, assert_op_iff, iff_trans, not_iff}

-- Each of these assertions passes on 64-bit words exactly when its relation holds of them. A truth
-- value is true when it is 1.
pub record UnsignedAgree (abort_on_fail : Bool) (a b : ℕ) (site : Site) (opt_ctx : Option Context)
    : Type 0 where
  pub eq_u : Passes (assert_eq_u abort_on_fail (pos a) (pos b) site opt_ctx) ↔ (a ≡ b)
  pub ne_u : Passes (assert_ne_u abort_on_fail (pos a) (pos b) site opt_ctx) ↔ (a ≢ b)
  pub lt_u : Passes (assert_lt_u abort_on_fail (pos a) (pos b) site opt_ctx) ↔ (a < b)
  pub le_u : Passes (assert_le_u abort_on_fail (pos a) (pos b) site opt_ctx) ↔ (a ≤ b)
  pub gt_u : Passes (assert_gt_u abort_on_fail (pos a) (pos b) site opt_ctx) ↔ (b < a)
  pub ge_u : Passes (assert_ge_u abort_on_fail (pos a) (pos b) site opt_ctx) ↔ (b ≤ a)
  pub eq_ptr : Passes (assert_eq_ptr abort_on_fail (pos a) (pos b) site opt_ctx) ↔ (a ≡ b)
  pub ne_ptr : Passes (assert_ne_ptr abort_on_fail (pos a) (pos b) site opt_ctx) ↔ (a ≢ b)
  pub is_true : Passes (assert_true abort_on_fail (pos a) site opt_ctx) ↔ (a ≡ 1)
  pub is_false : Passes (assert_false abort_on_fail (pos a) site opt_ctx) ↔ (a ≡ 0)
  pub is_zero : Passes (assert_zero abort_on_fail (pos a) site opt_ctx) ↔ (a ≡ 0)
  pub is_nonzero : Passes (assert_nonzero abort_on_fail (pos a) site opt_ctx) ↔ (a ≢ 0)
  pub is_ok : Passes (assert_ok abort_on_fail (pos a) site opt_ctx) ↔ (a ≡ 0)
  pub is_null : Passes (assert_null abort_on_fail (pos a) site opt_ctx) ↔ (a ≡ 0)
  pub is_not_null : Passes (assert_not_null abort_on_fail (pos a) site opt_ctx) ↔ (a ≢ 0)

ltb_iff : (a b : ℕ) → (ltb a b ≡ true) ↔ (a < b)
ltb_iff a b = (λ e. ground arith, λ h. ground arith)

leb_iff : (a b : ℕ) → (leb a b ≡ true) ↔ (a ≤ b)
leb_iff a b = (λ e. ground arith, λ h. ground arith)

word-pos : (a : ℕ) → a < 2 ^ 64 → word (pos a) ≡ a
word-pos a small = omega arith

-- Whether a failed assertion aborts or not: each assertion on unsigned integers, pointers, truth
-- values and result codes passes on 64-bit words exactly when its relation holds of them, where only
-- 1 is true.
pub assert_op-UnsignedAgree :
    (abort_on_fail : Bool) (a b : ℕ) (site : Site) (opt_ctx : Option Context)
    → a < 2 ^ 64
    → b < 2 ^ 64
    → UnsignedAgree abort_on_fail a b site opt_ctx
assert_op-UnsignedAgree abort_on_fail a b site opt_ctx ha hb = record {
  eq_u = on eq_u_pred b "%lu" hb (==_iff a b);
  ne_u = on ne_u_pred b "%lu" hb (not_iff _ (==_iff a b));
  lt_u = on lt_u_pred b "%lu" hb (ltb_iff a b);
  le_u = on le_u_pred b "%lu" hb (leb_iff a b);
  gt_u = on gt_u_pred b "%lu" hb (ltb_iff b a);
  ge_u = on ge_u_pred b "%lu" hb (leb_iff b a);
  eq_ptr = on eq_u_pred b "%p" hb (==_iff a b);
  ne_ptr = on ne_u_pred b "%p" hb (not_iff _ (==_iff a b));
  is_true = on eq_u_pred 1 "%lu" (omega arith) (==_iff a 1);
  is_false = on eq_u_pred 0 "%lu" (omega arith) (==_iff a 0);
  is_zero = on eq_u_pred 0 "%lu" (omega arith) (==_iff a 0);
  is_nonzero = on ne_u_pred 0 "%lu" (omega arith) (not_iff _ (==_iff a 0));
  is_ok = on eq_u_pred 0 "%lu" (omega arith) (==_iff a 0);
  is_null = on eq_u_pred 0 "%p" (omega arith) (==_iff a 0);
  is_not_null = on ne_u_pred 0 "%p" (omega arith) (not_iff _ (==_iff a 0));
}
  where
    on :
        {A : Type 0} (pred : Predicate) (c : ℕ) (repr : String)
        → c < 2 ^ 64
        → (pred.f a c ≡ true) ↔ A
        → Passes (assert_op abort_on_fail pred (pos a) (pos c) repr site opt_ctx) ↔ A
    on pred c repr hc holds =
        iff_trans (assert_op_iff abort_on_fail pred (pos a) (pos c) repr site opt_ctx)
          (rw (word-pos a ha, word-pos c hc) holds)
