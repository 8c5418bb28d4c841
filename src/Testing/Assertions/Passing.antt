-- ===== src/Testing/Assertions/Passing.antt =====
-- When an assertion passes: nothing is printed, and `abort` is not called.
use Prim.Native.String.{String}
use libdane.Base.{
  ◌≡◌, ◌≢◌, refl, arith, sym, ap, ◌∙◌, ◌↔◌, Bool, true, false, not, Option, none, some, List, [],
  ◌∷◌, ℤ, pos, word, s64, IsS64, s64-word, ◌<ℤ◌, ◌≤ℤ◌, ltb_ℤ_iff, leb_ℤ_iff, eqb_ℤ_iff, ◌==◌,
  ==_iff, if◌then◌else◌,
}
use libdane.Testing.Predicates.{
  Predicate, eq_u_pred, eq_s_pred, ne_s_pred, lt_s_pred, le_s_pred, gt_s_pred, ge_s_pred,
}
use libdane.Testing.Assertions.{
  Context, Site, Message, Outcome, silent, libd_assert_op, assert_op, assert_true, assert_false,
  assert_eq_s, assert_ne_s, assert_lt_s, assert_le_s, assert_gt_s, assert_ge_s,
}

abbrev pub Passes : Outcome → Type 0
Passes o = o ≡ silent

is_silent : Outcome → Bool
is_silent o = elim o.printed [ [] ↦ true | m ∷ ms ↦ false ]

outcome_iff :
    (passed aborts : Bool) (m : Message) (ms : List Message)
    → Passes (if passed then silent else record { printed = m ∷ ms; aborts = aborts })
      ↔ (passed ≡ true)
unfolding is_silent
outcome_iff true aborts m ms = (λ h. refl, λ h. refl)
outcome_iff false aborts m ms = (λ h. ap is_silent h, λ h. cc)

pub assert_op_iff :
    (abort_on_fail : Bool) (pred : Predicate) (lhs rhs : ℤ) (repr : String) (site : Site)
    (opt_ctx : Option Context)
    → Passes (assert_op abort_on_fail pred lhs rhs repr site opt_ctx)
      ↔ (pred.f (word lhs) (word rhs) ≡ true)
unfolding assert_op libd_assert_op
assert_op_iff abort_on_fail pred lhs rhs repr site none = outcome_iff (pred.f _ _) abort_on_fail _ _
assert_op_iff abort_on_fail pred lhs rhs repr site (some c) =
    outcome_iff (pred.f _ _) abort_on_fail _ _

-- Each signed assertion on two 64-bit integers passes exactly when its relation holds of them.
pub record SignedAgree (abort_on_fail : Bool) (a b : ℤ) (site : Site) (opt_ctx : Option Context)
    : Type 0 where
  pub eq_s : Passes (assert_eq_s abort_on_fail a b site opt_ctx) ↔ (a ≡ b)
  pub ne_s : Passes (assert_ne_s abort_on_fail a b site opt_ctx) ↔ (a ≢ b)
  pub lt_s : Passes (assert_lt_s abort_on_fail a b site opt_ctx) ↔ (a <ℤ b)
  pub le_s : Passes (assert_le_s abort_on_fail a b site opt_ctx) ↔ (a ≤ℤ b)
  pub gt_s : Passes (assert_gt_s abort_on_fail a b site opt_ctx) ↔ (b <ℤ a)
  pub ge_s : Passes (assert_ge_s abort_on_fail a b site opt_ctx) ↔ (b ≤ℤ a)

pub iff_trans : {A B C : Type 0} → A ↔ B → B ↔ C → A ↔ C
iff_trans f g = (λ a. g.0 (f.0 a), λ c. f.1 (g.1 c))

pub not_iff : {A : Type 0} (b : Bool) → (b ≡ true) ↔ A → (not b ≡ true) ↔ (¬ A)
not_iff true h = (λ e. cc, λ out. absurd (out (h.0 refl)))
not_iff false h = (λ e a. cc (h.1 a), λ out. refl)

-- Whether a failed assertion aborts or not: each signed assertion passes on two 64-bit integers
-- exactly when its relation holds of them.
pub assert_op-SignedAgree :
    (abort_on_fail : Bool) (a b : ℤ) (site : Site) (opt_ctx : Option Context)
    → IsS64 a
    → IsS64 b
    → SignedAgree abort_on_fail a b site opt_ctx
assert_op-SignedAgree abort_on_fail a b site opt_ctx ha hb = record {
  eq_s = signed eq_s_pred (rw (s64-word a ha, s64-word b hb) (eqb_ℤ_iff a b));
  ne_s = signed ne_s_pred (rw (s64-word a ha, s64-word b hb) (not_iff _ (eqb_ℤ_iff a b)));
  lt_s = signed lt_s_pred (rw (s64-word a ha, s64-word b hb) (ltb_ℤ_iff a b));
  le_s = signed le_s_pred (rw (s64-word a ha, s64-word b hb) (leb_ℤ_iff a b));
  gt_s = signed gt_s_pred (rw (s64-word a ha, s64-word b hb) (ltb_ℤ_iff b a));
  ge_s = signed ge_s_pred (rw (s64-word a ha, s64-word b hb) (leb_ℤ_iff b a));
}
  where
    signed :
        {A : Type 0} (pred : Predicate)
        → (pred.f (word a) (word b) ≡ true) ↔ A
        → Passes (assert_op abort_on_fail pred a b "%ld" site opt_ctx) ↔ A
    signed pred = iff_trans (assert_op_iff abort_on_fail pred a b "%ld" site opt_ctx)

word_iff : (a b : ℤ) → IsS64 a → IsS64 b → ((word a == word b) ≡ true) ↔ (a ≡ b)
word_iff a b ha hb =
    iff_trans (==_iff (word a) (word b))
      (λ e. sym (s64-word a ha) ∙ ap s64 e ∙ s64-word b hb, λ e. ap word e)

-- Of a 64-bit integer, `ASSERT_TRUE` passes exactly for 1, and `ASSERT_FALSE` exactly for 0.
pub assert_true-assert_false :
    (abort_on_fail : Bool) (a : ℤ) (site : Site) (opt_ctx : Option Context)
    → IsS64 a
    → (Passes (assert_true abort_on_fail a site opt_ctx) ↔ (a ≡ pos 1))
      × (Passes (assert_false abort_on_fail a site opt_ctx) ↔ (a ≡ pos 0))
assert_true-assert_false abort_on_fail a site opt_ctx ha = (
  iff_trans (assert_op_iff abort_on_fail eq_u_pred a (pos 1) "%lu" site opt_ctx)
      (word_iff a (pos 1) ha (omega arith)),
  iff_trans (assert_op_iff abort_on_fail eq_u_pred a (pos 0) "%lu" site opt_ctx)
      (word_iff a (pos 0) ha (omega arith)),
)
