-- ===== src/Testing/Assertions.antt =====
-- include/libd/testing.h: `libd_assert_op`, and the assertion macros.
--
-- What is printed to `stderr` is a value, with the conversion of the operands in place of the whole
-- format: for the conversions of the macros the 128 bytes of `fmt` hold all of it. `abort_on_fail` is
-- `LIBD_TESTING_ABORT_ON_FAIL`.
pub mod Passing
pub mod Unsigned
mod Tests
use Prim.Native.String.{String}
use libdane.Base.{
  ℕ, Bool, true, false, Option, none, some, List, [], ◌∷◌, ◌++◌, ℤ, pos, word, if◌then◌else◌,
}
use libdane.Testing.Predicates.{
  Predicate, eq_u_pred, ne_u_pred, lt_u_pred, le_u_pred, gt_u_pred, ge_u_pred, eq_s_pred, ne_s_pred,
  lt_s_pred, le_s_pred, gt_s_pred, ge_s_pred, eq_str_pred,
}

-- A call of `vfprintf`: the format and the words behind it.
pub record Context : Type 0 where
  pub format : String
  pub args : List ℕ

-- The spelling of the operands, and where the assertion stands.
pub record Site : Type 0 where
  pub lhs_s : String
  pub rhs_s : String
  pub file : String
  pub line : ℕ

pub data Message : Type 0 where
  assertion_failed : Site → String → String → ℕ → ℕ → Message
  context : Context → Message

pub record Outcome : Type 0 where
  pub printed : List Message
  pub aborts : Bool

abbrev pub silent : Outcome
silent = record { printed = []; aborts = false }

abbrev pub context_messages : Option Context → List Message
context_messages none = []
context_messages (some opt_ctx) = context opt_ctx ∷ []

module _ (abort_on_fail : Bool) where
  unfoldable pub libd_assert_op : Predicate → ℕ → ℕ → String → Site → Option Context → Outcome
  libd_assert_op pred lhs rhs repr site opt_ctx = if pred.f lhs rhs then silent else record {
    printed = assertion_failed site pred.op repr lhs rhs ∷ context_messages opt_ctx;
    aborts = abort_on_fail;
  }

  -- The operands become words, and `NULL` is put behind the arguments.
  unfoldable pub assert_op : Predicate → ℤ → ℤ → String → Site → Option Context → Outcome
  assert_op pred lhs rhs repr site none = libd_assert_op pred (word lhs) (word rhs) repr site none
  assert_op pred lhs rhs repr site (some c) =
      libd_assert_op pred (word lhs) (word rhs) repr site
        (some (record { format = c.format; args = c.args ++ 0 ∷ [] }))

  -- The conversions of `PRIu64` and `PRId64` on a 64-bit Linux.
  abbrev pri_u64 : String
  pri_u64 = "%lu"

  abbrev pri_i64 : String
  pri_i64 = "%ld"

  abbrev pub assert_true : ℤ → Site → Option Context → Outcome
  assert_true expr = assert_op eq_u_pred expr (pos 1) pri_u64

  abbrev pub assert_false : ℤ → Site → Option Context → Outcome
  assert_false expr = assert_op eq_u_pred expr (pos 0) pri_u64

  abbrev pub assert_zero : ℤ → Site → Option Context → Outcome
  assert_zero expr = assert_op eq_u_pred expr (pos 0) pri_u64

  abbrev pub assert_nonzero : ℤ → Site → Option Context → Outcome
  assert_nonzero expr = assert_op ne_u_pred expr (pos 0) pri_u64

  abbrev pub assert_ok : ℤ → Site → Option Context → Outcome
  assert_ok expr = assert_op eq_u_pred expr (pos 0) pri_u64

  abbrev pub assert_eq_u : ℤ → ℤ → Site → Option Context → Outcome
  assert_eq_u lhs rhs = assert_op eq_u_pred lhs rhs pri_u64

  abbrev pub assert_ne_u : ℤ → ℤ → Site → Option Context → Outcome
  assert_ne_u lhs rhs = assert_op ne_u_pred lhs rhs pri_u64

  abbrev pub assert_lt_u : ℤ → ℤ → Site → Option Context → Outcome
  assert_lt_u lhs rhs = assert_op lt_u_pred lhs rhs pri_u64

  abbrev pub assert_le_u : ℤ → ℤ → Site → Option Context → Outcome
  assert_le_u lhs rhs = assert_op le_u_pred lhs rhs pri_u64

  abbrev pub assert_gt_u : ℤ → ℤ → Site → Option Context → Outcome
  assert_gt_u lhs rhs = assert_op gt_u_pred lhs rhs pri_u64

  abbrev pub assert_ge_u : ℤ → ℤ → Site → Option Context → Outcome
  assert_ge_u lhs rhs = assert_op ge_u_pred lhs rhs pri_u64

  abbrev pub assert_eq_s : ℤ → ℤ → Site → Option Context → Outcome
  assert_eq_s lhs rhs = assert_op eq_s_pred lhs rhs pri_i64

  abbrev pub assert_ne_s : ℤ → ℤ → Site → Option Context → Outcome
  assert_ne_s lhs rhs = assert_op ne_s_pred lhs rhs pri_i64

  abbrev pub assert_lt_s : ℤ → ℤ → Site → Option Context → Outcome
  assert_lt_s lhs rhs = assert_op lt_s_pred lhs rhs pri_i64

  abbrev pub assert_le_s : ℤ → ℤ → Site → Option Context → Outcome
  assert_le_s lhs rhs = assert_op le_s_pred lhs rhs pri_i64

  abbrev pub assert_gt_s : ℤ → ℤ → Site → Option Context → Outcome
  assert_gt_s lhs rhs = assert_op gt_s_pred lhs rhs pri_i64

  abbrev pub assert_ge_s : ℤ → ℤ → Site → Option Context → Outcome
  assert_ge_s lhs rhs = assert_op ge_s_pred lhs rhs pri_i64

  abbrev pub assert_eq_ptr : ℤ → ℤ → Site → Option Context → Outcome
  assert_eq_ptr lhs rhs = assert_op eq_u_pred lhs rhs "%p"

  abbrev pub assert_ne_ptr : ℤ → ℤ → Site → Option Context → Outcome
  assert_ne_ptr lhs rhs = assert_op ne_u_pred lhs rhs "%p"

  abbrev pub assert_null : ℤ → Site → Option Context → Outcome
  assert_null ptr = assert_op eq_u_pred ptr (pos 0) "%p"

  abbrev pub assert_not_null : ℤ → Site → Option Context → Outcome
  assert_not_null ptr = assert_op ne_u_pred ptr (pos 0) "%p"

  abbrev pub assert_eq_str : (ℕ → ℕ → ℤ) → ℤ → ℤ → Site → Option Context → Outcome
  assert_eq_str strcmp lhs rhs = assert_op (eq_str_pred strcmp) lhs rhs "%s"
