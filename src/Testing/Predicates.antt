-- ===== src/Testing/Predicates.antt =====
-- include/libd/testing.h: the predicates. An operand is a word of 64 bits, which the signed ones read
-- in two's complement. `strcmp` is a parameter.
use Prim.Native.String.{String}
use libdane.Base.{ℕ, Bool, not, ◌==◌, ltb, leb, ℤ, pos, s64, ltb_ℤ, leb_ℤ, eqb_ℤ}

pub record Predicate : Type 0 where
  pub f : ℕ → ℕ → Bool
  pub op : String

abbrev pub is_eq_u : ℕ → ℕ → Bool
is_eq_u lhs rhs = lhs == rhs

abbrev pub eq_u_pred : Predicate
eq_u_pred = record { f = is_eq_u; op = "==" }

abbrev pub is_ne_u : ℕ → ℕ → Bool
is_ne_u lhs rhs = not (lhs == rhs)

abbrev pub ne_u_pred : Predicate
ne_u_pred = record { f = is_ne_u; op = "!=" }

abbrev pub is_lt_u : ℕ → ℕ → Bool
is_lt_u lhs rhs = ltb lhs rhs

abbrev pub lt_u_pred : Predicate
lt_u_pred = record { f = is_lt_u; op = "<" }

abbrev pub is_le_u : ℕ → ℕ → Bool
is_le_u lhs rhs = leb lhs rhs

abbrev pub le_u_pred : Predicate
le_u_pred = record { f = is_le_u; op = "<=" }

abbrev pub is_gt_u : ℕ → ℕ → Bool
is_gt_u lhs rhs = ltb rhs lhs

abbrev pub gt_u_pred : Predicate
gt_u_pred = record { f = is_gt_u; op = ">" }

abbrev pub is_ge_u : ℕ → ℕ → Bool
is_ge_u lhs rhs = leb rhs lhs

abbrev pub ge_u_pred : Predicate
ge_u_pred = record { f = is_ge_u; op = ">=" }

abbrev pub is_eq_s : ℕ → ℕ → Bool
is_eq_s lhs rhs = eqb_ℤ (s64 lhs) (s64 rhs)

abbrev pub eq_s_pred : Predicate
eq_s_pred = record { f = is_eq_s; op = "==" }

abbrev pub is_ne_s : ℕ → ℕ → Bool
is_ne_s lhs rhs = not (eqb_ℤ (s64 lhs) (s64 rhs))

abbrev pub ne_s_pred : Predicate
ne_s_pred = record { f = is_ne_s; op = "!=" }

abbrev pub is_lt_s : ℕ → ℕ → Bool
is_lt_s lhs rhs = ltb_ℤ (s64 lhs) (s64 rhs)

abbrev pub lt_s_pred : Predicate
lt_s_pred = record { f = is_lt_s; op = "<" }

abbrev pub is_le_s : ℕ → ℕ → Bool
is_le_s lhs rhs = leb_ℤ (s64 lhs) (s64 rhs)

abbrev pub le_s_pred : Predicate
le_s_pred = record { f = is_le_s; op = "<=" }

abbrev pub is_gt_s : ℕ → ℕ → Bool
is_gt_s lhs rhs = ltb_ℤ (s64 rhs) (s64 lhs)

abbrev pub gt_s_pred : Predicate
gt_s_pred = record { f = is_gt_s; op = ">" }

abbrev pub is_ge_s : ℕ → ℕ → Bool
is_ge_s lhs rhs = leb_ℤ (s64 rhs) (s64 lhs)

abbrev pub ge_s_pred : Predicate
ge_s_pred = record { f = is_ge_s; op = ">=" }

abbrev pub is_eq_str : (ℕ → ℕ → ℤ) → ℕ → ℕ → Bool
is_eq_str strcmp lhs rhs = eqb_ℤ (strcmp lhs rhs) (pos 0)

abbrev pub eq_str_pred : (ℕ → ℕ → ℤ) → Predicate
eq_str_pred strcmp = record { f = is_eq_str strcmp; op = "==" }
