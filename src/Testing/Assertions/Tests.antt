-- ===== src/Testing/Assertions/Tests.antt =====
-- Assertions on negative numbers, and on a truth value other than 1.
use libdane.Base.{◌≡◌, ◌-◌, ◌^◌, false, refl, true, none, some, [], ◌∷◌, pos, negsuc, arith}
use libdane.Testing.Assertions.{
  Site, assertion_failed, context, libd_assert_op, assert_op, assert_lt_u, assert_lt_s,
}
use libdane.Testing.Assertions.Unsigned.{UnsignedAgree, assert_op-UnsignedAgree}
use libdane.Testing.Assertions.Passing.{Passes, SignedAgree, assert_op-SignedAgree}

abbrev here : Site
here = record { lhs_s = "a"; rhs_s = "b"; file = "test.c"; line = 7 }

-- -2 as a word is more than 1.
mixed_signs :
    Passes (assert_lt_s true (negsuc 1) (pos 1) here none)
    × (assert_lt_u true (negsuc 1) (pos 1) here (some (record { format = "%d"; args = 5 ∷ [] }))
        ≡ record {
          printed =
              assertion_failed here "<" "%lu" 18446744073709551614 1
              ∷ context (record { format = "%d"; args = 5 ∷ 0 ∷ [] })
              ∷ [];
          aborts = true;
        })
unfolding assert_op libd_assert_op
mixed_signs = (refl, refl)

assert_op-SignedAgree_example : SignedAgree true (negsuc 1) (pos 1) here none
assert_op-SignedAgree_example =
    assert_op-SignedAgree true (negsuc 1) (pos 1) here none (omega arith) (omega arith)

assert_op-UnsignedAgree_example : UnsignedAgree false 2 (2 ^ 64 - 1) here none
assert_op-UnsignedAgree_example =
    assert_op-UnsignedAgree false 2 (2 ^ 64 - 1) here none (omega arith) (omega arith)
