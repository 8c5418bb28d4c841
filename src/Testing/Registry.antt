-- ===== src/Testing/Registry.antt =====
-- include/libd/testing.h: `register_test`, and the loop of `END_TEST_MAIN`.
--
-- An entry is its address; `next` is the field of each entry, and `none` is `NULL`. What a test does
-- is a parameter: `f` runs the function of an entry on the state of the program, and is `none` if
-- an assertion aborts. Tests do not register tests.
pub mod Order
pub mod Cycle
mod Tests
use libdane.Base.{ℕ, zero, suc, Option, none, some, List, [], ◌∷◌, ◌==◌, if◌then◌else◌}

pub record Registry : Type 0 where
  pub g_test_registry : Option ℕ
  pub next : ℕ → Option ℕ

abbrev pub empty : (ℕ → Option ℕ) → Registry
empty next = record { g_test_registry = none; next = next }

unfoldable pub register_test : ℕ → Registry → Registry
register_test entry r = record {
  g_test_registry = some entry;
  next = λ e. if e == entry then r.g_test_registry else r.next e;
}

-- `TEST_MAIN` with these tests, in that order.
unfoldable pub register_all : List ℕ → Registry → Registry
register_all [] r = r
register_all (e ∷ es) r = register_all es (register_test e r)

-- `done` is the return of `main`, with the state of the program.
pub data Main (S : Type 0) : Type 0 where
  done : S → Main S
  aborted : Main S
  out_of_fuel : Main S

module _ {S : Type 0} (f : ℕ → S → Option S) where
  unfoldable pub run_tests : ℕ → Registry → S → Main S
  run_tests zero r s = out_of_fuel
  run_tests (suc fuel) r s = elim r.g_test_registry [
    | none ↦ done s
    | some entry ↦ elim (f entry s) [
      | none ↦ aborted
      | some s' ↦ run_tests fuel (record r { g_test_registry = r.next entry }) s'
    ]
  ]
