-- ===== src/Testing/Registry/Tests.antt =====
-- Three tests that count, and one of them registered twice.
use libdane.Base.{
  ℕ, ◌≡◌, ◌≢◌, refl, arith, Option, none, some, List, [], ◌∷◌, ◌++◌, ◌==◌, if◌then◌else◌,
}
use libdane.Testing.Registry.{
  done, aborted, out_of_fuel, empty, register_test, register_all, run_tests,
}
use libdane.Testing.Registry.Order.{Distinct, run_all, run_tests-register_all}
use libdane.Testing.Registry.Cycle.{run_tests_again}

abbrev unlinked : ℕ → Option ℕ
unlinked e = none

-- The state is the trace of the tests.
abbrev trace : ℕ → List ℕ → Option (List ℕ)
trace e s = some (s ++ e ∷ [])

abbrev fails_at : ℕ → ℕ → List ℕ → Option (List ℕ)
fails_at bad e s = if e == bad then none else trace e s

last_first :
    (run_tests trace 4 (register_all (8 ∷ 16 ∷ 24 ∷ []) (empty unlinked)) []
      ≡ done (24 ∷ 16 ∷ 8 ∷ []))
    × (run_tests (fails_at 8) 4 (register_all (8 ∷ 16 ∷ 24 ∷ []) (empty unlinked)) [] ≡ aborted)
unfolding run_tests register_all register_test
last_first = (refl, refl)

three_Distinct : Distinct (8 ∷ 16 ∷ 24 ∷ [])
three_Distinct = ground arith

run_tests-register_all_example :
    run_tests (fails_at 16) 4 (register_all (8 ∷ 16 ∷ 24 ∷ []) (empty unlinked)) []
    ≡ run_all (fails_at 16) (24 ∷ 16 ∷ 8 ∷ []) []
run_tests-register_all_example =
    run_tests-register_all (fails_at 16) (8 ∷ 16 ∷ 24 ∷ []) 4 unlinked [] three_Distinct
      (omega arith)

trace_passes : (e : ℕ) (s : List ℕ) → trace e s ≢ none
trace_passes e s = λ h. cc

run_tests_again_example :
    run_tests trace 100
      (register_test 16 (register_all ((8 ∷ []) ++ 16 ∷ 24 ∷ []) (empty unlinked)))
      []
    ≡ out_of_fuel
run_tests_again_example =
    run_tests_again trace 100 16 (8 ∷ []) (24 ∷ []) unlinked [] trace_passes three_Distinct
