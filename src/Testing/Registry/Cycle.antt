-- ===== src/Testing/Registry/Cycle.antt =====
-- A test that is registered a second time.
use mathlib.Core.List.{reverse, reverse_aux}
use libdane.Base.{
  ℕ, zero, suc, ◌≡◌, ◌≢◌, refl, Option, none, some, List, [], ◌∷◌, ◌++◌, ◌==◌, ==_of_ne, ==_iff,
  if◌then◌else◌, reverse_aux-eq, Option-cases, inl, inr,
}
use libdane.Testing.Registry.{Registry, empty, register_test, register_all, out_of_fuel, run_tests}
use libdane.Testing.Registry.Order.{Chain, NotIn, Distinct, registered-Chain}

-- From the head on these entries lead to `e`.
abbrev Leads : (ℕ → Option ℕ) → Option ℕ → List ℕ → ℕ → Type 0
Leads next head [] e = head ≡ some e
Leads next head (x ∷ xs) e = (head ≡ some x) × Leads next (next x) xs e

Chain-Leads :
    (next : ℕ → Option ℕ) (head : Option ℕ) (xs ys : List ℕ) (e : ℕ)
    → Chain next head (xs ++ e ∷ ys)
    → Leads next head xs e
Chain-Leads next head [] ys e chain = chain.0
Chain-Leads next head (x ∷ xs) ys e chain = (chain.0, Chain-Leads next (next x) xs ys e chain.1)

Leads-set :
    (next : ℕ → Option ℕ) (e : ℕ) (value head : Option ℕ) (xs : List ℕ)
    → NotIn e xs
    → Leads next head xs e
    → Leads (λ x. if x == e then value else next x) head xs e
Leads-set next e value head [] out leads = leads
Leads-set next e value head (x ∷ xs) out leads =
    (leads.0, rw (==_of_ne x e out.0) (Leads-set next e value (next x) xs out.1 leads.1))

-- A way from a head to an entry that leads back to that head.
run_tests_cycle :
    {S : Type 0} (f : ℕ → S → Option S) (fuel e : ℕ) (next : ℕ → Option ℕ) (xs ys : List ℕ)
    (head : Option ℕ) (s : S)
    → ((x : ℕ) (s' : S) → f x s' ≢ none)
    → Leads next (next e) xs e
    → Leads next head ys e
    → run_tests f fuel (record { g_test_registry = head; next = next }) s ≡ out_of_fuel
unfolding run_tests
run_tests_cycle f zero e next xs ys head s passes cycle leads = refl
run_tests_cycle f (suc fuel) e next xs [] head s passes cycle leads = elim (Option-cases (f e s)) [
  | inl failed ↦ absurd (passes e s failed)
  | inr (s', passed) ↦
      rw (run_tests, leads, passed)
        (run_tests_cycle f fuel e next xs xs (next e) s' passes cycle cycle)
]
run_tests_cycle f (suc fuel) e next xs (y ∷ ys) head s passes cycle leads =
    elim (Option-cases (f y s)) [
      | inl failed ↦ absurd (passes y s failed)
      | inr (s', passed) ↦
          rw (run_tests, leads.0, passed)
            (run_tests_cycle f fuel e next xs ys (next y) s' passes cycle leads.1)
    ]

NotIn-reverse_aux :
    (e : ℕ) (xs acc : List ℕ) → NotIn e xs → NotIn e acc → NotIn e (reverse_aux xs acc)
NotIn-reverse_aux e [] acc out out' = out'
NotIn-reverse_aux e (x ∷ xs) acc out out' = NotIn-reverse_aux e xs (x ∷ acc) out.1 (out.0, out')

Distinct-NotIn : (xs ys : List ℕ) (e : ℕ) → Distinct (xs ++ e ∷ ys) → NotIn e ys
Distinct-NotIn [] ys e distinct = distinct.0
Distinct-NotIn (x ∷ xs) ys e distinct = Distinct-NotIn xs ys e distinct.1

reverse_aux_around :
    (xs ys acc : List ℕ) (e : ℕ)
    → reverse_aux (xs ++ e ∷ ys) acc ≡ reverse ys ++ e ∷ reverse_aux xs acc
reverse_aux_around [] ys acc e = reverse_aux-eq ys (e ∷ acc)
reverse_aux_around (x ∷ xs) ys acc e = reverse_aux_around xs ys (x ∷ acc) e

-- If distinct tests are registered and then one of them again, and no test aborts, `main` never ends:
-- it has not ended with any fuel.
pub run_tests_again :
    {S : Type 0} (f : ℕ → S → Option S) (fuel e : ℕ) (before after : List ℕ) (next : ℕ → Option ℕ)
    (s : S)
    → ((x : ℕ) (s' : S) → f x s' ≢ none)
    → Distinct (before ++ e ∷ after)
    → run_tests f fuel (register_test e (register_all (before ++ e ∷ after) (empty next))) s
      ≡ out_of_fuel
unfolding register_test
run_tests_again f fuel e before after next s passes distinct =
    run_tests_cycle f fuel e _ (reverse after) [] (some e) s passes (rw ((==_iff e e).1 refl) cycle)
      refl
  where
    r : Registry
    r = register_all (before ++ e ∷ after) (empty next)

    cycle :
        Leads
          (λ x. if x == e then r.g_test_registry else r.next x)
          r.g_test_registry
          (reverse after)
          e
    cycle =
        Leads-set r.next e r.g_test_registry r.g_test_registry (reverse after)
          (NotIn-reverse_aux e after [] (Distinct-NotIn before after e distinct) tt)
          (Chain-Leads r.next r.g_test_registry (reverse after) (reverse before) e (
            rw (reverse_aux_around before after [] e) at
              (registered-Chain (before ++ e ∷ after) next distinct)))
