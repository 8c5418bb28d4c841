-- ===== src/Testing/Registry/Order.antt =====
-- The order in which distinct tests run.
use mathlib.Core.List.{reverse, reverse_aux}
use libdane.Base.{
  ℕ, zero, suc, ◌<◌, ◌≡◌, ◌≢◌, refl, sym, arith, Option, none, some, List, [], ◌∷◌, ◌==◌, length,
  ==_of_ne, ==_iff, length-reverse_aux, Option-cases, if◌then◌else◌, inl, inr,
}
use libdane.Testing.Registry.{
  Registry, empty, register_test, register_all, Main, done, aborted, run_tests,
}

-- The entries from a head on are these, and then none.
abbrev pub Chain : (ℕ → Option ℕ) → Option ℕ → List ℕ → Type 0
Chain next head [] = head ≡ none
Chain next head (e ∷ es) = (head ≡ some e) × Chain next (next e) es

abbrev pub NotIn : ℕ → List ℕ → Type 0
NotIn e [] = Unit {0}
NotIn e (x ∷ xs) = (x ≢ e) × NotIn e xs

abbrev pub Distinct : List ℕ → Type 0
Distinct [] = Unit {0}
Distinct (e ∷ es) = NotIn e es × Distinct es

-- The entries of the second list are none of the first.
abbrev pub Apart : List ℕ → List ℕ → Type 0
Apart [] ys = Unit {0}
Apart (x ∷ xs) ys = NotIn x ys × Apart xs ys

Chain-set :
    (next : ℕ → Option ℕ) (entry : ℕ) (value head : Option ℕ) (es : List ℕ)
    → NotIn entry es
    → Chain next head es
    → Chain (λ e. if e == entry then value else next e) head es
Chain-set next entry value head [] out chain = chain
Chain-set next entry value head (e ∷ es) out chain =
    (chain.0, rw (==_of_ne e entry out.0) (Chain-set next entry value (next e) es out.1 chain.1))

register_test-Chain :
    (r : Registry) (entry : ℕ) (es : List ℕ)
    → NotIn entry es
    → Chain r.next r.g_test_registry es
    → Chain (register_test entry r).next (register_test entry r).g_test_registry (entry ∷ es)
unfolding register_test
register_test-Chain r entry es out chain = (
  refl,
  rw ((==_iff entry entry).1 refl)
      (Chain-set r.next entry r.g_test_registry r.g_test_registry es out chain),
)

Apart-cons : (e : ℕ) (es acc : List ℕ) → NotIn e es → Apart es acc → Apart es (e ∷ acc)
Apart-cons e [] acc out apart = tt
Apart-cons e (x ∷ es) acc out apart =
    ((λ h. out.0 (sym h), apart.0), Apart-cons e es acc out.1 apart.1)

register_all-Chain :
    (es acc : List ℕ) (r : Registry)
    → Distinct es
    → Apart es acc
    → Chain r.next r.g_test_registry acc
    → Chain (register_all es r).next (register_all es r).g_test_registry (reverse_aux es acc)
unfolding register_all
register_all-Chain [] acc r distinct apart chain = chain
register_all-Chain (e ∷ es) acc r distinct apart chain =
    register_all-Chain es (e ∷ acc) (register_test e r) distinct.1
      (Apart-cons e es acc distinct.0 apart.1) (register_test-Chain r e acc apart.0 chain)

Apart-nil : (es : List ℕ) → Apart es []
Apart-nil [] = tt
Apart-nil (e ∷ es) = (tt, Apart-nil es)

-- What the tests do, one after another, up to the first that aborts.
abbrev pub run_all : {S : Type 0} → (ℕ → S → Option S) → List ℕ → S → Main S
run_all f [] s = done s
run_all f (e ∷ es) s = elim (f e s) [ none ↦ aborted | some s' ↦ run_all f es s' ]

pub registered-Chain :
    (es : List ℕ) (next : ℕ → Option ℕ)
    → Distinct es
    → Chain
        (register_all es (empty next)).next
        (register_all es (empty next)).g_test_registry
        (reverse es)
registered-Chain es next distinct =
    register_all-Chain es [] (empty next) distinct (Apart-nil es) refl

run_tests-Chain :
    {S : Type 0} (f : ℕ → S → Option S) (xs : List ℕ) (fuel : ℕ) (r : Registry) (s : S)
    → Chain r.next r.g_test_registry xs
    → length xs < fuel
    → run_tests f fuel r s ≡ run_all f xs s
unfolding run_tests
run_tests-Chain f xs zero r s chain enough = absurd (omega arith)
run_tests-Chain f [] (suc fuel) r s chain enough = rw (run_tests, chain) refl
run_tests-Chain f (e ∷ xs) (suc fuel) r s chain enough = elim (Option-cases (f e s)) [
  | inl failed ↦ rw (run_tests, run_all, chain.0, failed) refl
  | inr (s', passed) ↦
      rw (run_tests, run_all, chain.0, passed)
        (run_tests-Chain f xs fuel (record r { g_test_registry = r.next e }) s' chain.1
          (omega arith))
]

-- If the tests are distinct, `main` runs each of them once, the last registered first, and ends after
-- the last one or with the first that aborts; fuel for one round more than there are tests is enough.
pub run_tests-register_all :
    {S : Type 0} (f : ℕ → S → Option S) (es : List ℕ) (fuel : ℕ) (next : ℕ → Option ℕ) (s : S)
    → Distinct es
    → length es < fuel
    → run_tests f fuel (register_all es (empty next)) s ≡ run_all f (reverse es) s
run_tests-register_all f es fuel next s distinct enough =
    run_tests-Chain f (reverse es) fuel (register_all es (empty next)) s
      (registered-Chain es next distinct) (omega (arith, length-reverse_aux es []))
