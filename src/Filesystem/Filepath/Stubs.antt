-- ===== src/Filesystem/Filepath/Stubs.antt =====
-- src/filesystem/filepath.c: the two functions that have comments in place of code.
use libdane.Base.{ℕ, ◌≡◌, refl, Option, none, List, [], ◌∷◌}
use libdane.Common.{LibdResult, libd_ok}

-- The arguments are the output, `out_len`, `input_path` and `env_getter`.
unfoldable expand : (ℕ → ℕ) → ℕ → List ℕ → (List ℕ → Option (List ℕ)) → LibdResult × (ℕ → ℕ)
expand bytes out_len input_path env_getter = (libd_ok, bytes)

-- It ends without a return, so the caller has no result.
unfoldable ancestor : (ℕ → ℕ) → ℕ → List ℕ → ℕ → Option LibdResult × (ℕ → ℕ)
ancestor bytes out_len start_path n = (none, bytes)

unwritten :
    (expand (λ q. 7) 64 (b'$' ∷ b'H' ∷ []) (λ name. none) ≡ (libd_ok, λ q. 7))
    × (ancestor (λ q. 7) 64 (b'/' ∷ []) 1 ≡ (none, λ q. 7))
unfolding expand ancestor
unwritten = (refl, refl)
