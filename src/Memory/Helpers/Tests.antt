-- ===== src/Memory/Helpers/Tests.antt =====
-- The helpers at concrete values, and the theorems at inputs that meet their hypotheses.
use libdane.Base.{ℕ, ◌*◌, ◌%◌, ◌≤◌, ◌≡◌, refl, arith, true, false}
use libdane.Memory.Helpers.{is_power_of_two, is_valid_alignment, align_up}
use libdane.Memory.Helpers.Align.{align_up_least}

-- Zero passes the test for a power of two, and 32 is too large for an alignment.
helpers_run :
    (is_power_of_two 0 ≡ true)
    × (is_power_of_two 48 ≡ false)
    × (is_valid_alignment 0 ≡ false)
    × (is_valid_alignment 32 ≡ false)
    × (align_up 5000 4096 ≡ 8192)
    × (align_up 4100 8128 ≡ 8256)
unfolding is_power_of_two is_valid_alignment align_up
helpers_run = (refl, refl, refl, refl, refl, refl)

align_up_least_example :
    (align_up 5000 4096 % 4096 ≡ 0)
    × (5000 ≤ align_up 5000 4096)
    × ((m : ℕ) → 5000 ≤ m * 4096 → align_up 5000 4096 ≤ m * 4096)
align_up_least_example = align_up_least 5000 12 (omega arith)
