-- ===== src/Common/Limits/Tests.antt =====
-- The limits of 16 and of 32 bits.
use libdane.Base.{◌≡◌, refl, none, some, pos, negsuc}
use libdane.Common.Limits.{w8, w16, w32, subtract, shift_left, unsigned_max, signed_min, signed_max}

sixteen :
    (unsigned_max w16 ≡ negsuc 0)
    × (signed_min w8 ≡ some (pos 128))
    × (signed_max w8 ≡ some (negsuc 128))
    × (unsigned_max w32 ≡ pos 4294967295)
    × (signed_min w32 ≡ none)
unfolding subtract shift_left unsigned_max signed_min signed_max
sixteen = (refl, refl, refl, refl, refl)
