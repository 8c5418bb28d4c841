-- ===== src/Errors/Bytes.antt =====
-- The bytes of a context.
use libdane.Base.{
  ◌+◌, ◌*◌, ◌/◌, ◌%◌, ℕ, zero, suc, ◌≡◌, refl, arith, ◌<◌, ◌^◌, none, some, List, [], ◌∷◌, length,
  take,
}
use libdane.Errors.{ErrorContext, sizeof_msg, sizeof_error_context, to_bytes, from_bytes}

pub length-to_bytes :
    (c : ErrorContext) → length c.msg ≡ sizeof_msg → length (to_bytes c) ≡ sizeof_error_context
unfolding to_bytes
length-to_bytes c size = omega (arith, size)

take_all : (n : ℕ) (bytes : List ℕ) → length bytes ≡ n → take n bytes ≡ bytes
take_all zero [] e = refl
take_all zero (b ∷ bytes) e = absurd (omega arith)
take_all (suc n) [] e = absurd (omega arith)
take_all (suc n) (b ∷ bytes) e = rw (take_all n bytes (omega arith)) refl

four_bytes :
    (n : ℕ)
    → n < 2 ^ 32
    → n % 2 ^ 8
        + 2 ^ 8 * (n / 2 ^ 8 % 2 ^ 8)
        + 2 ^ 16 * (n / 2 ^ 16 % 2 ^ 8)
        + 2 ^ 24 * (n / 2 ^ 24 % 2 ^ 8)
      ≡ n
four_bytes n h = omega arith

-- The bytes of a context of 32 bits and 512 bytes stand for that context.
pub from_bytes-to_bytes :
    (c : ErrorContext)
    → c.code < 2 ^ 32
    → length c.msg ≡ sizeof_msg
    → from_bytes (to_bytes c) ≡ some c
unfolding from_bytes to_bytes
from_bytes-to_bytes c code size =
    rw (size, take_all sizeof_msg c.msg size, four_bytes c.code code) refl

pub from_bytes_short :
    (bytes : List ℕ) → length bytes < sizeof_error_context → from_bytes bytes ≡ none
unfolding from_bytes
from_bytes_short [] h = refl
from_bytes_short (a ∷ []) h = refl
from_bytes_short (a ∷ b ∷ []) h = refl
from_bytes_short (a ∷ b ∷ c ∷ []) h = refl
from_bytes_short (a ∷ b ∷ c ∷ d ∷ bytes) h = ground arith
