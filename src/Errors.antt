-- ===== src/Errors.antt =====
-- src/errors/errors.c, src/errors/internal/platform_wrap.c and include/libd/errors.h: the error context
-- of a thread, over the static thread-local storage.
--
-- `code` is the 32 bits of an `int`. `vsnprintf` is a parameter: it gives the buffer after the call
-- from the buffer, the format and the words behind it.
pub mod Bytes
pub mod Laws
pub mod Sizes
mod Tests
use libdane.Base.{
  ℕ, ◌+◌, ◌*◌, ◌/◌, ◌%◌, ◌^◌, Option, none, some, List, [], ◌∷◌, length, leb, if◌then◌else◌, zeros,
  take,
}
use libdane.Platform.ThreadLocal.{Slots, Threads, Reply, Static, static_get, static_set}

pub record ErrorContext : Type 0 where
  pub code : ℕ
  pub msg : List ℕ

-- The size of `msg`, and of the whole context.
abbrev pub sizeof_msg : ℕ
sizeof_msg = 512

abbrev pub sizeof_error_context : ℕ
sizeof_error_context = 516

-- The bytes of a context, and the context that a block of bytes holds; `none` is a block that is
-- smaller than a context.
unfoldable pub to_bytes : ErrorContext → List ℕ
to_bytes c =
    c.code % 2 ^ 8
    ∷ c.code / 2 ^ 8 % 2 ^ 8
    ∷ c.code / 2 ^ 16 % 2 ^ 8
    ∷ c.code / 2 ^ 24 % 2 ^ 8
    ∷ c.msg

unfoldable pub from_bytes : List ℕ → Option ErrorContext
from_bytes (a ∷ b ∷ c ∷ d ∷ bytes) =
    if leb sizeof_msg (length bytes)
    then some
        (record { code = a + 2 ^ 8 * b + 2 ^ 16 * c + 2 ^ 24 * d; msg = take sizeof_msg bytes })
    else none
from_bytes _ = none

-- The wrappers of `platform_wrap.c`; neither passes the size on.
unfoldable pub platform_thread_local_static_get : Threads → ℕ → Static → ℕ → Slots → Option Reply
platform_thread_local_static_get threads thread s size slots = static_get threads thread s slots

unfoldable pub platform_thread_local_static_set :
    Threads → ℕ → Static → List ℕ → ℕ → Slots → Option Reply
platform_thread_local_static_set threads thread s new_data size slots =
    static_set threads thread s none (some new_data) slots

unfoldable pub err_get : Threads → ℕ → Static → Slots → Option Reply
err_get threads thread s slots =
    platform_thread_local_static_get threads thread s sizeof_error_context slots

module _ (vsnprintf : List ℕ → List ℕ → List ℕ → List ℕ) where
  abbrev pub new_error : ℕ → List ℕ → List ℕ → ErrorContext
  new_error code fmt args = record { code = code; msg = vsnprintf (zeros sizeof_msg) fmt args }

  unfoldable pub err_set : Threads → ℕ → Static → ℕ → List ℕ → List ℕ → Slots → Option Reply
  err_set threads thread s code fmt args slots =
      platform_thread_local_static_set threads thread s (to_bytes (new_error code fmt args))
        sizeof_error_context slots
