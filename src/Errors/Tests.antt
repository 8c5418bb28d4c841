-- ===== src/Errors/Tests.antt =====
-- Errors over storages of 516, 600 and 8 bytes. The formatter copies the format to the buffer.
use libdane.Base.{
  ℕ, ◌≡◌, refl, inr, arith, true, none, some, List, [], ◌∷◌, length, zeros, length-zeros,
}
use libdane.Platform.ThreadLocal.{Handle, live, Slots, Threads, Static}
use libdane.Errors.{new_error, err_set}
use libdane.Errors.Laws.{HasError, err_set-err_get}
use libdane.Errors.Sizes.{IsCut, err_set-IsCut}

-- At most as much as the buffer holds, and a terminator in its last byte.
abbrev print : List ℕ → List ℕ → List ℕ → List ℕ
print [] fmt args = []
print (b ∷ []) fmt args = 0 ∷ []
print (b ∷ c ∷ buffer) [] args = 0 ∷ c ∷ buffer
print (b ∷ c ∷ buffer) (f ∷ fmt) args = f ∷ print (c ∷ buffer) fmt args

length-print : (buffer fmt args : List ℕ) → length (print buffer fmt args) ≡ length buffer
length-print [] fmt args = refl
length-print (b ∷ []) fmt args = refl
length-print (b ∷ c ∷ buffer) [] args = refl
length-print (b ∷ c ∷ buffer) (f ∷ fmt) args = omega (arith, length-print (c ∷ buffer) fmt args)

abbrev system : Threads
system = record { malloc = λ n. some (zeros n); key_create = some 3; setspecific = true }

abbrev handle : ℕ → Handle
handle size = record { key = 3; data_size = size }

abbrev started : ℕ → Static
started size = record { g_static_handle = live (handle size); once = true; g_static_size = size }

abbrev unused : Slots
unused t k = none

err_set-err_get_example :
    HasError system 1
      (started 516)
      (new_error print 7 (104 ∷ 105 ∷ []) [])
      unused
      (err_set print system 1 (started 516) 7 (104 ∷ 105 ∷ []) [] unused)
err_set-err_get_example =
    err_set-err_get print system 1 (started 516) 7 (104 ∷ 105 ∷ []) [] unused (handle 516)
      (zeros 516) length-print (omega arith) refl refl (length-zeros 516) (inr (refl, refl, refl))

-- A storage of 8 bytes, of which the thread has a block.
abbrev eight_bytes : Slots
eight_bytes t k = some (zeros 8)

err_set-IsCut_example :
    IsCut system 1
      (started 8)
      (err_set print system 1 (started 8) 7 (104 ∷ 105 ∷ []) [] eight_bytes)
err_set-IsCut_example =
    err_set-IsCut print system 1 (started 8) 7 (104 ∷ 105 ∷ []) [] eight_bytes (handle 8) (zeros 8)
      length-print refl (omega arith) refl refl
