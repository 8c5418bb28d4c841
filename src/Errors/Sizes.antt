-- ===== src/Errors/Sizes.antt =====
-- Errors over a static storage that was started with another size than that of a context.
use libdane.Base.{
  ℕ, zero, suc, ◌≡◌, refl, ap, ◌∙◌, arith, ◌<◌, ◌≤◌, Option, none, some, List, [], ◌∷◌, length,
  take,
}
use libdane.Common.{libd_ok}
use libdane.Platform.ThreadLocal.{
  Handle, live, Slots, Threads, Reply, Static, store, copy_over, storage_set,
}
use libdane.Platform.ThreadLocal.Laws.{store_here, storage_get_here}
use libdane.Errors.{sizeof_error_context, to_bytes, from_bytes, err_get, new_error, err_set}
use libdane.Errors.Bytes.{length-to_bytes, from_bytes_short}
use libdane.Errors.Laws.{err_get-storage_get, err_set-storage_set}

copy_over_beyond :
    (n : ℕ) (block new_data : List ℕ)
    → length new_data < n
    → n ≤ length block
    → copy_over n block new_data ≡ none
unfolding copy_over
copy_over_beyond zero block new_data more room = absurd (omega arith)
copy_over_beyond (suc n) [] new_data more room = refl
copy_over_beyond (suc n) (b ∷ block) [] more room = refl
copy_over_beyond (suc n) (b ∷ block) (c ∷ new_data) more room =
    rw (copy_over_beyond n block new_data (omega arith) (omega arith)) refl

copy_over-take :
    (n : ℕ) (block new_data : List ℕ)
    → length block ≡ n
    → n ≤ length new_data
    → copy_over n block new_data ≡ some (take n new_data)
unfolding copy_over
copy_over-take zero [] new_data size enough = refl
copy_over-take zero (b ∷ block) new_data size enough = absurd (omega arith)
copy_over-take (suc n) [] new_data size enough = absurd (omega arith)
copy_over-take (suc n) (b ∷ block) [] size enough = absurd (omega arith)
copy_over-take (suc n) (b ∷ block) (c ∷ new_data) size enough =
    rw (copy_over-take n block new_data (omega arith) (omega arith)) refl

length-take : (n : ℕ) (xs : List ℕ) → n ≤ length xs → length (take n xs) ≡ n
length-take zero xs h = refl
length-take (suc n) [] h = absurd (omega arith)
length-take (suc n) (x ∷ xs) h = omega (arith, length-take n xs (omega arith))

storage_set_beyond :
    (threads : Threads) (thread : ℕ) (handle : Handle) (block new_data : List ℕ) (slots : Slots)
    → slots thread handle.key ≡ some block
    → copy_over handle.data_size block new_data ≡ none
    → storage_set threads thread (some handle) none (some new_data) slots ≡ none
unfolding storage_set
storage_set_beyond threads thread handle block new_data slots held out =
    rw (storage_set, storage_get_here threads thread handle slots block held, out) refl

storage_set_inside :
    (threads : Threads) (thread : ℕ) (handle : Handle) (block new_data block' : List ℕ)
    (slots : Slots)
    → slots thread handle.key ≡ some block
    → copy_over handle.data_size block new_data ≡ some block'
    → storage_set threads thread (some handle) none (some new_data) slots
      ≡ some (record { result = libd_ok; out = none; slots = store slots thread handle.key block' })
unfolding storage_set
storage_set_inside threads thread handle block new_data block' slots held out =
    rw (storage_set, storage_get_here threads thread handle slots block held, out)
      (ap (λ (r : Reply). stored r.slots) (storage_get_here threads thread handle slots block held))
  where
    stored : Slots → Option Reply
    stored s =
        some (record { result = libd_ok; out = none; slots = store s thread handle.key block' })

-- `err_set` reports success, and the block that `err_get` then gives is smaller than a context.
pub record IsCut (threads : Threads) (thread : ℕ) (s : Static) (r : Option Reply) : Type 0 where
  pub after : Slots
  pub block : List ℕ
  pub returns : r ≡ some (record { result = libd_ok; out = none; slots = after })
  pub reads_back :
      err_get threads thread s after
      ≡ some (record { result = libd_ok; out = some block; slots = after })
  pub too_small : from_bytes block ≡ none

module _ (vsnprintf : List ℕ → List ℕ → List ℕ → List ℕ) where
  -- `vsnprintf` keeps the size of the buffer. On a static storage that was started with more bytes
  -- than a context has, and a thread with a block of that size, `err_set` reads behind the context.
  pub err_set_oversized :
      (threads : Threads) (thread : ℕ) (s : Static) (code : ℕ) (fmt args : List ℕ) (slots : Slots)
      (handle : Handle) (block : List ℕ)
      → ((buffer fmt' args' : List ℕ) → length (vsnprintf buffer fmt' args') ≡ length buffer)
      → s.g_static_handle ≡ live handle
      → sizeof_error_context < handle.data_size
      → length block ≡ handle.data_size
      → slots thread handle.key ≡ some block
      → err_set vsnprintf threads thread s code fmt args slots ≡ none
  err_set_oversized threads thread s code fmt args slots handle block keeps started more room held =
      err_set-storage_set vsnprintf threads thread s code fmt args slots handle started
      ∙ storage_set_beyond threads thread handle block _ slots held (
          copy_over_beyond handle.data_size block _
            (omega (arith, length-to_bytes (new_error vsnprintf code fmt args) (keeps _ fmt args)))
            (omega arith))

  -- `vsnprintf` keeps the size of the buffer. On a static storage that was started with fewer bytes
  -- than a context has, and a thread with a block of that size, `err_set` returns `libd_ok`, and
  -- `err_get` then gives a block that is smaller than a context.
  pub err_set-IsCut :
      (threads : Threads) (thread : ℕ) (s : Static) (code : ℕ) (fmt args : List ℕ) (slots : Slots)
      (handle : Handle) (block : List ℕ)
      → ((buffer fmt' args' : List ℕ) → length (vsnprintf buffer fmt' args') ≡ length buffer)
      → s.g_static_handle ≡ live handle
      → handle.data_size < sizeof_error_context
      → length block ≡ handle.data_size
      → slots thread handle.key ≡ some block
      → IsCut threads thread s (err_set vsnprintf threads thread s code fmt args slots)
  err_set-IsCut threads thread s code fmt args slots handle block keeps started less room held =
      record {
        after = store slots thread handle.key cut;
        block = cut;
        returns =
            err_set-storage_set vsnprintf threads thread s code fmt args slots handle started
            ∙ storage_set_inside threads thread handle block bytes cut slots held
                (copy_over-take handle.data_size block bytes room (omega (arith, size)));
        reads_back =
            err_get-storage_get threads thread s _ handle started
            ∙ ap some (
                storage_get_here threads thread handle _ cut
                  (store_here slots thread handle.key cut));
        too_small =
            from_bytes_short cut
              (omega (arith, length-take handle.data_size bytes (omega (arith, size))));
      }
    where
      bytes : List ℕ
      bytes = to_bytes (new_error vsnprintf code fmt args)

      cut : List ℕ
      cut = take handle.data_size bytes

      size : length bytes ≡ sizeof_error_context
      size = length-to_bytes (new_error vsnprintf code fmt args) (keeps _ fmt args)
