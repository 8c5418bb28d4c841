-- ===== src/Errors/Laws.antt =====
-- A thread reads back the error that it set, if the storage was started with the size of a context.
-- With another size `err_set` still copies as many bytes as the storage has.
use libdane.Base.{
  ℕ, ◌≡◌, ◌≢◌, refl, sym, ap, ◌∙◌, ◌⊎◌, true, ◌<◌, ◌^◌, Option, none, some, List, length,
}
use libdane.Common.{libd_ok}
use libdane.Platform.ThreadLocal.{
  Handle, live, Slots, Threads, Reply, Static, storage_get, storage_set, static_get, static_set,
}
use libdane.Platform.ThreadLocal.Laws.{Written, storage_set-Written}
use libdane.Errors.{
  ErrorContext, sizeof_error_context, to_bytes, from_bytes, platform_thread_local_static_get,
  platform_thread_local_static_set, err_get, new_error, err_set,
}
use libdane.Errors.Bytes.{length-to_bytes, from_bytes-to_bytes}

pub err_get-storage_get :
    (threads : Threads) (thread : ℕ) (s : Static) (slots : Slots) (handle : Handle)
    → s.g_static_handle ≡ live handle
    → err_get threads thread s slots ≡ some (storage_get threads thread (some handle) slots)
unfolding err_get platform_thread_local_static_get static_get
err_get-storage_get threads thread s slots handle started = rw started refl

-- What a successful `err_set` leaves: the thread reads the context back, and no slot of another thread changes.
pub record HasError (threads : Threads) (thread : ℕ) (s : Static) (c : ErrorContext)
    (before : Slots) (r : Option Reply) : Type 0 where
  pub after : Slots
  pub block : List ℕ
  pub returns : r ≡ some (record { result = libd_ok; out = none; slots = after })
  pub reads_back :
      err_get threads thread s after
      ≡ some (record { result = libd_ok; out = some block; slots = after })
  pub holds : from_bytes block ≡ some c
  pub other_threads : (t k : ℕ) → t ≢ thread → after t k ≡ before t k

module _ (vsnprintf : List ℕ → List ℕ → List ℕ → List ℕ) where
  pub err_set-storage_set :
      (threads : Threads) (thread : ℕ) (s : Static) (code : ℕ) (fmt args : List ℕ) (slots : Slots)
      (handle : Handle)
      → s.g_static_handle ≡ live handle
      → err_set vsnprintf threads thread s code fmt args slots
        ≡ storage_set threads thread
            (some handle)
            none
            (some (to_bytes (new_error vsnprintf code fmt args)))
            slots
  unfolding err_set platform_thread_local_static_set static_set
  err_set-storage_set threads thread s code fmt args slots handle started = rw started refl

  -- `vsnprintf` keeps the size of the buffer. If the static storage was started with the size of a
  -- context, and the thread has a block of that size or gets its first one, then `err_set` of a
  -- 32-bit code succeeds, `err_get` of that thread gives that code and the formatted message, and
  -- no slot of another thread changes.
  pub err_set-err_get :
      (threads : Threads) (thread : ℕ) (s : Static) (code : ℕ) (fmt args : List ℕ) (slots : Slots)
      (handle : Handle) (block : List ℕ)
      → ((buffer fmt' args' : List ℕ) → length (vsnprintf buffer fmt' args') ≡ length buffer)
      → code < 2 ^ 32
      → s.g_static_handle ≡ live handle
      → handle.data_size ≡ sizeof_error_context
      → length block ≡ sizeof_error_context
      → (slots thread handle.key ≡ some block)
        ⊎ ((slots thread handle.key ≡ none)
            × (threads.malloc handle.data_size ≡ some block)
            × (threads.setspecific ≡ true))
      → HasError threads thread s
          (new_error vsnprintf code fmt args)
          slots
          (err_set vsnprintf threads thread s code fmt args slots)
  err_set-err_get threads thread s code fmt args slots handle block keeps small started size room
        held =
      record {
        after = w.after;
        block = to_bytes c;
        returns =
            err_set-storage_set threads thread s code fmt args slots handle started ∙ w.returns;
        reads_back =
            err_get-storage_get threads thread s w.after handle started ∙ ap some w.reads_back;
        holds = from_bytes-to_bytes c small (keeps _ fmt args);
        other_threads = w.other_threads;
      }
    where
      c : ErrorContext
      c = new_error vsnprintf code fmt args

      w :
          Written threads thread handle
            (to_bytes c)
            slots
            (storage_set threads thread (some handle) none (some (to_bytes c)) slots)
      w =
          storage_set-Written threads thread handle block (to_bytes c) slots
            (size ∙ sym (length-to_bytes c (keeps _ fmt args)))
            (room ∙ sym (length-to_bytes c (keeps _ fmt args))) held
