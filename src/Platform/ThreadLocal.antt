-- ===== src/Platform/ThreadLocal.antt =====
-- src/platform/posix/thread_local_storage.c: storage handles, and the static one.
--
-- A block of storage is the list of its bytes. `Slots` is what `pthread_getspecific` gives for a
-- thread and a key. The answers of `malloc` and of the pthread calls are a parameter.
pub mod Laws
pub mod Replies
pub mod Interleaved
pub mod Cleanup
mod Tests
use libdane.Base.{
  ℕ, zero, suc, Bool, true, false, not, Option, none, some, List, [], ◌∷◌, ◌&&◌, ◌==◌,
  if◌then◌else◌,
}
use libdane.Common.{
  LibdResult, libd_ok, libd_err, libd_no_memory, libd_invalid_parameter, libd_not_initialized,
  libd_thread_init_failed,
}

pub record Handle : Type 0 where
  pub key : ℕ
  pub data_size : ℕ

-- A pointer to a handle: `NULL`, a handle, or one whose memory went to `free`.
pub data Pointer : Type 0 where
  null : Pointer
  live : Handle → Pointer
  freed : Pointer

abbrev pub Slots : Type 0
Slots = ℕ → ℕ → Option (List ℕ)

-- `key_create` is `none` if `pthread_key_create` fails, and the new key otherwise.
pub record Threads : Type 0 where
  pub malloc : ℕ → Option (List ℕ)
  pub key_create : Option ℕ
  pub setspecific : Bool

-- `out` is what was stored through the out parameter: the block of the calling thread.
pub record Reply : Type 0 where
  pub result : LibdResult
  pub out : Option (List ℕ)
  pub slots : Slots

abbrev pub store : Slots → ℕ → ℕ → List ℕ → Slots
store slots thread key block t k = if t == thread && k == key then some block else slots t k

-- `sizeof(struct thread_local_storage_handle)`.
abbrev pub sizeof_handle : ℕ
sizeof_handle = 16

unfoldable pub storage_create : Threads → ℕ → LibdResult × Option Handle
storage_create threads size = elim (threads.malloc sizeof_handle) [
  | none ↦ (libd_no_memory, none)
  | some block ↦ elim threads.key_create [
    | none ↦ (libd_no_memory, none)
    | some key ↦ (libd_ok, some (record { key = key; data_size = size }))
  ]
]

-- The key that `pthread_key_delete` gets, and the pointer after the call.
pub record Destroyed : Type 0 where
  pub result : LibdResult
  pub deleted : Option ℕ
  pub handle : Pointer

-- `none` is an access to a handle after it was freed.
unfoldable pub storage_destroy : Pointer → Option Destroyed
storage_destroy null =
    some (record { result = libd_invalid_parameter; deleted = none; handle = null })
storage_destroy (live handle) =
    some (record { result = libd_ok; deleted = some handle.key; handle = freed })
storage_destroy freed = none

-- The handle is not a freed one. The block of the thread, made on the first use.
-- `return 1` is `libd_err`.
unfoldable pub storage_get : Threads → ℕ → Option Handle → Slots → Reply
storage_get threads thread none slots = record {
  result = libd_invalid_parameter;
  out = none;
  slots = slots;
}
storage_get threads thread (some handle) slots = elim (slots thread handle.key) [
  | some block ↦ record { result = libd_ok; out = some block; slots = slots }
  | none ↦ elim (threads.malloc handle.data_size) [
    | none ↦ record { result = libd_no_memory; out = none; slots = slots }
    | some block ↦
        if threads.setspecific
        then record {
          result = libd_ok;
          out = some block;
          slots = store slots thread handle.key block;
        }
        else record { result = libd_err; out = none; slots = slots }
  ]
]

-- `memcpy` of `size` bytes to the start of a block; `none` is an access behind one of the two.
unfoldable pub copy_over : ℕ → List ℕ → List ℕ → Option (List ℕ)
copy_over zero block new_data = some block
copy_over (suc n) [] new_data = none
copy_over (suc n) (b ∷ block) [] = none
copy_over (suc n) (b ∷ block) (c ∷ new_data) = elim (copy_over n block new_data) [
  | none ↦ none
  | some rest ↦ some (c ∷ rest)
]

-- `setter` is `none` for `NULL`, and gives the block after the call otherwise.
unfoldable pub storage_set :
    Threads
    → ℕ
    → Option Handle
    → Option (List ℕ → List ℕ → List ℕ)
    → Option (List ℕ)
    → Slots
    → Option Reply
storage_set threads thread none setter new_data slots =
    some (record { result = libd_invalid_parameter; out = none; slots = slots })
storage_set threads thread (some handle) setter none slots =
    some (record { result = libd_invalid_parameter; out = none; slots = slots })
storage_set threads thread (some handle) setter (some new_data) slots =
    let r = storage_get threads thread (some handle) slots in
    elim r.out [
      | none ↦ some (record { result = r.result; out = none; slots = r.slots })
      | some block ↦
          let updated : Option (List ℕ) = elim setter [
            | some f ↦ some (f block new_data)
            | none ↦ copy_over handle.data_size block new_data
          ] in
          elim updated [
            | none ↦ none
            | some block' ↦ some (record {
              result = libd_ok;
              out = none;
              slots = store r.slots thread handle.key block';
            })
          ]
    ]

-- The static variables; `once` says that `pthread_once` has run.
pub record Static : Type 0 where
  pub g_static_handle : Pointer
  pub once : Bool
  pub g_static_size : ℕ

-- `exited` is the `exit` of the routine that `pthread_once` runs.
pub data Init : Type 0 where
  returned : LibdResult → Static → Init
  exited : LibdResult → Init

abbrev pub after_once : Static → Init
after_once s = elim s.g_static_handle [
  | null ↦ returned libd_thread_init_failed s
  | live handle ↦ returned libd_ok s
  | freed ↦ returned libd_ok s
]

-- The routine for `pthread_once`; it stores the handle through the address of the static one.
unfoldable pub init_static_thread_local_storage : Threads → Static → Init
init_static_thread_local_storage threads s =
    let r = storage_create threads s.g_static_size in
    elim r.1 [
      | none ↦ exited r.0
      | some handle ↦ returned libd_ok (record s { g_static_handle = live handle; once = true })
    ]

unfoldable pub static_init : Threads → ℕ → Static → Init
static_init threads size s = elim s.g_static_handle [
  | live handle ↦ returned libd_ok s
  | freed ↦ returned libd_ok s
  | null ↦
      let s' : Static = record s { g_static_size = size } in
      if s.once then after_once s' else elim (init_static_thread_local_storage threads s') [
        | exited code ↦ exited code
        | returned result s'' ↦ after_once s''
      ]
]

-- `none` is an access to the static handle after it was freed, here and below.
unfoldable pub static_get : Threads → ℕ → Static → Slots → Option Reply
static_get threads thread s slots = elim s.g_static_handle [
  | null ↦ some (record { result = libd_not_initialized; out = none; slots = slots })
  | live handle ↦ some (storage_get threads thread (some handle) slots)
  | freed ↦ none
]

-- `storage_set` compares the new bytes with `NULL` before it reads the handle.
unfoldable pub static_set :
    Threads
    → ℕ
    → Static
    → Option (List ℕ → List ℕ → List ℕ)
    → Option (List ℕ)
    → Slots
    → Option Reply
static_set threads thread s setter new_data slots = elim s.g_static_handle [
  | null ↦ some (record { result = libd_not_initialized; out = none; slots = slots })
  | live handle ↦ storage_set threads thread (some handle) setter new_data slots
  | freed ↦ elim new_data [
    | none ↦ some (record { result = libd_invalid_parameter; out = none; slots = slots })
    | some block ↦ none
  ]
]

-- `deleted` is the key that is deleted. The static pointer is not set to `NULL`.
pub record CleanedUp : Type 0 where
  pub result : LibdResult
  pub deleted : Option ℕ
  pub static : Static

unfoldable pub static_cleanup : Static → Option CleanedUp
static_cleanup s = elim s.g_static_handle [
  | null ↦ some (record { result = libd_not_initialized; deleted = none; static = s })
  | live handle ↦ cleaned_up (storage_destroy (live handle))
  | freed ↦ cleaned_up (storage_destroy freed)
]
  where
    cleaned_up : Option Destroyed → Option CleanedUp
    cleaned_up none = none
    cleaned_up (some d) = some (record {
      result = d.result;
      deleted = d.deleted;
      static = record s { g_static_handle = d.handle };
    })
