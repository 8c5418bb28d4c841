-- ===== src/Platform/ThreadLocal/Replies.antt =====
-- All that a call for the storage of a thread can reply.
use libdane.Base.{
  ℕ, ◌≡◌, ◌≢◌, refl, sym, ap, ◌∙◌, ◌⊎◌, inl, inr, false, Option, none, some, List, length, ◌==◌,
  ==_iff, Bool-cases, Option-cases,
}
use libdane.Common.{LibdResult, libd_ok, libd_err, libd_no_memory}
use libdane.Platform.ThreadLocal.{Handle, Slots, Threads, Reply, store, storage_get, storage_set}
use libdane.Platform.ThreadLocal.Laws.{
  store_here, store_thread, storage_get_here, storage_get_first, storage_set_copied,
}

-- `malloc` gives a block of the size that is asked for, or none.
abbrev pub IsHeap : Threads → Type 0
IsHeap threads = (n : ℕ) (block : List ℕ) → threads.malloc n ≡ some block → length block ≡ n

-- The slots of a handle hold blocks of its size.
abbrev pub IsSized : Handle → Slots → Type 0
IsSized handle slots =
    (t : ℕ) (block : List ℕ) → slots t handle.key ≡ some block → length block ≡ handle.data_size

-- No slot of the handle lost its block.
abbrev pub Keeps : Handle → Slots → Slots → Type 0
Keeps handle before after =
    (t : ℕ) (block : List ℕ) → before t handle.key ≡ some block → after t handle.key ≡ some block

pub store_cases :
    (slots : Slots) (thread key t : ℕ) (block : List ℕ)
    → ((t ≡ thread) × (store slots thread key block t key ≡ some block))
      ⊎ ((t ≢ thread) × (store slots thread key block t key ≡ slots t key))
store_cases slots thread key t block = elim (Bool-cases (t == thread)) [
  | inl same ↦
      let e : t ≡ thread = (==_iff t thread).0 same in
      inl (e, rw e (store_here slots thread key block))
  | inr apart ↦
      let ne : t ≢ thread = λ e. cc ((==_iff t thread).1 e) in
      inr (ne, store_thread slots thread key t key block ne)
]

pub store-IsSized :
    (handle : Handle) (slots : Slots) (thread : ℕ) (block : List ℕ)
    → IsSized handle slots
    → length block ≡ handle.data_size
    → IsSized handle (store slots thread handle.key block)
store-IsSized handle slots thread block sized size t b e =
    elim (store_cases slots thread handle.key t block) [
      | inl (same, here) ↦ ap length (some-inj (sym e ∙ here)) ∙ size
      | inr (ne, there) ↦ sized t b (sym there ∙ e)
    ]
  where
    some-inj : {x y : List ℕ} → some x ≡ some y → x ≡ y
    some-inj q = cc

-- The block of the thread, and the slots with it, or a result other than `libd_ok` and no change.
pub data Got (thread : ℕ) (handle : Handle) (slots : Slots) (r : Reply) : Type 0 where
  given :
      (block : List ℕ) (mid : Slots)
      → r ≡ record { result = libd_ok; out = some block; slots = mid }
      → length block ≡ handle.data_size
      → IsSized handle mid
      → Keeps handle slots mid
      → Got thread handle slots r
  refused :
      (result : LibdResult)
      → result ≢ libd_ok
      → r ≡ record { result = result; out = none; slots = slots }
      → Got thread handle slots r

store-Keeps :
    (handle : Handle) (slots : Slots) (thread : ℕ) (block : List ℕ)
    → slots thread handle.key ≡ none
    → Keeps handle slots (store slots thread handle.key block)
store-Keeps handle slots thread block free t b e =
    elim (store_cases slots thread handle.key t block) [
      | inl (same, here) ↦ cc (free, e, ap (λ x. slots x handle.key) same)
      | inr (ne, there) ↦ there ∙ e
    ]

storage_get_refused :
    (threads : Threads) (thread : ℕ) (handle : Handle) (slots : Slots)
    → slots thread handle.key ≡ none
    → threads.malloc handle.data_size ≡ none
    → storage_get threads thread (some handle) slots
      ≡ record { result = libd_no_memory; out = none; slots = slots }
unfolding storage_get
storage_get_refused threads thread handle slots free failed = rw (storage_get, free, failed) refl

storage_get_unset :
    (threads : Threads) (thread : ℕ) (handle : Handle) (slots : Slots) (block : List ℕ)
    → slots thread handle.key ≡ none
    → threads.malloc handle.data_size ≡ some block
    → threads.setspecific ≡ false
    → storage_get threads thread (some handle) slots
      ≡ record { result = libd_err; out = none; slots = slots }
unfolding storage_get
storage_get_unset threads thread handle slots block free got failed =
    rw (storage_get, free, got, failed) refl

pub storage_get-Got :
    (threads : Threads) (thread : ℕ) (handle : Handle) (slots : Slots)
    → IsHeap threads
    → IsSized handle slots
    → Got thread handle slots (storage_get threads thread (some handle) slots)
storage_get-Got threads thread handle slots heap sized =
    elim (Option-cases (slots thread handle.key)) [
      | inr (block, e) ↦
          given block slots (storage_get_here threads thread handle slots block e)
            (sized thread block e) sized (λ t b h. h)
      | inl free ↦ elim (Option-cases (threads.malloc handle.data_size)) [
        | inl failed ↦
            refused libd_no_memory (λ e. cc)
              (storage_get_refused threads thread handle slots free failed)
        | inr (block, got) ↦ elim (Bool-cases threads.setspecific) [
          | inl set ↦
              given block _ (storage_get_first threads thread handle slots block free got set)
                (heap _ block got)
                (store-IsSized handle slots thread block sized (heap _ block got))
                (store-Keeps handle slots thread block free)
          | inr failed ↦
              refused libd_err (λ e. cc)
                (storage_get_unset threads thread handle slots block free got failed)
        ]
      ]
    ]

storage_set_refused :
    (threads : Threads) (thread : ℕ) (handle : Handle) (new_data : List ℕ) (slots : Slots)
    (result : LibdResult)
    → storage_get threads thread (some handle) slots
      ≡ record { result = result; out = none; slots = slots }
    → storage_set threads thread (some handle) none (some new_data) slots
      ≡ some (record { result = result; out = none; slots = slots })
unfolding storage_set
storage_set_refused threads thread handle new_data slots result e =
    rw (storage_set, e) (ap (λ (r : Reply). stored r.result r.slots) e)
  where
    stored : LibdResult → Slots → Option Reply
    stored res s = some (record { result = res; out = none; slots = s })

-- The new bytes in the block of the thread, or a result other than `libd_ok` and no change.
pub data WasSet (thread : ℕ) (handle : Handle) (new_data : List ℕ) (slots : Slots)
    (r : Option Reply) : Type 0 where
  written :
      (mid : Slots)
      → r
        ≡ some
            (record { result = libd_ok; out = none; slots = store mid thread handle.key new_data })
      → IsSized handle (store mid thread handle.key new_data)
      → Keeps handle slots mid
      → WasSet thread handle new_data slots r
  rejected :
      (result : LibdResult)
      → result ≢ libd_ok
      → r ≡ some (record { result = result; out = none; slots = slots })
      → WasSet thread handle new_data slots r

pub storage_set-WasSet :
    (threads : Threads) (thread : ℕ) (handle : Handle) (new_data : List ℕ) (slots : Slots)
    → IsHeap threads
    → IsSized handle slots
    → length new_data ≡ handle.data_size
    → WasSet thread handle new_data slots
        (storage_set threads thread (some handle) none (some new_data) slots)
storage_set-WasSet threads thread handle new_data slots heap sized size =
    elim (storage_get-Got threads thread handle slots heap sized) [
      | given block mid got block_size mid_sized keeps ↦
          written mid
            (storage_set_copied threads thread handle block new_data slots mid got (sym size)
              (block_size ∙ sym size))
            (store-IsSized handle mid thread new_data mid_sized size) keeps
      | refused result failed got ↦
          rejected result failed
            (storage_set_refused threads thread handle new_data slots result got)
    ]
