-- ===== src/Platform/ThreadLocal/Laws.antt =====
-- What a thread reads back from its storage, and that other threads are not touched.
use libdane.Base.{
  ℕ, ◌≡◌, ◌≢◌, refl, ap, ◌∙◌, ◌⊎◌, inl, inr, arith, Bool, true, false, Option, none, some, List, [],
  ◌∷◌, length, ◌==◌, ==_iff, ==_of_ne, ◌&&◌,
}
use libdane.Common.{libd_ok}
use libdane.Platform.ThreadLocal.{
  Handle, Slots, Threads, Reply, store, storage_get, copy_over, storage_set,
}

copy_over-length :
    (block new_data : List ℕ)
    → length block ≡ length new_data
    → copy_over (length new_data) block new_data ≡ some new_data
unfolding copy_over
copy_over-length [] [] e = refl
copy_over-length [] (c ∷ cs) e = absurd (omega arith)
copy_over-length (b ∷ bs) [] e = absurd (omega arith)
copy_over-length (b ∷ bs) (c ∷ cs) e = rw (copy_over-length bs cs (omega arith)) refl

-- A successful write of a thread: the thread reads the new bytes back, and the slots of all other
-- threads and of all other keys are what they were.
pub record Written (threads : Threads) (thread : ℕ) (handle : Handle) (new_data : List ℕ)
    (before : Slots) (r : Option Reply) : Type 0 where
  pub after : Slots
  pub returns : r ≡ some (record { result = libd_ok; out = none; slots = after })
  pub reads_back :
      storage_get threads thread (some handle) after
      ≡ record { result = libd_ok; out = some new_data; slots = after }
  pub other_threads : (t k : ℕ) → t ≢ thread → after t k ≡ before t k
  pub other_keys : (t k : ℕ) → k ≢ handle.key → after t k ≡ before t k

pub store_here :
    (slots : Slots) (thread key : ℕ) (block : List ℕ)
    → store slots thread key block thread key ≡ some block
store_here slots thread key block = rw ((==_iff thread thread).1 refl, (==_iff key key).1 refl) refl

pub store_thread :
    (slots : Slots) (thread key t k : ℕ) (block : List ℕ)
    → t ≢ thread
    → store slots thread key block t k ≡ slots t k
store_thread slots thread key t k block ne = rw (==_of_ne t thread ne) refl

store_key :
    (slots : Slots) (thread key t k : ℕ) (block : List ℕ)
    → k ≢ key
    → store slots thread key block t k ≡ slots t k
store_key slots thread key t k block ne = rw (==_of_ne k key ne, and_false (t == thread)) refl
  where
    and_false : (b : Bool) → (b && false) ≡ false
    and_false true = refl
    and_false false = refl

pub storage_get_here :
    (threads : Threads) (thread : ℕ) (handle : Handle) (slots : Slots) (block : List ℕ)
    → slots thread handle.key ≡ some block
    → storage_get threads thread (some handle) slots
      ≡ record { result = libd_ok; out = some block; slots = slots }
unfolding storage_get
storage_get_here threads thread handle slots block e = rw (storage_get, e) refl

pub storage_get_first :
    (threads : Threads) (thread : ℕ) (handle : Handle) (slots : Slots) (block : List ℕ)
    → slots thread handle.key ≡ none
    → threads.malloc handle.data_size ≡ some block
    → threads.setspecific ≡ true
    → storage_get threads thread (some handle) slots
      ≡ record { result = libd_ok; out = some block; slots = store slots thread handle.key block }
unfolding storage_get
storage_get_first threads thread handle slots block e given set =
    rw (storage_get, e, given, set) refl

pub storage_set_copied :
    (threads : Threads) (thread : ℕ) (handle : Handle) (block new_data : List ℕ) (slots mid : Slots)
    → storage_get threads thread (some handle) slots
      ≡ record { result = libd_ok; out = some block; slots = mid }
    → handle.data_size ≡ length new_data
    → length block ≡ length new_data
    → storage_set threads thread (some handle) none (some new_data) slots
      ≡ some (record { result = libd_ok; out = none; slots = store mid thread handle.key new_data })
unfolding storage_set
storage_set_copied threads thread handle block new_data slots mid got size same =
    rw (storage_set, got, size, copy_over-length block new_data same)
      (ap (λ (r : Reply). stored r.slots) got)
  where
    stored : Slots → Option Reply
    stored s =
        some (record { result = libd_ok; out = none; slots = store s thread handle.key new_data })

-- A `memcpy` write of as many bytes as the handle says, on a thread that has a block of that size, or
-- that gets its first one: it succeeds, the thread reads the bytes back, and no slot of another
-- thread or another key changes.
pub storage_set-Written :
    (threads : Threads) (thread : ℕ) (handle : Handle) (block new_data : List ℕ) (slots : Slots)
    → handle.data_size ≡ length new_data
    → length block ≡ length new_data
    → (slots thread handle.key ≡ some block)
      ⊎ ((slots thread handle.key ≡ none)
          × (threads.malloc handle.data_size ≡ some block)
          × (threads.setspecific ≡ true))
    → Written threads thread handle new_data slots
        (storage_set threads thread (some handle) none (some new_data) slots)
storage_set-Written threads thread handle block new_data slots size same (inl e) = record {
  after = store slots thread handle.key new_data;
  returns =
      storage_set_copied threads thread handle block new_data slots slots
        (storage_get_here threads thread handle slots block e) size same;
  reads_back =
      storage_get_here threads thread handle _ new_data
        (store_here slots thread handle.key new_data);
  other_threads = λ t k ne. store_thread slots thread handle.key t k new_data ne;
  other_keys = λ t k ne. store_key slots thread handle.key t k new_data ne;
}
storage_set-Written threads thread handle block new_data slots size same (inr (e, given, set)) =
    let mid : Slots = store slots thread handle.key block in
    record {
      after = store mid thread handle.key new_data;
      returns =
          storage_set_copied threads thread handle block new_data slots mid
            (storage_get_first threads thread handle slots block e given set) size same;
      reads_back =
          storage_get_here threads thread handle _ new_data
            (store_here mid thread handle.key new_data);
      other_threads = λ t k ne.
          store_thread mid thread handle.key t k new_data ne
          ∙ store_thread slots thread handle.key t k block ne;
      other_keys = λ t k ne.
          store_key mid thread handle.key t k new_data ne
          ∙ store_key slots thread handle.key t k block ne;
    }
