-- ===== src/Platform/ThreadLocal/Interleaved.antt =====
-- Threads that use one handle, in any order: a step is a call of a thread, or its end. The answers of `malloc` and
-- of the pthread calls may differ from step to step.
use mathlib.Core.Path.{subst}
use libdane.Base.{
  ℕ, ◌≡◌, ◌≢◌, refl, ◌∙◌, inl, inr, Option, none, some, List, length, ◌==◌, if◌then◌else◌, ==_iff,
  ==_of_ne, Bool-cases,
}
use libdane.Common.{LibdResult, libd_ok}
use libdane.Platform.ThreadLocal.{Handle, Slots, Threads, Reply, store, storage_get, storage_set}
use libdane.Platform.ThreadLocal.Laws.{storage_get_here}
use libdane.Platform.ThreadLocal.Replies.{
  IsHeap, IsSized, Keeps, store_cases, store-IsSized, given, refused, storage_get-Got, WasSet,
  written, rejected, storage_set-WasSet,
}

-- `last` is what each thread wrote last.
pub record Run : Type 0 where
  pub slots : Slots
  pub last : ℕ → Option (List ℕ)

abbrev pub noted : ℕ → List ℕ → (ℕ → Option (List ℕ)) → ℕ → Option (List ℕ)
noted thread new_data last t = if t == thread then some new_data else last t

abbrev pub noted_if_ok : LibdResult → ℕ → List ℕ → (ℕ → Option (List ℕ)) → ℕ → Option (List ℕ)
noted_if_ok result thread new_data last = elim result [
  | libd_ok ↦ noted thread new_data last
  | _ ↦ last
]

-- At the end of a thread its slots are empty, for every key; the destructors get the blocks.
abbrev pub without : ℕ → Slots → Slots
without thread slots t k = if t == thread then none else slots t k

abbrev pub forgotten : ℕ → (ℕ → Option (List ℕ)) → ℕ → Option (List ℕ)
forgotten thread last t = if t == thread then none else last t

pub data Step (handle : Handle) : Run → Run → Type 0 where
  get :
      (threads : Threads) (thread : ℕ) (s : Run)
      → IsHeap threads
      → Step handle s
          (record s { slots = (storage_get threads thread (some handle) s.slots).slots })
  set :
      (threads : Threads) (thread : ℕ) (new_data : List ℕ) (s : Run) (r : Reply)
      → IsHeap threads
      → length new_data ≡ handle.data_size
      → storage_set threads thread (some handle) none (some new_data) s.slots ≡ some r
      → Step handle s
          (record { slots = r.slots; last = noted_if_ok r.result thread new_data s.last })
  -- Through the pointer that a call of `get` stored.
  write_through :
      (thread : ℕ) (block new_data : List ℕ) (s : Run)
      → s.slots thread handle.key ≡ some block
      → length new_data ≡ length block
      → Step handle s (record {
        slots = store s.slots thread handle.key new_data;
        last = noted thread new_data s.last;
      })
  thread_end :
      (thread : ℕ) (s : Run)
      → Step handle s (record { slots = without thread s.slots; last = forgotten thread s.last })

pub data Reach (handle : Handle) (s : Run) : Run → Type 0 where
  here : Reach handle s s
  next : {t u : Run} → Reach handle s t → Step handle t u → Reach handle s u

record IsSound (handle : Handle) (s : Run) : Type 0 where
  sized : IsSized handle s.slots
  holds :
      (t : ℕ) (new_data : List ℕ) → s.last t ≡ some new_data → s.slots t handle.key ≡ some new_data

store-holds :
    (handle : Handle) (s : Run) (mid : Slots) (thread : ℕ) (new_data : List ℕ)
    → IsSound handle s
    → Keeps handle s.slots mid
    → (t : ℕ) (d : List ℕ) → noted thread new_data s.last t ≡ some d
    → store mid thread handle.key new_data t handle.key ≡ some d
store-holds handle s mid thread new_data i keeps t d e =
    elim (store_cases mid thread handle.key t new_data) [
      | inl (same, stored) ↦ stored ∙ (rw ((==_iff t thread).1 same) at e)
      | inr (ne, there) ↦ there ∙ keeps t d (i.holds t d (rw (==_of_ne t thread ne) at e))
    ]

noted_if_ok_other :
    (result : LibdResult) (thread : ℕ) (new_data : List ℕ) (last : ℕ → Option (List ℕ))
    → result ≢ libd_ok
    → noted_if_ok result thread new_data last ≡ last
noted_if_ok_other libd_ok thread new_data last failed = absurd (failed refl)
noted_if_ok_other _ thread new_data last failed = refl

set-IsSound :
    (handle : Handle) (s : Run) (thread : ℕ) (new_data : List ℕ) (r : Reply)
    → IsSound handle s
    → WasSet thread handle new_data s.slots (some r)
    → IsSound handle
        (record { slots = r.slots; last = noted_if_ok r.result thread new_data s.last })
set-IsSound handle s thread new_data r i (written mid e sized keeps) =
    let same : r
        ≡ record { result = libd_ok; out = none; slots = store mid thread handle.key new_data } =
      cc e in
    rw same record { sized = sized; holds = store-holds handle s mid thread new_data i keeps }
set-IsSound handle s thread new_data r i (rejected result failed e) =
    let same : r ≡ record { result = result; out = none; slots = s.slots } = cc e in
    rw (same, noted_if_ok_other result thread new_data s.last failed)
      record { sized = i.sized; holds = i.holds }

Step-IsSound : (handle : Handle) {s t : Run} → IsSound handle s → Step handle s t → IsSound handle t
Step-IsSound handle i (get threads thread s heap) =
    elim (storage_get-Got threads thread handle s.slots heap i.sized) [
      | given block mid got size sized keeps ↦
          rw got record { sized = sized; holds = λ t d e. keeps t d (i.holds t d e) }
      | refused result failed got ↦ rw got record { sized = i.sized; holds = i.holds }
    ]
Step-IsSound handle i (set threads thread new_data s r heap size returned) =
    set-IsSound handle s thread new_data r i (
      subst (WasSet thread handle new_data s.slots) returned
        (storage_set-WasSet threads thread handle new_data s.slots heap i.sized size))
Step-IsSound handle i (write_through thread block new_data s held size) = record {
  sized = store-IsSized handle s.slots thread new_data i.sized (size ∙ i.sized thread block held);
  holds = store-holds handle s s.slots thread new_data i (λ t b h. h);
}
Step-IsSound handle i (thread_end thread s) = record {
  sized = λ t block e. elim (Bool-cases (t == thread)) [
    | inl same ↦ cc (rw same at e)
    | inr ne ↦ i.sized t block (rw ne at e)
  ];
  holds = λ t new_data e. elim (Bool-cases (t == thread)) [
    | inl same ↦ cc (rw same at e)
    | inr ne ↦ rw ne (i.holds t new_data (rw ne at e))
  ];
}

Reach-IsSound :
    (handle : Handle) {s t : Run} → IsSound handle s → Reach handle s t → IsSound handle t
Reach-IsSound handle i here = i
Reach-IsSound handle i (next r step) = Step-IsSound handle (Reach-IsSound handle i r) step

abbrev pub unwritten : Run
unwritten = record { slots = λ t k. none; last = λ t. none }

unwritten-IsSound : (handle : Handle) → IsSound handle unwritten
unwritten-IsSound handle = record { sized = λ t block e. cc; holds = λ t new_data e. cc }

-- Threads share a handle, in any order of gets, of writes without a setter of as many bytes as the
-- handle says, of writes of the whole block through the pointer from a get, and of ends of threads;
-- `malloc` gives the size that is asked for or fails. Then a thread that has written, and has not
-- ended since, reads back what it wrote last, whatever the other threads do and whichever calls fail
-- in between.
pub Reach-ReadsBack :
    {handle : Handle} {s : Run} (threads : Threads) (t : ℕ) (new_data : List ℕ)
    → Reach handle unwritten s
    → s.last t ≡ some new_data
    → storage_get threads t (some handle) s.slots
      ≡ record { result = libd_ok; out = some new_data; slots = s.slots }
Reach-ReadsBack {handle} {s} threads t new_data r wrote =
    storage_get_here threads t handle s.slots new_data
      ((Reach-IsSound handle (unwritten-IsSound handle) r).holds t new_data wrote)

-- In every state that threads sharing a handle reach, a write without a setter, of as many bytes as
-- the handle says, stays inside both blocks.
pub Reach-CanSet :
    {handle : Handle} {s : Run} (threads : Threads) (t : ℕ) (new_data : List ℕ)
    → IsHeap threads
    → length new_data ≡ handle.data_size
    → Reach handle unwritten s
    → storage_set threads t (some handle) none (some new_data) s.slots ≢ none
Reach-CanSet {handle} {s} threads t new_data heap size r stuck =
    elim (storage_set-WasSet threads t handle new_data s.slots heap i.sized size) [
      | written mid e sized keeps ↦ cc
      | rejected result failed e ↦ cc
    ]
  where
    i : IsSound handle s
    i = Reach-IsSound handle (unwritten-IsSound handle) r
