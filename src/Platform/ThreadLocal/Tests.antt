-- ===== src/Platform/ThreadLocal/Tests.antt =====
-- Two threads and a key of four bytes.
use libdane.Base.{
  zeros, length-zeros, ℕ, ◌≡◌, refl, ap, ◌∙◌, true, false, Option, none, some, List, [], ◌∷◌,
  length,
}
use libdane.Common.{libd_ok, libd_not_initialized}
use libdane.Platform.ThreadLocal.{
  store, copy_over, Handle, null, live, freed, Slots, Threads, Static, returned, storage_create,
  storage_get, storage_set, init_static_thread_local_storage, static_init, static_get,
  static_cleanup, storage_destroy,
}
use libdane.Platform.ThreadLocal.Replies.{IsHeap}
use libdane.Platform.ThreadLocal.Cleanup.{
  Process, fresh_process, Dangling, init, cleanup, Lives, begun, continued, static_cleanup-Dangling,
}
use libdane.Platform.ThreadLocal.Interleaved.{
  Run, noted, without, forgotten, unwritten, set, thread_end, Reach, here, next, Reach-ReadsBack,
}

abbrev of_size : ℕ → Option (List ℕ)
of_size n = some (zeros n)

abbrev system : Threads
system = record { malloc = of_size; key_create = some 3; setspecific = true }

abbrev handle : Handle
handle = record { key = 3; data_size = 4 }

abbrev unused : Slots
unused t k = none

abbrev fresh : Static
fresh = record { g_static_handle = null; once = false; g_static_size = 0 }

abbrev started : Static
started = record { g_static_handle = live handle; once = true; g_static_size = 4 }

abbrev ended : Static
ended = record started { g_static_handle = freed }

initialised :
    (static_init system 4 fresh ≡ returned libd_ok started)
    × (static_get system 1 fresh unused
        ≡ some (record { result = libd_not_initialized; out = none; slots = unused }))
    × (static_get system 1 started unused
        ≡ some
            (record { result = libd_ok; out = some (zeros 4); slots = store unused 1 3 (zeros 4) }))
unfolding static_init init_static_thread_local_storage storage_create static_get storage_get
initialised = (refl, refl, refl)

-- After a cleanup a second start returns `libd_ok` at once, and a second cleanup frees again.
dangling :
    (static_cleanup started ≡ some (record { result = libd_ok; deleted = some 3; static = ended }))
    × (static_init system 4 ended ≡ returned libd_ok ended)
    × (static_get system 1 ended unused ≡ none)
    × (static_cleanup ended ≡ none)
unfolding static_cleanup storage_destroy static_init static_get
dangling = (refl, refl, refl, refl)

-- Started, cleaned up, and started again.
abbrev restarted : Process
restarted = record { static = ended; deleted = 3 ∷ [] }

started_again : Lives fresh_process restarted
unfolding static_init init_static_thread_local_storage storage_create static_cleanup storage_destroy
started_again =
    continued
      (continued (continued begun (init system 4 fresh_process libd_ok started refl))
        (cleanup _ (record { result = libd_ok; deleted = some 3; static = ended }) refl))
      (init system 4 _ libd_ok ended refl)

static_cleanup-Dangling_example : Dangling restarted
static_cleanup-Dangling_example = static_cleanup-Dangling started_again (λ e. cc)

abbrev one : List ℕ
one = 1 ∷ 1 ∷ 1 ∷ 1 ∷ []

abbrev two : List ℕ
two = 2 ∷ 2 ∷ 2 ∷ 2 ∷ []

system-IsHeap : IsHeap system
system-IsHeap n block e = ap length b ∙ length-zeros n
  where
    b : block ≡ zeros n
    b = cc

-- What the first thread and the second one wrote.
abbrev written_twice : Run
written_twice = record {
  slots = store (store (store (store (λ t k. none) 1 3 (zeros 4)) 1 3 one) 2 3 (zeros 4)) 2 3 one;
  last = noted 2 one (noted 1 one (λ t. none));
}

abbrev shared : Run
shared = record {
  slots = store (store (without 2 written_twice.slots) 2 3 (zeros 4)) 2 3 two;
  last = noted 2 two (forgotten 2 written_twice.last);
}

-- Thread 1 writes, thread 2 writes and ends, and it is started and writes again.
two_threads : Reach handle unwritten shared
unfolding storage_set storage_get copy_over
two_threads =
    next
      (next
        (next (next here (set system 1 one unwritten _ system-IsHeap refl refl))
          (set system 2 one _ _ system-IsHeap refl refl))
        (thread_end 2 _))
      (set system 2 two _ _ system-IsHeap refl refl)

Reach-ReadsBack_example :
    storage_get system 1 (some handle) shared.slots
    ≡ record { result = libd_ok; out = some one; slots = shared.slots }
Reach-ReadsBack_example = Reach-ReadsBack system 1 one two_threads refl
