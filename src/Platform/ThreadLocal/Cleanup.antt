-- ===== src/Platform/ThreadLocal/Cleanup.antt =====
-- A process that starts and cleans up the static storage, in any order. The answers of `malloc` and of
-- the pthread calls may differ from step to step.
use libdane.Base.{
  ℕ, ◌≡◌, ◌≢◌, refl, ap, false, Option, none, some, List, [], ◌∷◌, inl, inr, ◌⊎◌, Bool-cases,
  Option-cases,
}
use libdane.Common.{LibdResult, libd_ok, libd_not_initialized}
use libdane.Platform.ThreadLocal.{
  Handle, Pointer, null, live, freed, Slots, Threads, Static, CleanedUp, returned, static_init,
  static_get, static_set, static_cleanup, storage_destroy, storage_create,
  init_static_thread_local_storage, sizeof_handle,
}

-- `deleted` has the keys that were given to `pthread_key_delete`.
pub record Process : Type 0 where
  pub static : Static
  pub deleted : List ℕ

abbrev pub noted : Option ℕ → List ℕ → List ℕ
noted none keys = keys
noted (some key) keys = key ∷ keys

pub data StaticStep : Process → Process → Type 0 where
  init :
      (threads : Threads) (size : ℕ) (p : Process) (result : LibdResult) (s : Static)
      → static_init threads size p.static ≡ returned result s
      → StaticStep p (record p { static = s })
  cleanup :
      (p : Process) (c : CleanedUp)
      → static_cleanup p.static ≡ some c
      → StaticStep p (record { static = c.static; deleted = noted c.deleted p.deleted })

pub data Lives (p : Process) : Process → Type 0 where
  begun : Lives p p
  continued : {q r : Process} → Lives p q → StaticStep q r → Lives p r

abbrev pub fresh_process : Process
fresh_process = record {
  static = record { g_static_handle = null; once = false; g_static_size = 0 };
  deleted = [];
}

-- One key was deleted. Every further start reports success and changes nothing, and what reads the
-- handle behind it reads freed memory.
pub record Dangling (p : Process) : Type 0 where
  pub key : ℕ
  pub single : p.deleted ≡ key ∷ []
  pub restarts :
      (threads : Threads) (size : ℕ) → static_init threads size p.static ≡ returned libd_ok p.static
  pub gets :
      (threads : Threads) (thread : ℕ) (slots : Slots)
      → static_get threads thread p.static slots ≡ none
  pub sets :
      (threads : Threads) (thread : ℕ) (setter : Option (List ℕ → List ℕ → List ℕ))
      (new_data : List ℕ) (slots : Slots)
      → static_set threads thread p.static setter (some new_data) slots ≡ none
  pub cleanups : static_cleanup p.static ≡ none

Pointer-cases : (x : Pointer) → (x ≡ null) ⊎ ((handle : Handle) × (x ≡ live handle)) ⊎ (x ≡ freed)
Pointer-cases null = inl refl
Pointer-cases (live handle) = inr (inl (handle, refl))
Pointer-cases freed = inr (inr refl)

-- The pointer is freed if and only if a key was deleted, and that was a single one.
abbrev Tracks : Process → Type 0
Tracks p =
    ((p.deleted ≡ []) × (p.static.g_static_handle ≢ freed))
    ⊎ ((key : ℕ) × (p.deleted ≡ key ∷ []) × (p.static.g_static_handle ≡ freed))

static_init_again :
    (threads : Threads) (size : ℕ) (s : Static)
    → s.g_static_handle ≢ null
    → static_init threads size s ≡ returned libd_ok s
unfolding static_init
static_init_again threads size s started = elim (Pointer-cases s.g_static_handle) [
  | inl e ↦ absurd (started e)
  | inr (inl (handle, e)) ↦ simp (static_init, e)
  | inr (inr e) ↦ simp (static_init, e)
]

-- The first start leaves `NULL` or a handle.
init_fresh :
    (threads : Threads) (size : ℕ) (s : Static) (result : LibdResult) (s' : Static)
    → s.g_static_handle ≡ null
    → static_init threads size s ≡ returned result s'
    → s'.g_static_handle ≢ freed
unfolding static_init init_static_thread_local_storage storage_create
init_fresh threads size s result s' e h q = elim (Bool-cases s.once) [
  | inl ran ↦ cc (rw (e, ran) at h)
  | inr first ↦ elim (Option-cases (threads.malloc sizeof_handle)) [
    | inl failed ↦ cc (rw (e, first, failed) at h)
    | inr (block, got) ↦ elim (Option-cases threads.key_create) [
      | inl failed ↦ cc (rw (e, first, got, failed) at h)
      | inr (key, made) ↦ cc (rw (e, first, got, made) at h)
    ]
  ]
]

init-Tracks :
    (threads : Threads) (size : ℕ) (p : Process) (result : LibdResult) (s : Static)
    → Tracks p
    → static_init threads size p.static ≡ returned result s
    → Tracks (record p { static = s })
init-Tracks threads size p result s (inr (key, single, e)) h =
    let same : s ≡ p.static = cc (static_init_again threads size p.static (λ q. cc (q, e)), h) in
    inr (key, single, rw same e)
init-Tracks threads size p result s (inl (none_deleted, kept)) h = inl (
  none_deleted,
  elim (Pointer-cases p.static.g_static_handle) [
    | inl e ↦ init_fresh threads size p.static result s e h
    | inr (inl (handle, e)) ↦
        let same : s ≡ p.static =
          cc (static_init_again threads size p.static (λ q. cc (q, e)), h) in
        rw same kept
    | inr (inr e) ↦ absurd (kept e)
  ],
)

cleanup_live :
    (s : Static) (handle : Handle)
    → s.g_static_handle ≡ live handle
    → static_cleanup s
      ≡ some (record {
        result = libd_ok;
        deleted = some handle.key;
        static = record s { g_static_handle = freed };
      })
unfolding static_cleanup storage_destroy
cleanup_live s handle e = rw e refl

cleanup_null :
    (s : Static)
    → s.g_static_handle ≡ null
    → static_cleanup s ≡ some (record { result = libd_not_initialized; deleted = none; static = s })
unfolding static_cleanup
cleanup_null s e = rw e refl

cleanup_freed : (s : Static) → s.g_static_handle ≡ freed → static_cleanup s ≡ none
unfolding static_cleanup storage_destroy
cleanup_freed s e = rw e refl

abbrev process_after : Process → CleanedUp → Process
process_after p c = record { static = c.static; deleted = noted c.deleted p.deleted }

cleanup-Tracks :
    (p : Process) (c : CleanedUp)
    → Tracks p
    → static_cleanup p.static ≡ some c
    → Tracks (process_after p c)
cleanup-Tracks p c (inr (key, single, e)) h = cc (cleanup_freed p.static e, h)
cleanup-Tracks p c (inl (none_deleted, kept)) h = elim (Pointer-cases p.static.g_static_handle) [
  | inl e ↦
      let same : c ≡ record { result = libd_not_initialized; deleted = none; static = p.static } =
        cc (cleanup_null p.static e, h) in
      rw same (inl (none_deleted, kept))
  | inr (inl (handle, e)) ↦
      let same : c ≡ record {
        result = libd_ok;
        deleted = some handle.key;
        static = record p.static { g_static_handle = freed };
      } =
        cc (cleanup_live p.static handle e, h) in
      rw same (inr (handle.key, ap (λ keys. handle.key ∷ keys) none_deleted, refl))
  | inr (inr e) ↦ absurd (kept e)
]

Lives-Tracks : {p : Process} → Lives fresh_process p → Tracks p
Lives-Tracks begun = inl (refl, λ e. cc)
Lives-Tracks (continued l (init threads size p result s e)) =
    init-Tracks threads size p result s (Lives-Tracks l) e
Lives-Tracks (continued l (cleanup p c e)) = cleanup-Tracks p c (Lives-Tracks l) e

static_get-freed :
    (threads : Threads) (thread : ℕ) (s : Static) (slots : Slots)
    → s.g_static_handle ≡ freed
    → static_get threads thread s slots ≡ none
unfolding static_get
static_get-freed threads thread s slots e = rw e refl

static_set-freed :
    (threads : Threads) (thread : ℕ) (s : Static) (setter : Option (List ℕ → List ℕ → List ℕ))
    (new_data : List ℕ) (slots : Slots)
    → s.g_static_handle ≡ freed
    → static_set threads thread s setter (some new_data) slots ≡ none
unfolding static_set
static_set-freed threads thread s setter new_data slots e = rw e refl

-- In any order of starts and cleanups of the static storage that do not access freed memory, from
-- the start of the process and whatever `malloc` and the pthread calls answer: at most one cleanup
-- deletes a key, and behind it every further start returns `libd_ok` without a change, while `get`,
-- `set` of some bytes and a further cleanup access the freed handle.
pub static_cleanup-Dangling : {p : Process} → Lives fresh_process p → p.deleted ≢ [] → Dangling p
static_cleanup-Dangling {p} lives some_deleted = elim (Lives-Tracks lives) [
  | inl (none_deleted, kept) ↦ absurd (some_deleted none_deleted)
  | inr (key, single, e) ↦ record {
    key = key;
    single = single;
    restarts = λ threads size. static_init_again threads size p.static (λ q. cc (q, e));
    gets = λ threads thread slots. static_get-freed threads thread p.static slots e;
    sets = λ threads thread setter new_data slots.
        static_set-freed threads thread p.static setter new_data slots e;
    cleanups = cleanup_freed p.static e;
  }
]
