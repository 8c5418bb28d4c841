-- ===== src/Memory/Pool/Client.antt =====
-- A client of a pool: any sequence of allocations, writes into slots that it holds, frees of slots
-- that it holds, and resets. The client keeps the numbers of its slots; the pointer to a slot is the
-- number times the slot size.
pub mod Slots
pub mod Sound
pub mod Laws
use libdane.Base.{
  ℕ, ◌+◌, ◌*◌, ◌≤◌, ◌<◌, ◌≡◌, ◌⊎◌, true, none, some, List, [], ◌∷◌, ◌==◌, if◌then◌else◌, pos,
}
use libdane.Common.{libd_ok}
use libdane.Memory.Pool.{PoolAllocator, alloc, free, reset}
use libdane.Memory.Pool.Valid.{with_bytes}

pub record Client : Type 0 where
  pub pa : PoolAllocator
  pub held : List ℕ

abbrev pub IsIn : ℕ → List ℕ → Type 0
IsIn s [] = ⊥
IsIn s (x ∷ xs) = (s ≡ x) ⊎ IsIn s xs

abbrev pub remove : ℕ → List ℕ → List ℕ
remove s [] = []
remove s (x ∷ xs) = if s == x then xs else x ∷ remove s xs

-- The bytes outside of slot `s` are as they were.
abbrev pub SameOutside : PoolAllocator → ℕ → (ℕ → ℕ) → Type 0
SameOutside pa s b =
    (q : ℕ)
    → (q < s * pa.bytes_per_alloc) ⊎ (s * pa.bytes_per_alloc + pa.bytes_per_alloc ≤ q)
    → b q ≡ pa.bytes q

pub data Step : Client → Client → Type 0 where
  allocate :
      (c : Client) (s : ℕ) (pa' : PoolAllocator)
      → alloc (some c.pa) true
        ≡ some (record { result = libd_ok; out = some (s * c.pa.bytes_per_alloc); pa = some pa' })
      → Step c (record { pa = pa'; held = s ∷ c.held })
  write :
      (c : Client) (s : ℕ) (b : ℕ → ℕ)
      → IsIn s c.held
      → SameOutside c.pa s b
      → Step c (record c { pa = with_bytes c.pa b })
  give_back :
      (c : Client) (s : ℕ) (pa' : PoolAllocator)
      → IsIn s c.held
      → free (some c.pa) (some (pos (s * c.pa.bytes_per_alloc)))
        ≡ some (record { result = libd_ok; out = none; pa = some pa' })
      → Step c (record { pa = pa'; held = remove s c.held })
  clear :
      (c : Client) (pa' : PoolAllocator)
      → reset (some c.pa) ≡ some (record { result = libd_ok; out = none; pa = some pa' })
      → Step c (record { pa = pa'; held = [] })

pub data Reach (c : Client) : Client → Type 0 where
  here : Reach c c
  next : {d e : Client} → Reach c d → Step d e → Reach c e
