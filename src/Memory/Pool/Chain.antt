-- ===== src/Memory/Pool/Chain.antt =====
-- The free list of a pool as a list of slots: how it lies in the bytes, and what a write does to it.
use libdane.Base.{ℕ, ◌*◌, ◌^◌, ◌≤◌, ◌<◌, ◌≡◌, refl, sym, ◌∙◌, ◌≢◌, arith, List, [], ◌∷◌, ◌++◌}
use libdane.Memory.Pool.Bytes.{load_u32, store_u32, load-store_self, load-store-Clear, slots-Clear}

-- From `head` the links in the first words of the slots of width `w` lead through the slots of
-- the list to `max`.
abbrev pub Chain : (ℕ → ℕ) → ℕ → ℕ → ℕ → List ℕ → Type 0
Chain b w max head [] = head ≡ max
Chain b w max head (x ∷ xs) = (head ≡ x) × (x < max) × Chain b w max (load_u32 b (x * w)) xs

abbrev pub NotIn : ℕ → List ℕ → Type 0
NotIn x [] = Unit {0}
NotIn x (y ∷ ys) = (x ≢ y) × NotIn x ys

abbrev pub Distinct : List ℕ → Type 0
Distinct [] = Unit {0}
Distinct (x ∷ xs) = NotIn x xs × Distinct xs

-- The last slot, or `max` if there is none.
abbrev pub last_or : ℕ → List ℕ → ℕ
last_or max [] = max
last_or max (x ∷ xs) = last_or x xs

module _ (b : ℕ → ℕ) (w : ℕ) (wide : 4 ≤ w) where
  pub load-store_ne :
      (x y v : ℕ) → x ≢ y → load_u32 (store_u32 b (x * w) v) (y * w) ≡ load_u32 b (y * w)
  load-store_ne x y v ne = load-store-Clear b (x * w) (y * w) v (slots-Clear x y w wide ne)

-- A change that leaves the first word of every slot of the list alone leaves the list alone.
pub Chain-frame :
    (b c : ℕ → ℕ) (w max s head : ℕ) (xs : List ℕ)
    → ((y : ℕ) → s ≢ y → load_u32 c (y * w) ≡ load_u32 b (y * w))
    → NotIn s xs
    → Chain b w max head xs
    → Chain c w max head xs
Chain-frame b c w max s head [] same out ch = ch
Chain-frame b c w max s head (x ∷ xs) same out ch = (
  ch.0,
  ch.1,
  rw (same x out.0) (Chain-frame b c w max s (load_u32 b (x * w)) xs same out.1 ch.2),
)

pub Chain-below :
    (b : ℕ → ℕ) (w max head x : ℕ) (xs : List ℕ) → Chain b w max head (x ∷ xs) → last_or x xs < max
Chain-below b w max head x [] ch = ch.1
Chain-below b w max head x (y ∷ ys) ch = Chain-below b w max (load_u32 b (x * w)) y ys ch.2

-- The head of a chain is the terminal index exactly when the chain is empty.
pub Chain-empty : (b : ℕ → ℕ) (w max : ℕ) (xs : List ℕ) → Chain b w max max xs → xs ≡ []
Chain-empty b w max [] ch = refl
Chain-empty b w max (x ∷ xs) ch = absurd (omega arith)

NotIn-last : (s x : ℕ) (xs : List ℕ) → NotIn s (x ∷ xs) → s ≢ last_or x xs
NotIn-last s x [] out = out.0
NotIn-last s x (y ∷ ys) out = NotIn-last s y ys out.1

-- Linking `s` behind the last slot of a chain extends the chain by `s`.
pub Chain-extend :
    (b : ℕ → ℕ) (w max s head x : ℕ) (xs : List ℕ)
    → 4 ≤ w
    → max < 2 ^ 32
    → s < max
    → NotIn s (x ∷ xs)
    → Distinct (x ∷ xs)
    → Chain b w max head (x ∷ xs)
    → Chain (store_u32 (store_u32 b (last_or x xs * w) s) (s * w) max) w max head (x ∷ xs ++ s ∷ [])
Chain-extend b w max s head x [] wide small below out dis ch = (
  ch.0,
  ch.1,
  (
    load-store_ne (store_u32 b (x * w) s) w wide s x max out.0
        ∙ load-store_self b (x * w) s (omega arith),
    below,
    load-store_self (store_u32 b (x * w) s) (s * w) max small,
  ),
)
Chain-extend b w max s head x (y ∷ ys) wide small below out dis ch = (
  ch.0,
  ch.1,
  rw same (Chain-extend b w max s (load_u32 b (x * w)) y ys wide small below out.1 dis.1 ch.2),
)
  where
    last : ℕ
    last = last_or y ys

    same : load_u32 (store_u32 (store_u32 b (last * w) s) (s * w) max) (x * w) ≡ load_u32 b (x * w)
    same =
        load-store_ne (store_u32 b (last * w) s) w wide s x max out.0
        ∙ load-store_ne b w wide last x s (λ e. NotIn-last x y ys dis.0 (sym e))

pub NotIn-append : (s t : ℕ) (xs : List ℕ) → NotIn s xs → s ≢ t → NotIn s (xs ++ t ∷ [])
NotIn-append s t [] out ne = (ne, tt)
NotIn-append s t (x ∷ xs) out ne = (out.0, NotIn-append s t xs out.1 ne)

pub Distinct-append : (s : ℕ) (xs : List ℕ) → NotIn s xs → Distinct xs → Distinct (xs ++ s ∷ [])
Distinct-append s [] out dis = (tt, tt)
Distinct-append s (x ∷ xs) out dis =
    (NotIn-append x s xs dis.0 (λ e. out.0 (sym e)), Distinct-append s xs out.1 dis.1)

pub last_or-append : (m s : ℕ) (xs : List ℕ) → last_or m (xs ++ s ∷ []) ≡ s
last_or-append m s [] = refl
last_or-append m s (x ∷ xs) = last_or-append x s xs
