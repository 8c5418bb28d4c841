-- ===== src/Memory/Linear/Blocks.antt =====
-- The blocks that a client of the allocator holds, and how they lie below the head.
use libdane.Base.{ℕ, ◌+◌, ◌%◌, ◌≤◌, ◌≡◌, ◌⊎◌, inr, arith, List, [], ◌∷◌}
use libdane.Memory.Linear.{LinearAllocatorSavepoint}

-- A block by its offset and size.
pub record Block : Type 0 where
  pub offset : ℕ
  pub size : ℕ

-- Two blocks that have no byte in common.
abbrev pub Apart : Block → Block → Type 0
Apart a b = (a.offset + a.size ≤ b.offset) ⊎ (b.offset + b.size ≤ a.offset)

abbrev pub ApartFrom : Block → List Block → Type 0
ApartFrom a [] = Unit {0}
ApartFrom a (b ∷ bs) = Apart a b × ApartFrom a bs

-- No two of the blocks overlap.
abbrev pub Disjoint : List Block → Type 0
Disjoint [] = Unit {0}
Disjoint (b ∷ bs) = ApartFrom b bs × Disjoint bs

-- Every block starts at a multiple of the alignment and ends in accessible memory.
abbrev pub AllUsable : ℕ → ℕ → List Block → Type 0
AllUsable alignment writable [] = Unit {0}
AllUsable alignment writable (b ∷ bs) =
    (b.offset % alignment ≡ 0)
    × (32 + b.offset + b.size ≤ writable)
    × AllUsable alignment writable bs

-- The blocks lie one behind the other, below the head.
abbrev pub Stacked : ℕ → ℕ → List Block → Type 0
Stacked alignment head [] = Unit {0}
Stacked alignment head (b ∷ bs) =
    (b.offset % alignment ≡ 0) × (b.offset + b.size ≤ head) × Stacked alignment b.offset bs

-- The savepoints are aligned, each below the one after it, with its blocks below it.
abbrev pub Nested : ℕ → ℕ → List (LinearAllocatorSavepoint × List Block) → Type 0
Nested alignment head [] = Unit {0}
Nested alignment head ((sp, held) ∷ older) =
    (sp.data_index ≤ head)
    × (sp.data_index % alignment ≡ 0)
    × Stacked alignment sp.data_index held
    × Nested alignment sp.data_index older

pub Stacked-mono : (al h h' : ℕ) (bs : List Block) → h ≤ h' → Stacked al h bs → Stacked al h' bs
Stacked-mono al h h' [] le st = tt
Stacked-mono al h h' (b ∷ bs) le st = (st.0, omega arith, st.2)

pub Nested-mono :
    (al h h' : ℕ) (sps : List (LinearAllocatorSavepoint × List Block))
    → h ≤ h'
    → Nested al h sps
    → Nested al h' sps
Nested-mono al h h' [] le n = tt
Nested-mono al h h' ((sp, held) ∷ older) le n = (omega arith, n.1, n.2, n.3)

pub Stacked-ApartFrom :
    (al h : ℕ) (b : Block) (bs : List Block) → h ≤ b.offset → Stacked al h bs → ApartFrom b bs
Stacked-ApartFrom al h b [] le st = tt
Stacked-ApartFrom al h b (c ∷ cs) le st =
    (inr (omega arith), Stacked-ApartFrom al c.offset b cs (omega arith) st.2)

pub Stacked-Disjoint : (al h : ℕ) (bs : List Block) → Stacked al h bs → Disjoint bs
Stacked-Disjoint al h [] st = tt
Stacked-Disjoint al h (b ∷ bs) st =
    (Stacked-ApartFrom al b.offset b bs (omega arith) st.2, Stacked-Disjoint al b.offset bs st.2)

pub Stacked-AllUsable :
    (al h w : ℕ) (bs : List Block) → 32 + h ≤ w → Stacked al h bs → AllUsable al w bs
Stacked-AllUsable al h w [] le st = tt
Stacked-AllUsable al h w (b ∷ bs) le st =
    (st.0, omega arith, Stacked-AllUsable al b.offset w bs (omega arith) st.2)
