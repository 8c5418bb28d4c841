-- ===== src/Memory/Linear/Arena.antt =====
-- A client of the allocator: any sequence of allocations, savepoints, restores and resets. The
-- client keeps the blocks that it holds, the last one first, and its savepoints with the blocks
-- that it held when it took them, the last one first. Restoring a savepoint gives up the blocks and
-- the savepoints that came after it, as the header file asks.
use native.Mathlib.Nat.{zero-mod}
use mathlib.Core.Path.{subst}
use libdane.Base.{ℕ, ◌^◌, ◌<◌, ◌≡◌, refl, ap, sym, ◌∙◌, some_inj, arith, true, some, List, [], ◌∷◌}
use libdane.Common.{libd_ok}
use libdane.Memory.Linear.{
  LinearAllocator, LinearAllocatorSavepoint, Mapping, Kernel, Reply, effects, alloc, set_savepoint,
  restore_savepoint, reset,
}
use libdane.Memory.Linear.Valid.{IsValid, Grants}
use libdane.Memory.Linear.Alloc.{Handed, alloc-Handed, alloc_ok_fits}
use libdane.Memory.Linear.Blocks.{
  Block, Disjoint, AllUsable, Stacked, Nested, Nested-mono, Stacked-Disjoint, Stacked-AllUsable,
}
use libdane.Memory.Linear.Savepoint.{rewind-IsValid, set_savepoint_whole}

pub record Arena : Type 0 where
  pub la : LinearAllocator
  pub mapping : Mapping
  pub blocks : List Block
  pub saved : List (LinearAllocatorSavepoint × List Block)

pub data Step : Arena → Arena → Type 0 where
  allocate :
      (s : Arena) (k : Kernel) (size : ℕ) (la' : LinearAllocator) (offset : ℕ)
      → Grants k s.mapping
      → size < 2 ^ 32
      → (alloc k (some s.la) true size).result ≡ libd_ok
      → (alloc k (some s.la) true size).la ≡ some la'
      → (alloc k (some s.la) true size).out ≡ some offset
      → Step s (record s {
        la = la';
        mapping = effects s.mapping (alloc k (some s.la) true size).calls;
        blocks = record { offset = offset; size = size } ∷ s.blocks;
      })
  save :
      (s : Arena) (sp : LinearAllocatorSavepoint)
      → (set_savepoint (some s.la) true).out ≡ some sp
      → Step s (record s { saved = (sp, s.blocks) ∷ s.saved })
  forget :
      (s : Arena) (sp : LinearAllocatorSavepoint × List Block)
      (older : List (LinearAllocatorSavepoint × List Block))
      → s.saved ≡ sp ∷ older
      → Step s (record s { saved = older })
  restore :
      (s : Arena) (sp : LinearAllocatorSavepoint) (held : List Block)
      (older : List (LinearAllocatorSavepoint × List Block)) (la' : LinearAllocator)
      → s.saved ≡ (sp, held) ∷ older
      → (restore_savepoint (some s.la) (some sp)).la ≡ some la'
      → Step s (record s { la = la'; blocks = held })
  clear :
      (s : Arena) (la' : LinearAllocator)
      → (reset (some s.la)).la ≡ some la'
      → Step s (record s { la = la'; blocks = []; saved = [] })

pub data Reach (s : Arena) : Arena → Type 0 where
  here : Reach s s
  next : {t u : Arena} → Reach s t → Step t u → Reach s u

record IsSound (al : ℕ) (s : Arena) : Type 0 where
  valid : IsValid s.la s.mapping
  alignment : s.la.alignment ≡ al
  stacked : Stacked al s.la.head_index s.blocks
  nested : Nested al s.la.head_index s.saved

restored : (la : LinearAllocator) (sp : LinearAllocatorSavepoint) → LinearAllocator
restored la sp = record la { head_index = sp.data_index }

restore_lem :
    (la la' : LinearAllocator) (sp : LinearAllocatorSavepoint)
    → (restore_savepoint (some la) (some sp)).la ≡ some la'
    → restored la sp ≡ la'
unfolding restore_savepoint restored
restore_lem la la' sp back = some_inj back

reset_lem :
    (la la' : LinearAllocator)
    → (reset (some la)).la ≡ some la'
    → record la { head_index = 0 } ≡ la'
unfolding reset
reset_lem la la' back = some_inj back

saved_lem :
    {la : LinearAllocator} {m : Mapping} (sp : LinearAllocatorSavepoint)
    → IsValid la m
    → (set_savepoint (some la) true).out ≡ some sp
    → la.head_index ≡ sp.data_index
saved_lem {la} sp v taken =
    ap (λ (p : LinearAllocatorSavepoint). p.data_index)
      (some_inj
        (ap (λ (r : Reply LinearAllocatorSavepoint). r.out) (sym (set_savepoint_whole v)) ∙ taken))

allocate-IsSound :
    (al : ℕ) (s : Arena) (size offset : ℕ) (r : Reply ℕ) (la' : LinearAllocator)
    → Handed s.la s.mapping size r
    → r.la ≡ some la'
    → r.out ≡ some offset
    → IsSound al s
    → IsSound al (record s {
      la = la';
      mapping = effects s.mapping r.calls;
      blocks = record { offset = offset; size = size } ∷ s.blocks;
    })
allocate-IsSound al s size offset r la' h state out i =
    rw (← after_eq, ← offset_eq)
      (record {
        valid = h.valid;
        alignment = h.same_alignment ∙ i.alignment;
        stacked = (rw (← i.alignment) h.aligned, omega (arith, h.moved, h.rounded), i.stacked);
        nested =
            Nested-mono al s.la.head_index h.after.head_index s.saved (omega (arith, h.moved))
              i.nested;
      })
  where
    after_eq : h.after ≡ la'
    after_eq = some_inj (sym h.state ∙ state)

    offset_eq : s.la.head_index ≡ offset
    offset_eq = some_inj (sym h.out ∙ out)

Step-IsSound : (al : ℕ) {s t : Arena} → Step s t → IsSound al s → IsSound al t
Step-IsSound al (allocate s k size la' offset grants small ok state out) i =
    let fits = alloc_ok_fits i.valid k size small ok in
    allocate-IsSound al s size offset (alloc k (some s.la) true size) la'
      (alloc-Handed i.valid k size grants small fits) state out i
Step-IsSound al (save s sp taken) i =
    let e = saved_lem sp i.valid taken in
    record {
      valid = i.valid;
      alignment = i.alignment;
      stacked = i.stacked;
      nested = (
        omega arith,
        rw (← e, ← i.alignment) i.valid.aligned_head,
        rw (← e) i.stacked,
        rw (← e) i.nested,
      );
    }
Step-IsSound al (forget s sp older e) i = record {
  valid = i.valid;
  alignment = i.alignment;
  stacked = i.stacked;
  nested =
      let n : Nested al s.la.head_index (sp ∷ older) =
        subst (Nested al s.la.head_index) e i.nested in
      Nested-mono al sp.0.data_index s.la.head_index older n.0 n.3;
}
Step-IsSound al (restore s sp held older la' e back) i =
    let n : Nested al s.la.head_index ((sp, held) ∷ older) =
      subst (Nested al s.la.head_index) e i.nested in
    rw (← restore_lem s.la la' sp back) (
      unfold restored in
      record {
        valid = rewind-IsValid i.valid sp.data_index n.0 (rw i.alignment n.1);
        alignment = i.alignment;
        stacked = n.2;
        nested = rw e (omega arith, n.1, n.2, n.3);
      })
Step-IsSound al (clear s la' back) i = rw (← reset_lem s.la la' back) (record {
  valid = rewind-IsValid i.valid 0 (omega arith) (zero-mod _);
  alignment = i.alignment;
  stacked = tt;
  nested = tt;
})

Reach-IsSound : (al : ℕ) {s t : Arena} → IsSound al s → Reach s t → IsSound al t
Reach-IsSound al i here = i
Reach-IsSound al i (next r st) = Step-IsSound al st (Reach-IsSound al i r)

-- However a client allocates, saves, restores and resets, starting from a valid allocator with no
-- blocks and a system that grants what lies in the reservation: no two blocks that it holds
-- overlap, each is aligned and lies in accessible memory, and the allocator stays valid.
pub Reach-Disjoint :
    {s t : Arena}
    → IsValid s.la s.mapping
    → s.blocks ≡ []
    → s.saved ≡ []
    → Reach s t
    → Disjoint t.blocks
      × AllUsable s.la.alignment t.mapping.writable t.blocks
      × IsValid t.la t.mapping
Reach-Disjoint {s} {t} v blocks saved r = (
  Stacked-Disjoint al t.la.head_index t.blocks i.stacked,
  Stacked-AllUsable al t.la.head_index t.mapping.writable t.blocks
      (omega (arith, i.valid.data_le, i.valid.head_le)) i.stacked,
  i.valid,
)
  where
    al : ℕ
    al = s.la.alignment

    start : IsSound s.la.alignment s
    start = record { valid = v; alignment = refl; stacked = rw blocks tt; nested = rw saved tt }

    i : IsSound s.la.alignment t
    i = Reach-IsSound s.la.alignment start r
