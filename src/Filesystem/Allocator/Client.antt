-- ===== src/Filesystem/Allocator/Client.antt =====
-- A client of the filepath allocator: any sequence of allocations and resets, also ones that are
-- refused. It is a client of the linear allocator behind the handle.
use libdane.Base.{
  ℕ, ◌+◌, ◌^◌, ◌<◌, ◌≡◌, refl, ◌⊎◌, inl, inr, arith, true, Option, none, some, List, [], ◌∷◌,
}
use native.Mathlib.Decide.{dec_lt}
use libdane.Common.{LibdResult, libd_ok, libd_no_memory}
use libdane.Memory.Linear.{
  LinearAllocator, Mapping, Kernel, unmapped_range, effects, alloc, reset, create,
}
use libdane.Memory.Linear.Valid.{IsValid, Grants, Guards, IsPage}
use libdane.Memory.Linear.Alloc.{Handed, alloc-Handed, alloc_no_memory}
use libdane.Memory.Linear.Blocks.{Block, Disjoint, AllUsable}
use libdane.Memory.Linear.Create.{requested, IsFresh, create-IsFresh}
use libdane.Memory.Linear.Arena.{Arena, Reach, here, next, allocate, clear, Reach-Disjoint}
use libdane.Filesystem.Allocator.{
  FilepathAllocatorWrapper, FilepathAllocator, wrapper_create, wrapper_alloc, wrapper_reset,
  filepath_allocator_create,
}

pub record Client : Type 0 where
  pub wrapper : FilepathAllocatorWrapper
  pub mapping : Mapping
  pub blocks : List Block

abbrev pub noted : Option ℕ → ℕ → List Block → List Block
noted none bytes blocks = blocks
noted (some offset) bytes blocks = record { offset = offset; size = bytes } ∷ blocks

pub data Call : Client → Client → Type 0 where
  allocation :
      (s : Client) (k : Kernel) (bytes : ℕ)
      → Grants k s.mapping
      → bytes < 2 ^ 32
      → Call s (record {
        wrapper = (wrapper_alloc k s.wrapper bytes).1;
        mapping = effects s.mapping (wrapper_alloc k s.wrapper bytes).2;
        blocks = noted (wrapper_alloc k s.wrapper bytes).0 bytes s.blocks;
      })
  clearing : (s : Client) → Call s (record s { wrapper = wrapper_reset s.wrapper; blocks = [] })

pub data Runs (s : Client) : Client → Type 0 where
  started : Runs s s
  called : {t u : Client} → Runs s t → Call t u → Runs s u

alloc_cases :
    {la : LinearAllocator} {m : Mapping} (k : Kernel) (bytes : ℕ)
    → IsValid la m
    → Grants k m
    → bytes < 2 ^ 32
    → Handed la m bytes (alloc k (some la) true bytes)
      ⊎ (alloc k (some la) true bytes
          ≡ record { result = libd_no_memory; out = none; la = some la; calls = [] })
alloc_cases {la} k bytes v grants small = elim (dec_lt la.curr_data_size (la.head_index + bytes)) [
  | no fits ↦ inl (alloc-Handed v k bytes grants small (inl (omega arith)))
  | yes full ↦ elim (dec_lt la.data_reservation_size (la.head_index + bytes)) [
    | no fits ↦ inl (alloc-Handed v k bytes grants small (inr (omega arith)))
    | yes over ↦ inr (alloc_no_memory v k bytes small full over)
  ]
]

wrapper_alloc-Handed :
    {la : LinearAllocator} {m : Mapping} (k : Kernel) (bytes : ℕ)
    (h : Handed la m bytes (alloc k (some la) true bytes))
    → wrapper_alloc k (record { a = some la }) bytes
      ≡ (some la.head_index, record { a = some h.after }, (alloc k (some la) true bytes).calls)
unfolding wrapper_alloc
wrapper_alloc-Handed k bytes h = rw (wrapper_alloc, h.ok, h.out, h.state) refl

wrapper_alloc_refused :
    {la : LinearAllocator} (k : Kernel) (bytes : ℕ)
    → alloc k (some la) true bytes
      ≡ record { result = libd_no_memory; out = none; la = some la; calls = [] }
    → wrapper_alloc k (record { a = some la }) bytes ≡ (none, record { a = some la }, [])
unfolding wrapper_alloc
wrapper_alloc_refused k bytes e = rw (wrapper_alloc, e) refl

created_handle :
    (k : Kernel) (fa : FilepathAllocator) (al : ℕ) {la : LinearAllocator}
    → (create k true 8192 1024 al).out ≡ some la
    → (filepath_allocator_create k fa al).1.wrapper ≡ record { a = some la }
unfolding filepath_allocator_create wrapper_create
created_handle k fa al out = rw (wrapper_create, out) refl

created_calls :
    (k : Kernel) (fa : FilepathAllocator) (al : ℕ)
    → (filepath_allocator_create k fa al).2 ≡ (create k true 8192 1024 al).calls
unfolding filepath_allocator_create wrapper_create
created_calls k fa al = refl

-- A client of the linear allocator that reaches the state with these parts.
record Follows (al : ℕ) (la : LinearAllocator) (m : Mapping) (blocks : List Block) : Type 0 where
  first : Arena
  valid : IsValid first.la first.mapping
  alignment : first.la.alignment ≡ al
  no_blocks : first.blocks ≡ []
  no_saved : first.saved ≡ []
  reaches : Reach first (record { la = la; mapping = m; blocks = blocks; saved = [] })

-- It is behind the handle.
record Behind (al : ℕ) (s : Client) : Type 0 where
  la : LinearAllocator
  handle : s.wrapper ≡ record { a = some la }
  follows : Follows al la s.mapping s.blocks

module _ {al : ℕ} {la : LinearAllocator} {m : Mapping} {blocks : List Block}
    (f : Follows al la m blocks) where
  Follows-Disjoint : Disjoint blocks × AllUsable al m.writable blocks × IsValid la m
  Follows-Disjoint = rw (← f.alignment) (Reach-Disjoint f.valid f.no_blocks f.no_saved f.reaches)

  allocation-Behind :
      (k : Kernel) (bytes : ℕ)
      → Grants k m
      → bytes < 2 ^ 32
      → Behind al (record {
        wrapper = (wrapper_alloc k (record { a = some la }) bytes).1;
        mapping = effects m (wrapper_alloc k (record { a = some la }) bytes).2;
        blocks = noted (wrapper_alloc k (record { a = some la }) bytes).0 bytes blocks;
      })
  allocation-Behind k bytes grants small =
      elim (alloc_cases k bytes Follows-Disjoint.2 grants small) [
        | inl h ↦ rw (wrapper_alloc-Handed k bytes h) record {
          la = h.after;
          handle = refl;
          follows = record {
            first = f.first;
            valid = f.valid;
            alignment = f.alignment;
            no_blocks = f.no_blocks;
            no_saved = f.no_saved;
            reaches =
                next f.reaches
                  (allocate _ k bytes h.after la.head_index grants small h.ok h.state h.out);
          };
        }
        | inr refused ↦
            rw (wrapper_alloc_refused k bytes refused)
              record { la = la; handle = refl; follows = f }
      ]

  clearing-Behind :
      Behind al
        (record { wrapper = wrapper_reset (record { a = some la }); mapping = m; blocks = [] })
  unfolding wrapper_reset reset
  clearing-Behind = record {
    la = record la { head_index = 0 };
    handle = refl;
    follows = record {
      first = f.first;
      valid = f.valid;
      alignment = f.alignment;
      no_blocks = f.no_blocks;
      no_saved = f.no_saved;
      reaches = next f.reaches (clear _ (record la { head_index = 0 }) refl);
    };
  }

Call-Behind : (al : ℕ) {s t : Client} → Call s t → Behind al s → Behind al t
Call-Behind al (allocation s k bytes grants small) b =
    rw b.handle (allocation-Behind b.follows k bytes grants small)
Call-Behind al (clearing s) b = rw b.handle (clearing-Behind b.follows)

Runs-Behind : (al : ℕ) {s t : Client} → Runs s t → Behind al s → Behind al t
Runs-Behind al started b = b
Runs-Behind al (called r c) b = Call-Behind al c (Runs-Behind al r b)

-- The filepath allocator as `libd_filepath_allocator_create` leaves it, with no blocks.
abbrev pub created_client : Kernel → FilepathAllocator → ℕ → Client
created_client k fa al = record {
  wrapper = (filepath_allocator_create k fa al).1.wrapper;
  mapping = effects unmapped_range (filepath_allocator_create k fa al).2;
  blocks = [];
}

created-Behind :
    (k : Kernel) (fa : FilepathAllocator) (p al : ℕ)
    → IsFresh 8192 1024 al (create k true 8192 1024 al)
    → Behind al (created_client k fa al)
created-Behind k fa p al c =
    rw (created_handle k fa al c.out, created_calls k fa al)
      record {
        la = c.la;
        handle = refl;
        follows = record {
          first = record {
            la = c.la;
            mapping = effects unmapped_range (create k true 8192 1024 al).calls;
            blocks = [];
            saved = [];
          };
          valid = c.valid;
          alignment = c.alignment;
          no_blocks = refl;
          no_saved = refl;
          reaches = here;
        };
      }

create_ok :
    (k : Kernel) (fa : FilepathAllocator) (al : ℕ)
    → (filepath_allocator_create k fa al).0 ≡ libd_ok
    → (create k true 8192 1024 al).result ≡ libd_ok
unfolding filepath_allocator_create wrapper_create
create_ok k fa al ok = only_ok _ ok
  where
    only_ok :
        (r : LibdResult)
        → (elim r [ libd_ok ↦ libd_ok | _ ↦ libd_no_memory ]) ≡ libd_ok
        → r ≡ libd_ok
    only_ok libd_ok e = refl
    only_ok _ e = cc

-- Whenever `libd_filepath_allocator_create` reports success, on a system with a page size between 16
-- bytes and 2 GiB that grants nothing beyond the reservation, and whatever sequence of allocations,
-- refused ones too, and resets follows, on a system that then grants what lies in the reservation:
-- the blocks that the client holds do not overlap, and each is aligned and in accessible memory.
pub Runs-Disjoint :
    (k : Kernel) (fa : FilepathAllocator) (p al : ℕ) {t : Client}
    → k.page_size ≡ some p
    → IsPage p
    → al < 256
    → Guards k (requested p 8192)
    → (filepath_allocator_create k fa al).0 ≡ libd_ok
    → Runs (created_client k fa al) t
    → Disjoint t.blocks × AllUsable al t.mapping.writable t.blocks
Runs-Disjoint k fa p al size page byte guards ok r =
    let b = Runs-Behind al r (
      created-Behind k fa p al (
        create-IsFresh k true p 8192 1024 al size page (omega arith) byte (omega arith) guards
          (create_ok k fa al ok))) in
    let (apart, usable, valid) = Follows-Disjoint b.follows in (apart, usable)
