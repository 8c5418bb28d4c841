-- ===== src/Utils/DArray/Valid.antt =====
-- When an array of darray.h is in order, and that growing keeps it so.
use libdane.Base.{
  ℕ, ◌+◌, ◌*◌, ◌%◌, ◌^◌, ◌≤◌, ◌<◌, ◌≡◌, ◌≢◌, inl, inr, refl, arith, true, Option, some, leb, ◌==◌,
  Bool-cases, if◌then◌else◌,
}
use libdane.Utils.DArray.{DArray, Heap, reserve}

pub mul_mono : (a b c : ℕ) → a ≤ b → a * c ≤ b * c
mul_mono a b c h = grind arith

pub le→leb : (a b : ℕ) → a ≤ b → leb a b ≡ true
le→leb a b h = ground arith

module _ {ℓ} {A : Type ℓ} where
  -- An array of elements of `width` bytes, whose memory is `dat`.
  pub record IsValid (width : ℕ) (dat : ℕ → A) (arr : DArray A) : Type ℓ where
    pub memory : arr.dat ≡ some dat
    pub nonempty : 0 < arr.capacity
    pub size_le : arr.size ≤ arr.capacity
    pub room_eq : arr.room ≡ arr.capacity * width
    pub fits : arr.capacity * width < 2 ^ 64
    pub counted : arr.capacity < 2 ^ 64

  -- An array that has been grown for a write: another capacity, with the old elements.
  pub record Reserved (width : ℕ) (arr : DArray A) (dat : ℕ → A) (cap : ℕ) (r : Option (DArray A))
      : Type ℓ where
    pub after : DArray A
    pub memory : ℕ → A
    pub returns : r ≡ some after
    pub cap_eq : after.capacity ≡ cap
    pub size_eq : after.size ≡ arr.size
    pub valid : IsValid width memory after
    pub same : (q : ℕ) → q < arr.size → memory q ≡ dat q

  pub reserve-Reserved :
      (heap : Heap A) (width cap : ℕ) {arr : DArray A} {dat : ℕ → A}
      → IsValid width dat arr
      → arr.capacity ≤ cap
      → cap < 2 ^ 64
      → cap * width < 2 ^ 64
      → (cap ≢ arr.capacity → heap.gives (cap * width) ≡ true)
      → Reserved width arr dat cap (reserve heap width arr dat cap)
  unfolding reserve
  reserve-Reserved heap width cap {arr} {dat} v le small fits gives =
      elim (Bool-cases (cap == arr.capacity)) [
        | inl e ↦ rw e record {
          after = record arr { dat = some dat };
          memory = dat;
          returns = refl;
          cap_eq = ground arith;
          size_eq = refl;
          valid = record {
            memory = refl;
            nonempty = v.nonempty;
            size_le = v.size_le;
            room_eq = v.room_eq;
            fits = v.fits;
            counted = v.counted;
          };
          same = λ q h. refl;
        }
        | inr e ↦
            rw (e, word, gives (λ h. ground arith))
              record {
                after = record {
                  capacity = cap;
                  size = arr.size;
                  dat = some (moved);
                  room = cap * width;
                };
                memory = moved;
                returns = refl;
                cap_eq = refl;
                size_eq = refl;
                valid = record {
                  memory = refl;
                  nonempty = omega (arith, v.nonempty);
                  size_le = omega (arith, v.size_le);
                  room_eq = refl;
                  fits = fits;
                  counted = small;
                };
                same = λ q h. rw (le→leb ((q + 1) * width) arr.room (held q h)) refl;
              }
      ]
    where
      moved : ℕ → A
      moved q = if leb ((q + 1) * width) arr.room then dat q else heap.fresh q

      word : cap * width % 2 ^ 64 ≡ cap * width
      word = omega arith

      held : (q : ℕ) → q < arr.size → (q + 1) * width ≤ arr.room
      held q h =
          omega (arith, v.room_eq, mul_mono (q + 1) arr.capacity width (omega (arith, v.size_le)))
