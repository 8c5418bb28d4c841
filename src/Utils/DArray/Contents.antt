-- ===== src/Utils/DArray/Contents.antt =====
-- The elements in the memory of an array, as lists, and what a copy into it leaves there.
use libdane.Base.{
  ℕ, zero, suc, ◌+◌, ◌≤◌, ◌<◌, ◌≡◌, refl, ap, ◌∙◌, arith, Option, some, List, [], ◌∷◌, ◌++◌, ◌==◌,
  length, ==_of_ne, ==_iff, if◌then◌else◌,
}
use libdane.Utils.DArray.{copy_elements}

module _ {ℓ} {A : Type ℓ} where
  -- `n` elements from an index on.
  abbrev pub elements : (ℕ → A) → ℕ → ℕ → List A
  elements dat at zero = []
  elements dat at (suc n) = dat at ∷ elements dat (at + 1) n

  pub elements_split :
      (dat : ℕ → A) (at m n : ℕ)
      → elements dat at (m + n) ≡ elements dat at m ++ elements dat (at + m) n
  elements_split dat at zero n = rw (first, here) refl
    where
      first : 0 + n ≡ n
      first = omega arith

      here : at + 0 ≡ at
      here = omega arith
  elements_split dat at (suc m) n =
      rw (first, here) (ap (λ xs. dat at ∷ xs) (elements_split dat (at + 1) m n))
    where
      first : suc m + n ≡ suc (m + n)
      first = omega arith

      here : at + suc m ≡ at + 1 + m
      here = omega arith

  pub elements_ext :
      (dat dat' : ℕ → A) (at n : ℕ)
      → ((q : ℕ) → at ≤ q → q < at + n → dat q ≡ dat' q)
      → elements dat at n ≡ elements dat' at n
  elements_ext dat dat' at zero h = refl
  elements_ext dat dat' at (suc n) h = rw (
    h at (omega arith) (omega arith),
    elements_ext dat dat' (at + 1) n (λ q lo hi. h q (omega arith) (omega arith)),
  )

  -- A copy of a whole list to an index: what is there afterwards.
  pub record Copied (src : List A) (dat : ℕ → A) (i : ℕ) (r : Option (ℕ → A)) : Type ℓ where
    pub after : ℕ → A
    pub returns : r ≡ some after
    pub below : (q : ℕ) → q < i → after q ≡ dat q
    pub inside : elements after i (length src) ≡ src
    pub above : (q : ℕ) → i + length src ≤ q → after q ≡ dat q

  pub copy_elements-Copied :
      (src : List A) (dat : ℕ → A) (i : ℕ) → Copied src dat i (copy_elements (length src) src dat i)
  unfolding copy_elements
  copy_elements-Copied [] dat i = record {
    after = dat;
    returns = refl;
    below = λ q h. refl;
    inside = refl;
    above = λ q h. refl;
  }
  copy_elements-Copied (x ∷ src) dat i =
      let r = copy_elements-Copied src (λ q. if q == i then x else dat q) (i + 1) in
      record {
        after = r.after;
        returns = r.returns;
        below = λ q h. r.below q (omega arith) ∙ rw (==_of_ne q i (omega arith)) refl;
        inside = rw (r.inside, r.below i (omega arith), (==_iff i i).1 refl) refl;
        above = λ q h. r.above q (omega arith) ∙ rw (==_of_ne q i (omega arith)) refl;
      }

  -- The contents behind a copy, in three parts.
  pub Copied-elements :
      {src : List A} {dat : ℕ → A} {i : ℕ} {r : Option (ℕ → A)} (c : Copied src dat i r) (rest : ℕ)
      → elements c.after 0 (i + (length src + rest))
        ≡ elements dat 0 i ++ (src ++ elements dat (i + length src) rest)
  Copied-elements {src} {dat} {i} c rest =
      rw
        (
          elements_split c.after 0 i (length src + rest),
          first,
          elements_split c.after i (length src) rest,
          c.inside,
          elements_ext c.after dat 0 i (λ q lo hi. c.below q (omega arith)),
          elements_ext c.after dat (i + length src) rest (λ q lo hi. c.above q lo),
        )
        refl
    where
      first : 0 + i ≡ i
      first = omega arith
