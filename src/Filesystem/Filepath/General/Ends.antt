-- ===== src/Filesystem/Filepath/General/Ends.antt =====
-- How the loop of `normalize` ends, for each meaning of a path.
use mathlib.Core.List.{reverse, reverse_aux, reverse-append, append_assoc, append-nil}
use libdane.Base.{
  ℕ, suc, ◌+◌, ◌<◌, ◌≡◌, refl, ap, sym, ◌∙◌, arith, Bool, List, [], ◌∷◌, ◌++◌, length,
  length-reverse_aux, reverse_aux-eq, lt→ltb,
}
use libdane.Common.{libd_ok, libd_invalid_path}
use libdane.Platform.Paths.{path_separator}
use libdane.Utils.Encodings.{put}
use libdane.Filesystem.Filepath.{
  Addresses, State, Outcome, done, fault, stop, normalize_loop, round_at, terminate,
  behind_satisfied,
}
use libdane.Filesystem.Filepath.Clean.{bytes_at}
use libdane.Filesystem.Filepath.Written.{written, written-put, bytes_at-written}
use libdane.Filesystem.Filepath.Runs.{scan, Scanned}
use libdane.Filesystem.Filepath.Stack.{reverse-reverse_aux}
use libdane.Filesystem.Filepath.General.{Meaning, reached, refused, out_of_bounds, render_stack}

-- The outcome for a path with this meaning: `libd_ok` with the normal form and a terminator,
-- `libd_invalid_path`, or an access out of bounds.
abbrev pub Means : Meaning (List ℕ) → Outcome → Type 0
Means (reached xs) r =
    (out : ℕ → ℕ) × (r ≡ done libd_ok out) × (bytes_at out 0 (length xs + 1) ≡ xs ++ 0 ∷ [])
Means refused r = (out : ℕ → ℕ) × (r ≡ done libd_invalid_path out)
Means out_of_bounds r = r ≡ fault

-- The output for a stack of names, the last byte first.
abbrev pub output_of : List (List ℕ) → List ℕ
output_of [] = []
output_of (n ∷ stack) = path_separator ∷ reverse_aux n (output_of stack)

pub reverse-output_of : (stack : List (List ℕ)) → reverse (output_of stack) ≡ render_stack stack
reverse-output_of [] = refl
reverse-output_of (n ∷ stack) =
    reverse-reverse_aux n (output_of stack) (path_separator ∷ [])
    ∙ reverse_aux-eq (output_of stack) (n ++ path_separator ∷ [])
    ∙ ap (λ xs. xs ++ (n ++ path_separator ∷ [])) (reverse-output_of stack)
    ∙ sym (append_assoc (render_stack stack) n (path_separator ∷ []))

pub reverse-segment :
    (n : List ℕ) (stack : List (List ℕ))
    → reverse (reverse_aux n (output_of stack)) ≡ render_stack stack ++ n
reverse-segment n stack =
    reverse-reverse_aux n (output_of stack) []
    ∙ reverse_aux-eq (output_of stack) (n ++ [])
    ∙ ap (λ xs. xs ++ (n ++ [])) (reverse-output_of stack)
    ∙ ap (λ xs. render_stack stack ++ xs) (append-nil n)

length-reverse : (xs : List ℕ) → length (reverse xs) ≡ length xs
length-reverse xs = omega (arith, length-reverse_aux xs [])

module _ (a : Addresses) (out_len : ℕ) where
  -- With `n` rounds and one more the loop ends with such an outcome.
  abbrev pub EndsIn : ℕ → (Outcome → Type 0) → State → Type 0
  EndsIn n IsSo s = (fuel : ℕ) → IsSo (normalize_loop a out_len (n + suc fuel) 0 s)

  -- It ends with what `m` says.
  abbrev pub Ends : ℕ → Meaning (List ℕ) → State → Type 0
  Ends n m = EndsIn n (Means m)

  -- A round that ends the loop.
  pub EndsIn-stop :
      (n : ℕ) (IsSo : Outcome → Type 0) (s : State) (r : Outcome)
      → round_at a out_len 0 s s.ahead ≡ stop r
      → IsSo r
      → EndsIn n IsSo s
  unfolding normalize_loop
  EndsIn-stop n IsSo s r e is_so fuel = rw (next, normalize_loop, e) is_so
    where
      next : n + suc fuel ≡ suc (n + fuel)
      next = omega arith

  pub Ends-stop :
      (n : ℕ) (m : Meaning (List ℕ)) (s : State) (r : Outcome)
      → round_at a out_len 0 s s.ahead ≡ stop r
      → Means m r
      → Ends n m s
  Ends-stop n m = EndsIn-stop n (Means m)

  pub EndsIn-trans :
      {m : ℕ} {first : Bool} {ahead out : List ℕ} {s : State} (n : ℕ) (IsSo : Outcome → Type 0)
      → Scanned a out_len m first ahead out s
      → ((behind : List ℕ) (bytes : ℕ → ℕ)
          → behind_satisfied behind ≡ first
          → written bytes (length out) ≡ out
          → EndsIn n IsSo (scan behind ahead (length out) bytes))
      → EndsIn (m + n) IsSo s
  EndsIn-trans {m} n IsSo q k fuel =
      let (x, e) = q.runs (n + suc fuel) in
      rw (group, e, swap x) (k q.behind q.bytes q.place q.holds (x + fuel))
    where
      swap : (x : ℕ) → x + (n + suc fuel) ≡ n + suc (x + fuel)
      swap x = omega arith

      group : m + n + suc fuel ≡ m + (n + suc fuel)
      group = omega arith

  pub Ends-trans :
      {m : ℕ} {first : Bool} {ahead out : List ℕ} {s : State} (n : ℕ) (r : Meaning (List ℕ))
      → Scanned a out_len m first ahead out s
      → ((behind : List ℕ) (bytes : ℕ → ℕ)
          → behind_satisfied behind ≡ first
          → written bytes (length out) ≡ out
          → Ends n r (scan behind ahead (length out) bytes))
      → Ends (m + n) r s
  Ends-trans n r = EndsIn-trans n (Means r)

  -- The last round, at the terminator.
  pub Ends-terminator :
      (n : ℕ) (behind rest out : List ℕ) (bytes : ℕ → ℕ)
      → written bytes (length out) ≡ out
      → length out < out_len
      → Ends n (reached (reverse out)) (scan behind (0 ∷ rest) (length out) bytes)
  unfolding round_at terminate
  Ends-terminator n behind rest out bytes holds room =
      Ends-stop n (reached (reverse out)) _ (done libd_ok (put bytes (length out) 0))
        (rw (lt→ltb (length out) out_len room) refl)
        (
          put bytes (length out) 0,
          refl,
          rw size (
              bytes_at-written (put bytes (length out) 0) (suc (length out))
              ∙ ap reverse (written-put bytes (length out) 0 ∙ ap (λ xs. 0 ∷ xs) holds)
              ∙ reverse-append (0 ∷ []) out),
        )
    where
      size : length (reverse out) + 1 ≡ suc (length out)
      size = omega (arith, length-reverse out)

  -- The end of the object, one byte behind the terminator.
  pub Ends-object :
      (n w : ℕ) (behind : List ℕ) (bytes : ℕ → ℕ) → Ends n out_of_bounds (scan behind [] w bytes)
  unfolding round_at
  Ends-object n w behind bytes = Ends-stop n out_of_bounds _ fault refl refl
