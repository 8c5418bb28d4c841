-- ===== src/Filesystem/Filepath/Progress/Ends.antt =====
-- Every round of `normalize` moves on in a text of whole characters, and so the loop ends.
use libdane.Base.{
  ℕ, zero, suc, ◌+◌, ◌≤◌, ◌<◌, ◌≡◌, ◌≢◌, refl, arith, Bool, true, false, inl, inr, none, some, List,
  [], ◌∷◌, length, length-append, ltb, leb, ◌==◌, ◌||◌, ◌&&◌, not, ==_iff, Bool-cases, Option-cases,
}
use libdane.Common.{libd_ok, libd_err, libd_invalid_path}
use libdane.Platform.Paths.{path_separator}
use libdane.Utils.Encodings.{put}
use libdane.Filesystem.PlatformWrap.{write_char_to}
use libdane.Filesystem.Filepath.{
  Addresses, State, done, fault, out_of_fuel, Round, stop, advance, skip_separators,
  found_relative_ref, found_parent_ref, back_up, write_char, parent_ref, dot_case, separator_case,
  terminate, round_at, normalize_loop, copy_prefix, normalize, null_terminator, ends_component,
  behind_satisfied, dot,
}
use libdane.Filesystem.Filepath.Runs.{scan}
use libdane.Filesystem.Filepath.Walk.{IsText, character}
use libdane.Filesystem.Filepath.Progress.{
  IsText-tail, Character, first-Character, Progress, ended, moved, advance-append, write_offset,
  separator_size, dot_size, end_size, dot_text, two, parts, skip_separators-Skipped,
}

module _ (a : Addresses) (out_len : ℕ) where
  write_char-Progress :
      (behind xs : List ℕ) (c w : ℕ) (b : ℕ → ℕ)
      → IsText (c ∷ xs)
      → Progress (suc (length xs)) (
          write_char a out_len
            (record { behind = behind; ahead = c ∷ xs; write_pos = w; bytes = b }))
  unfolding write_char
  write_char-Progress behind xs c w b text =
      elim (Option-cases (write_char_to out_len b w (c ∷ xs))) [
        | inl failed ↦ ended fault (rw (write_char, failed) refl) (λ h. cc)
        | inr ((b', offset), written) ↦ elim (Bool-cases (leb out_len (w + offset))) [
          | inl full ↦ ended (done libd_err b') (rw (write_char, written, full) refl) (λ h. cc)
          | inr room ↦
              moved (after b' offset) (rw (write_char, written, room) refl)
                (rw (ahead_eq b' offset written) d.text) (rw (ahead_eq b' offset written) shorter)
        ]
      ]
    where
      after : (ℕ → ℕ) → ℕ → State
      after b' offset =
          advance offset
            (record { behind = behind; ahead = c ∷ xs; write_pos = w + offset; bytes = b' })

      d : Character c xs
      d = first-Character c xs text refl

      shorter : length d.rest < suc (length xs)
      shorter = rw d.spelled (omega (arith, length-append d.others d.rest))

      ahead_eq :
          (b' : ℕ → ℕ) (offset : ℕ)
          → write_char_to out_len b w (c ∷ xs) ≡ some (b', offset)
          → (after b' offset).ahead ≡ d.rest
      ahead_eq b' offset written =
          rw (write_offset out_len w c xs b b' offset written, d.size, d.spelled)
            (advance-append d.others d.rest (c ∷ behind) _ b')

  Progress-le : {m n : ℕ} {r : Round} → m ≤ n → Progress m r → Progress n r
  Progress-le le (ended o e some_end) = ended o e some_end
  Progress-le le (moved st e text less) = moved st e text (omega arith)

  separator_case-Progress :
      (st : State) (next : List ℕ)
      → IsText next
      → Progress (suc (length next)) (separator_case a out_len st next)
  unfolding separator_case
  separator_case-Progress st next text = elim (Option-cases (skip_separators st.behind next)) [
    | inl failed ↦ ended fault (rw (separator_case, failed) refl) (λ h. cc)
    | inr ((behind, ahead), skipped) ↦
        let s = skip_separators-Skipped st.behind next behind ahead text skipped in
        rw (separator_case, skipped, s.spelled)
          (Progress-le (omega (arith, s.le)) (
            write_char-Progress behind s.others path_separator st.write_pos st.bytes
              (character path_separator [] s.others separator_size s.text)))
  ]

  parent_ref-Progress :
      (behind xs : List ℕ) (c d e w : ℕ) (b : ℕ → ℕ)
      → IsText xs
      → Progress
          (suc (suc (suc (length xs))))
          (parent_ref a out_len 0 (scan behind (c ∷ d ∷ e ∷ xs) w b))
  unfolding parent_ref
  parent_ref-Progress behind xs c d e zero b text = ended (done libd_invalid_path b) refl (λ h. cc)
  parent_ref-Progress behind xs c d e (suc w) b text =
      elim (Bool-cases (suc w == 0 || suc w == 0 + 1)) [
        | inl start ↦ ended (done libd_invalid_path b) (rw (parent_ref, start) refl) (λ h. cc)
        | inr inside ↦ elim (Option-cases (back_up a b w)) [
          | inl failed ↦ ended fault (rw (parent_ref, inside, failed) refl) (λ h. cc)
          | inr (w', backed) ↦
              moved (scan (e ∷ d ∷ c ∷ behind) xs w' b) (rw (parent_ref, inside, backed) refl) text
                (omega arith)
        ]
      ]

  -- A dot that is no reference to the same directory.
  no_self-Progress :
      (behind next : List ℕ) (w : ℕ) (b : ℕ → ℕ)
      → IsText next
      → Progress (suc (length next)) (elim (found_parent_ref behind next) [
        | none ↦ stop fault
        | some true ↦ parent_ref a out_len 0 (scan behind (dot ∷ next) w b)
        | some false ↦ write_char a out_len (scan behind (dot ∷ next) w b)
      ])
  unfolding found_parent_ref
  no_self-Progress behind [] w b text = ended fault refl (λ h. cc)
  no_self-Progress behind (c ∷ []) w b text = elim (Bool-cases (c == null_terminator)) [
    | inl end ↦ rw end (write_char-Progress behind (c ∷ []) dot w b (dot_text text))
    | inr inside ↦ ended fault (rw inside refl) (λ h. cc)
  ]
  no_self-Progress behind (c ∷ d ∷ xs) w b text = elim (Bool-cases (c == null_terminator)) [
    | inl end ↦ rw end (write_char-Progress behind (c ∷ d ∷ xs) dot w b (dot_text text))
    | inr inside ↦ elim (Bool-cases (behind_satisfied behind && c == dot && ends_component d)) [
      | inl found ↦
          let (is_dot, ends) =
            parts (behind_satisfied behind) (c == dot) (ends_component d) found in
          rw (inside, found)
            (parent_ref-Progress behind xs dot c d w b (
              IsText-tail d xs (IsText-tail c (d ∷ xs) text (rw ((==_iff c dot).0 is_dot) dot_size))
                (end_size d ends)))
      | inr other ↦
          rw (inside, other) (write_char-Progress behind (c ∷ d ∷ xs) dot w b (dot_text text))
    ]
  ]

  dot_case-Progress :
      (behind next : List ℕ) (w : ℕ) (b : ℕ → ℕ)
      → IsText next
      → Progress (suc (length next)) (dot_case a out_len 0 (scan behind (dot ∷ next) w b) next)
  unfolding dot_case found_relative_ref
  dot_case-Progress behind [] w b text = ended fault refl (λ h. cc)
  dot_case-Progress behind (c ∷ xs) w b text =
      elim (Bool-cases (behind_satisfied behind && ends_component c)) [
        | inl found ↦
            let (at_start, ends) = two (behind_satisfied behind) (ends_component c) found in
            moved (scan (c ∷ dot ∷ behind) xs w b) (rw (dot_case, found) refl)
              (IsText-tail c xs text (end_size c ends)) (omega arith)
        | inr other ↦ rw (dot_case, other) (no_self-Progress behind (c ∷ xs) w b text)
      ]

  round_at-Progress :
      (behind ahead : List ℕ) (w : ℕ) (b : ℕ → ℕ)
      → IsText ahead
      → Progress (length ahead) (round_at a out_len 0 (scan behind ahead w b) ahead)
  unfolding round_at terminate
  round_at-Progress behind [] w b text = ended fault refl (λ h. cc)
  round_at-Progress behind (c ∷ next) w b text = elim (Bool-cases (c == null_terminator)) [
    | inl end ↦ elim (Bool-cases (ltb w out_len)) [
      | inl room ↦ ended (done libd_ok (put b w null_terminator)) (rw (end, room) refl) (λ h. cc)
      | inr full ↦ ended fault (rw (end, full) refl) (λ h. cc)
    ]
    | inr inside ↦ elim (Bool-cases (c == path_separator)) [
      | inl separates ↦
          rw (inside, separates)
            (separator_case-Progress (scan behind (c ∷ next) w b) next
              (IsText-tail c next text (rw ((==_iff c path_separator).0 separates) separator_size)))
      | inr other ↦ elim (Bool-cases (c == dot)) [
        | inl is_dot ↦
            rw (inside, other, is_dot, (==_iff c dot).0 is_dot)
              (dot_case-Progress behind next w b
                (IsText-tail c next text (rw ((==_iff c dot).0 is_dot) dot_size)))
        | inr letter ↦ rw (inside, other, letter) (write_char-Progress behind next c w b text)
      ]
    ]
  ]

  normalize_loop_ends :
      (fuel w : ℕ) (behind ahead : List ℕ) (b : ℕ → ℕ)
      → IsText ahead
      → length ahead < fuel
      → normalize_loop a out_len fuel 0 (scan behind ahead w b) ≢ out_of_fuel
  unfolding normalize_loop
  normalize_loop_ends zero w behind ahead b text enough = absurd (omega arith)
  normalize_loop_ends (suc fuel) w behind ahead b text enough =
      elim (round_at-Progress behind ahead w b text) [
        | ended o e some_end ↦ rw (normalize_loop, e) some_end
        | moved st e text' less ↦
            rw (normalize_loop, e)
              (normalize_loop_ends fuel st.write_pos st.behind st.ahead st.bytes text'
                (omega arith))
      ]

  -- Whatever the path is, with references, separators and terminators anywhere, wherever the two
  -- buffers lie and whatever room the output has: if the bytes of the object are whole UTF-8
  -- characters, `normalize` ends with fuel for one round more than there are bytes.
  pub normalize_ends :
      (fuel : ℕ) (out : Bool) (bytes : ℕ → ℕ) (object : List ℕ)
      → IsText object
      → length object < fuel
      → normalize a out_len fuel out bytes (some object) ≢ out_of_fuel
  unfolding normalize copy_prefix
  normalize_ends fuel out bytes [] text enough = elim (Bool-cases (not out || out_len == 0)) [
    | inl refused ↦ rw (normalize, refused) (λ h. cc)
    | inr accepted ↦ rw (normalize, accepted) (λ h. cc)
  ]
  normalize_ends fuel out bytes (c ∷ cs) text enough =
      elim (Bool-cases (not out || out_len == 0 || c == null_terminator)) [
        | inl refused ↦ rw (normalize, refused) (λ h. cc)
        | inr accepted ↦
            rw (normalize, accepted) (normalize_loop_ends fuel 0 [] (c ∷ cs) bytes text enough)
      ]
