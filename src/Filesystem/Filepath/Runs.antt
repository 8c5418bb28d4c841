-- ===== src/Filesystem/Filepath/Runs.antt =====
-- Runs of the loop of `normalize`, and what a round does at each part of a path.
use libdane.Base.{
  ℕ, suc, ◌+◌, ◌-◌, ◌≤◌, ◌<◌, ◌≡◌, refl, ap, ◌∙◌, arith, Bool, List, ◌∷◌, length, ◌==◌,
}
use libdane.Platform.Paths.{path_separator}
use libdane.Utils.Encodings.{put}
use libdane.Filesystem.Filepath.{
  Addresses, State, more, write_char, round_at, normalize_loop, behind_satisfied,
}
use libdane.Filesystem.Filepath.Steps.{write_char_ascii}
use libdane.Filesystem.Filepath.Written.{written, written-put}

abbrev pub scan : List ℕ → List ℕ → ℕ → (ℕ → ℕ) → State
scan behind ahead w bytes = record { behind = behind; ahead = ahead; write_pos = w; bytes = bytes }

module _ (a : Addresses) (out_len : ℕ) where
  -- At most `n` rounds lead from one state to the other: fuel for `n` rounds and more leaves that and
  -- some extra.
  abbrev pub Runs : ℕ → State → State → Type 0
  Runs n s t =
      (fuel : ℕ)
      → (extra : ℕ) × (normalize_loop a out_len (n + fuel) 0 s
          ≡ normalize_loop a out_len (extra + fuel) 0 t)

  pub Runs-one : (s t : State) → round_at a out_len 0 s s.ahead ≡ more t → Runs 1 s t
  unfolding normalize_loop
  Runs-one s t e fuel = (0, rw (next, same, normalize_loop, e) refl)
    where
      same : 0 + fuel ≡ fuel
      same = omega arith

      next : 1 + fuel ≡ suc fuel
      next = omega arith

  -- At most `n` rounds lead to a position with these bytes ahead and the output `out`, the last byte first.
  -- `first` says that a component starts there.
  pub record Scanned (n : ℕ) (first : Bool) (ahead out : List ℕ) (s : State) : Type 0 where
    pub behind : List ℕ
    pub bytes : ℕ → ℕ
    pub runs : Runs n s (scan behind ahead (length out) bytes)
    pub place : behind_satisfied behind ≡ first
    pub holds : written bytes (length out) ≡ out

  pub Scanned-none :
      (behind ahead out : List ℕ) (bytes : ℕ → ℕ) (first : Bool)
      → behind_satisfied behind ≡ first
      → written bytes (length out) ≡ out
      → Scanned 0 first ahead out (scan behind ahead (length out) bytes)
  Scanned-none behind ahead out bytes first place holds = record {
    behind = behind;
    bytes = bytes;
    runs = λ fuel. (0, refl);
    place = place;
    holds = holds;
  }

  pub Scanned-weaken :
      {m : ℕ} {first : Bool} {ahead out : List ℕ} {s : State} (n : ℕ)
      → m ≤ n
      → Scanned m first ahead out s
      → Scanned n first ahead out s
  Scanned-weaken {m} n le q = record {
    behind = q.behind;
    bytes = q.bytes;
    place = q.place;
    holds = q.holds;
    runs = λ fuel.
        let (extra, e) = q.runs (n - m + fuel) in
        (extra + (n - m), rw (before fuel, after extra fuel) e);
  }
    where
      before : (fuel : ℕ) → n + fuel ≡ m + (n - m + fuel)
      before fuel = omega arith

      after : (extra fuel : ℕ) → extra + (n - m) + fuel ≡ extra + (n - m + fuel)
      after extra fuel = omega arith

  pub Scanned-trans :
      {m n : ℕ} {first first' : Bool} {ahead ahead' out out' : List ℕ} {s : State}
      → Scanned m first ahead out s
      → ((behind : List ℕ) (bytes : ℕ → ℕ)
          → behind_satisfied behind ≡ first
          → written bytes (length out) ≡ out
          → Scanned n first' ahead' out' (scan behind ahead (length out) bytes))
      → Scanned (m + n) first' ahead' out' s
  Scanned-trans {m} {n} r k =
      let q = k r.behind r.bytes r.place r.holds in
      record {
        behind = q.behind;
        bytes = q.bytes;
        runs = λ fuel.
            let (x, e) = r.runs (n + fuel) in
            let (y, e') = q.runs (x + fuel) in
            (y + x, rw (group fuel, after y x fuel) (e ∙ rw (swap x fuel) e'));
        place = q.place;
        holds = q.holds;
      }
    where
      group : (fuel : ℕ) → m + n + fuel ≡ m + (n + fuel)
      group fuel = omega arith

      swap : (x fuel : ℕ) → x + (n + fuel) ≡ n + (x + fuel)
      swap x fuel = omega arith

      after : (y x fuel : ℕ) → y + x + fuel ≡ y + (x + fuel)
      after y x fuel = omega arith

  -- A round that writes an ASCII byte.
  pub Scanned-byte :
      (s : State) (c : ℕ) (behind next out : List ℕ) (bytes : ℕ → ℕ)
      → c < 0x80
      → length out + 1 < out_len
      → written bytes (length out) ≡ out
      → round_at a out_len 0 s s.ahead
        ≡ write_char a out_len (scan behind (c ∷ next) (length out) bytes)
      → Scanned 1 (c == path_separator) next (c ∷ out) s
  Scanned-byte s c behind next out bytes ascii room holds round = record {
    behind = c ∷ behind;
    bytes = put bytes (length out) c;
    runs = Runs-one s _ (
        round
        ∙ write_char_ascii a out_len behind next (length out) c bytes ascii room
        ∙ rw length_next refl);
    place = refl;
    holds = written-put bytes (length out) c ∙ ap (λ xs. c ∷ xs) holds;
  }
    where
      length_next : length out + 1 ≡ suc (length out)
      length_next = omega arith
