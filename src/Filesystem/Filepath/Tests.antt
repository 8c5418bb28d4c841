-- ===== src/Filesystem/Filepath/Tests.antt =====
-- The table of tests/filesystem/test_filepath.c. Its literals end in two terminators.
use Prim.Native.String.{String}
use Prim.Native.Char.{code}
use libdane.Base.{
  ℕ, ◌+◌, ◌≡◌, refl, arith, Bool, true, false, ◌&&◌, some, List, [], ◌∷◌, ◌++◌, ◌==◌,
}
use libdane.Common.{libd_ok, libd_invalid_path}
use libdane.Utils.Encodings.{utf8_char_len, utf8_write_char, copy_bytes}
use libdane.Platform.Paths.{write_char_encoding_to}
use libdane.Filesystem.PlatformWrap.{write_char_to}
use libdane.Filesystem.Filepath.Stuck.{normalize_loop_stuck}
use libdane.Filesystem.Filepath.{
  fault, out_of_fuel, Addresses, Outcome, done, found_relative_ref, found_parent_ref,
  skip_separators, back_up, write_char, parent_ref, dot_case, separator_case, terminate, round_at,
  normalize_loop, copy_prefix, normalize,
}

abbrev codes : String → List ℕ
codes String.[] = []
codes (String.◌∷◌ c s) = code c ∷ codes s

-- A buffer on the stack above the literals.
abbrev stack : Addresses
stack = record { out_path = 0x7000; input_path = 0x4000 }

same : List ℕ → (ℕ → ℕ) → ℕ → Bool
same [] bytes at = bytes at == 0
same (c ∷ cs) bytes at = bytes at == c && same cs bytes (at + 1)

-- Whether the call returns `libd_ok` with that path.
gives : Outcome → String → Bool
unfolding same
gives (done libd_ok bytes) s = same (codes s) bytes 0
gives _ s = false

refuses : Outcome → Bool
refuses (done libd_invalid_path bytes) = true
refuses _ = false

run : String → Outcome
unfolding normalize copy_prefix normalize_loop round_at terminate separator_case dot_case parent_ref
    write_char back_up skip_separators found_parent_ref found_relative_ref write_char_to
    write_char_encoding_to utf8_write_char utf8_char_len copy_bytes
run s = normalize stack 256 100 true (λ q. 7) (some (codes s ++ 0 ∷ 0 ∷ []))

separators :
    (gives (run "/a") "/a" ≡ true)
    × (gives (run "//a") "/a" ≡ true)
    × (gives (run "a//") "a/" ≡ true)
    × (gives (run "a//b") "a/b" ≡ true)
    × (gives (run "/////a////b///c") "/a/b/c" ≡ true)
unfolding run gives
separators = (refl, refl, refl, refl, refl)

relative :
    (gives (run "./a") "a" ≡ true)
    × (gives (run "a/./././b") "a/b" ≡ true)
    × (gives (run "a/b/./") "a/b/" ≡ true)
    × (gives (run ".") "" ≡ true)
    × (refuses (run "./../") ≡ true)
unfolding run gives refuses
relative = (refl, refl, refl, refl, refl)

parent :
    (refuses (run "../a") ≡ true)
    × (gives (run "/a/../") "/" ≡ true)
    × (gives (run "/a/b/../../") "/" ≡ true)
    × (gives (run "/a/b/..") "/a/" ≡ true)
    × (gives (run "/a/b/../.") "/a/" ≡ true)
    × (refuses (run "/../") ≡ true)
unfolding run gives refuses
parent = (refl, refl, refl, refl, refl, refl)

mixed :
    (gives (run "a//b/./c/../d//") "a/b/d/" ≡ true)
    × (gives (run "///a//././b/../../c") "/c" ≡ true)
    × (gives (run "/a/.b/.c/..") "/a/.b/" ≡ true)
    × (gives (run ".///a//b") "/a/b" ≡ true)
    × (gives (run "/.../../a") "/a" ≡ true)
    × (gives (run "a/..hidden") "a/..hidden" ≡ true)
    × (gives (run "a/b/c/d/e/f/../../../../../") "a/" ≡ true)
    × (gives (run "/$$/./..") "/" ≡ true)
unfolding run gives
mixed = (refl, refl, refl, refl, refl, refl, refl, refl)

-- A separator behind a reference is written a second time.
doubled : gives (run "a/.//b") "a//b" ≡ true
unfolding run gives
doubled = refl

-- With one terminator, the last byte of its object, a reference at the end of the path is read past.
run_exact : String → Outcome
unfolding normalize copy_prefix normalize_loop round_at terminate separator_case dot_case parent_ref
    write_char back_up skip_separators found_parent_ref found_relative_ref write_char_to
    write_char_encoding_to utf8_write_char utf8_char_len copy_bytes
run_exact s = normalize stack 256 100 true (λ q. 7) (some (codes s ++ 0 ∷ []))

past_terminator : (run_exact "a/." ≡ fault) × (run_exact "/a/.." ≡ fault)
unfolding run_exact
past_terminator = (refl, refl)

-- The first component of a relative path cannot be removed without a read before the output.
before_output : run "aa/../" ≡ fault
unfolding run
before_output = refl

lone_continuation : utf8_char_len 0x82 ≡ 0
unfolding utf8_char_len
lone_continuation = refl

normalize_loop_stuck_example :
    normalize_loop stack 256 1000 0
      (record { behind = []; ahead = 0x82 ∷ 0 ∷ []; write_pos = 0; bytes = λ q. 7 })
    ≡ out_of_fuel
normalize_loop_stuck_example =
    normalize_loop_stuck stack 256 1000 0 0 0x82 [] (0 ∷ []) (λ q. 7) lone_continuation
      (omega arith) (omega arith) (omega arith) (omega arith)
