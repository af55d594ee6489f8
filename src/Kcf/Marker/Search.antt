-- ===== src/Kcf/Marker/Search.antt =====
-- `KCF_find_marker` on a file against a plain search for the six bytes of the marker.
use kcf_old.Base.{ℕ, zero, suc, ◌+◌, ◌<◌, ◌≡◌, refl, sym, ap, ◌∙◌, arith, true, ◌&&◌}
use kcf_old.Base.{
  List, [], ◌∷◌, Option, none, some, length, drop, drop-drop, ◌==◌, if◌then◌else◌, Bool-cases, inl,
  inr,
}
use native.Mathlib.Nat.{add-zero}
use mathlib.Core.Path.{subst}
use kcf_old.Errors.{invalid_format}
use kcf_old.Action.{Result, ok, fail}
use kcf_old.Io.Stdio.{File}
use kcf_old.Io.OnFile.{file_stream, io_read-file}
use kcf_old.Kcf.{Kcf}
use kcf_old.Kcf.Marker.{Window, empty_window, is_marker, shift, find_loop}

-- The bytes behind the first occurrence of the marker, if there is one.
unfoldable pub after_marker : List ℕ → Option (List ℕ)
after_marker [] = none
after_marker (a ∷ []) = none
after_marker (a ∷ b ∷ []) = none
after_marker (a ∷ b ∷ c ∷ []) = none
after_marker (a ∷ b ∷ c ∷ d ∷ []) = none
after_marker (a ∷ b ∷ c ∷ d ∷ e ∷ []) = none
after_marker (a ∷ b ∷ c ∷ d ∷ e ∷ f ∷ xs) =
    if a == b'K' && (b == b'C' && (c == b'!' && (d == 0x1A && (e == 0x06 && f == 0x00))))
    then some xs
    else after_marker (b ∷ c ∷ d ∷ e ∷ f ∷ xs)

-- The window and the bytes behind it.
abbrev window_bytes : Window → List ℕ → List ℕ
window_bytes w xs = w.b0 ∷ w.b1 ∷ w.b2 ∷ w.b3 ∷ w.b4 ∷ w.b5 ∷ xs

-- An archive that reads a file with `rest` still before it.
abbrev reading : Kcf File → File → ℕ → Kcf File
reading k f flags = record k { stream = file_stream f flags }

-- The loop with a list in place of the file: what is left, or nothing.
plain_loop : Window → List ℕ → Option (List ℕ)
plain_loop w [] = if is_marker w then some [] else none
plain_loop w (x ∷ xs) =
    let rest = plain_loop (shift w (x ∷ [])) xs in if is_marker w then some (x ∷ xs) else rest

plain_loop-after_marker :
    (w : Window) (xs : List ℕ) → plain_loop w xs ≡ after_marker (window_bytes w xs)
unfolding plain_loop after_marker shift is_marker
plain_loop-after_marker w [] = ground arith
plain_loop-after_marker w (x ∷ xs) = ground (arith, plain_loop-after_marker (shift w (x ∷ [])) xs)

after_marker-zero : (xs : List ℕ) → after_marker (0 ∷ xs) ≡ after_marker xs
unfolding after_marker
after_marker-zero [] = refl
after_marker-zero (a ∷ []) = refl
after_marker-zero (a ∷ b ∷ []) = refl
after_marker-zero (a ∷ b ∷ c ∷ []) = refl
after_marker-zero (a ∷ b ∷ c ∷ d ∷ []) = refl
after_marker-zero (a ∷ b ∷ c ∷ d ∷ e ∷ xs) = refl

-- The window of zeros that the loop begins with is no part of a marker.
after_marker-zeros : (xs : List ℕ) → after_marker (window_bytes empty_window xs) ≡ after_marker xs
after_marker-zeros xs =
    after_marker-zero (0 ∷ 0 ∷ 0 ∷ 0 ∷ 0 ∷ xs)
    ∙ after_marker-zero (0 ∷ 0 ∷ 0 ∷ 0 ∷ xs)
    ∙ after_marker-zero (0 ∷ 0 ∷ 0 ∷ xs)
    ∙ after_marker-zero (0 ∷ 0 ∷ xs)
    ∙ after_marker-zero (0 ∷ xs)
    ∙ after_marker-zero xs

-- The archive when the file has been read up to `p`.
abbrev pub read_up_to : Kcf File → File → ℕ → ℕ → Kcf File
read_up_to k f flags p = reading k (record f { position = p }) flags

-- How a search ends on a file with these contents: behind the first marker, or at the end with an
-- error. `at p` is the state with the file's position at `p`.
abbrev pub Ends : Option (List ℕ) → (ℕ → Kcf File) → List ℕ → Result (Kcf File) (Unit {0}) → Type 0
Ends (some post) at content r = (p : ℕ) × (r ≡ ok tt (at p)) × (drop p content ≡ post)
Ends none at content r = (p : ℕ) × (r ≡ fail invalid_format (at p)) × (drop p content ≡ [])

find_loop-Ends :
    (xs : List ℕ) (fuel : ℕ) (w : Window) (k : Kcf File) (f : File) (flags : ℕ)
    → length xs < fuel
    → f.can_read ≡ true
    → drop f.position f.content ≡ xs
    → Ends (plain_loop w xs) (read_up_to k f flags) f.content (find_loop fuel w (reading k f flags))
unfolding find_loop plain_loop
find_loop-Ends xs zero w k f flags h can e = absurd (omega arith)
find_loop-Ends [] (suc fuel) w k f flags h can e = elim (Bool-cases (is_marker w)) [
  | inl found ↦ rw found (f.position, refl, e)
  | inr missing ↦
      rw (missing, io_read-file f flags 1 can, e) (f.position + 0, refl, rw (add-zero f.position) e)
]
find_loop-Ends (x ∷ xs) (suc fuel) w k f flags h can e = elim (Bool-cases (is_marker w)) [
  | inl found ↦ rw found (f.position, refl, e)
  | inr missing ↦
      rw (missing, io_read-file f flags 1 can, e)
        (find_loop-Ends xs fuel (shift w (x ∷ [])) k (record f { position = f.position + 1 }) flags
          (omega arith) can (sym (drop-drop f.position 1 f.content) ∙ ap (drop 1) e))
]

-- On a file that can be read, the loop of `kcf_find_marker` with more rounds than there are bytes
-- left ends like a plain search for the six bytes of the marker: it returns with the file's
-- position right behind the first occurrence of the marker, or at the file's end with
-- KCF_ERROR_INVALID_FORMAT if the marker does not occur.
pub find_loop-after_marker :
    (fuel : ℕ) (k : Kcf File) (f : File) (flags : ℕ)
    → length (drop f.position f.content) < fuel
    → f.can_read ≡ true
    → Ends
        (after_marker (drop f.position f.content))
        (read_up_to k f flags)
        f.content
        (find_loop fuel empty_window (record k { stream = file_stream f flags }))
find_loop-after_marker fuel k f flags enough can =
    let rest = drop f.position f.content in
    subst
      (λ o.
        Ends o (read_up_to k f flags) f.content (find_loop fuel empty_window (reading k f flags)))
      (plain_loop-after_marker empty_window rest ∙ after_marker-zeros rest)
      (find_loop-Ends rest fuel empty_window k f flags enough can refl)
