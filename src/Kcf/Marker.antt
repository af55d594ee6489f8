-- ===== src/Kcf/Marker.antt =====
-- kcf/marker.c: finding and writing the archive marker. The source's members ReaderState and
-- WriterState, and their constants, are declared nowhere: they are fields and parameters of their own.
pub mod Search
use kcf_old.Base.{
  ℕ, zero, suc, Bool, true, false, not, ◌&&◌, ◌||◌, List, [], ◌∷◌, ◌==◌, if◌then◌else◌,
}
use kcf_old.Base.{ℤ, pos, negsuc, is_neg, get_elem?, Option, none, some}
use kcf_old.Env.{Env}
use kcf_old.Errors.{invalid_state, invalid_format, read, write}
use kcf_old.Io.{io_read}
use kcf_old.Action.{Result, Action, ok, diverged, ◌>>=◌, ◌>>◌, pure, gets, modify, throw, fail_if}
use kcf_old.Kcf.{Kcf, stream_write}

-- MARKER_1 to MARKER_6
abbrev pub marker_bytes : List ℕ
marker_bytes = b'K' ∷ b'C' ∷ b'!' ∷ 0x1A ∷ 0x06 ∷ 0x00 ∷ []

-- `uint8_t buf[6]`
pub record Window : Type 0 where
  pub b0 : ℕ
  pub b1 : ℕ
  pub b2 : ℕ
  pub b3 : ℕ
  pub b4 : ℕ
  pub b5 : ℕ

abbrev pub empty_window : Window
empty_window = record { b0 = 0; b1 = 0; b2 = 0; b3 = 0; b4 = 0; b5 = 0 }

unfoldable pub is_marker : Window → Bool
is_marker w =
    w.b0 == b'K'
    && (w.b1 == b'C' && (w.b2 == b'!' && (w.b3 == 0x1A && (w.b4 == 0x06 && w.b5 == 0x00))))

-- The shift of the window, with what the read then puts into buf[5]: nothing if it gave no byte.
unfoldable pub shift : Window → List ℕ → Window
shift w [] = record { b0 = w.b1; b1 = w.b2; b2 = w.b3; b3 = w.b4; b4 = w.b5; b5 = w.b5 }
shift w (x ∷ xs) = record { b0 = w.b1; b1 = w.b2; b2 = w.b3; b3 = w.b4; b4 = w.b5; b5 = x }

-- `ret > 0`
abbrev is_positive : ℤ → Bool
is_positive (pos zero) = false
is_positive (pos (suc n)) = true
is_positive (negsuc n) = false

-- `ret == -1`
abbrev is_minus_one : ℤ → Bool
is_minus_one (pos n) = false
is_minus_one (negsuc n) = n == 0

module _ {S : Type 0} where
  -- The loop of `KCF_find_marker` with at most `fuel` rounds: the value says whether the marker was
  -- found.
  unfoldable pub find_loop : ℕ → Window → Action (Kcf S) (Unit {0})
  find_loop zero w k = diverged
  find_loop (suc fuel) w k =
      let r = io_read k.stream (pos 1) in
      let k' = record k { stream = r.2 } in
      let rest = find_loop fuel (shift w r.1) k' in
      if is_marker w
      then ok tt k
      else if is_positive r.0
      then rest
      else if is_minus_one r.0
      then Result.fail read k'
      else Result.fail invalid_format k'

  -- `KCF_find_marker`
  unfoldable pub kcf_find_marker : Env → ℕ → Action (Kcf S) (Unit {0})
  unfolding find_loop
  kcf_find_marker env fuel = do
    writing ← gets (λ k. k.is_writing)
    reader_state ← gets (λ k. k.reader_state)
    fail_if (writing || not (reader_state == env.missing.rdstate_marker)) invalid_state
    find_loop fuel empty_window
    modify (λ k. record k { reader_state = env.missing.rdstate_record_header })

  -- `KCF_write_marker`
  unfoldable pub kcf_write_marker : Env → Action (Kcf S) (Unit {0})
  kcf_write_marker env = do
    writing ← gets (λ k. k.is_writing)
    writer_state ← gets (λ k. k.writer_state)
    fail_if (not writing || not (writer_state == env.missing.wrstate_marker)) invalid_state
    ret ← stream_write marker_bytes (pos 6)
    fail_if (is_neg ret) write
    modify (λ k. record k { writer_state = env.missing.wrstate_idle })
