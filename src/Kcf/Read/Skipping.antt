-- ===== src/Kcf/Read/Skipping.antt =====
-- `IO_skip` and `KCF_skip_record`.
use kcf_old.Base.{ℕ, zero, suc, ◌≡◌, refl, false, not, ℤ, pos, is_neg, ltb_ℤ, ◌-ℤ◌, to_int64}
use kcf_old.Base.{Bool-cases, inl, inr}
use kcf_old.Io.{io_read}
use kcf_old.Io.Stdio.{File}
use kcf_old.Io.OnFile.{file_stream, next_bytes, io_read-file}
use kcf_old.Base.{
  true, if◌then◌else◌, ◌+◌, ◌≤◌, ◌<◌, arith, ltb, [], length, drop_all, take_all, lt→ltb,
}
use kcf_old.Errors.{read, invalid_state}
use kcf_old.Action.{Action, diverged, bind, fail_if, ◌>>◌, is_ok, is_ok-bind}
use kcf_old.Kcf.{Kcf, ParserState, set_parser_state, pstate_is_reading}
use kcf_old.Kcf.Read.{io_skip, skip_size, size_to_skip, kcf_skip_record, is_zero}

-- What `KCF_skip_record` does after the call of `IO_skip`.
abbrev after_skip : {S : Type 0} → ℤ → Action (Kcf S) (Unit {0})
after_skip ret = fail_if (is_zero ret) read >> set_parser_state ParserState.read_record_header

module _ {S : Type 0} where
  io_skip-zero :
      (fuel : ℕ) (remaining : ℤ) (k : Kcf S)
      → is_ok (bind (io_skip fuel remaining k) after_skip) ≡ false
  unfolding io_skip
  io_skip-zero zero remaining k = refl
  io_skip-zero (suc fuel) remaining k =
      let r = io_read k.stream (skip_size remaining) in
      elim (Bool-cases (is_neg r.0)) [
        | inl failed ↦ rw failed refl
        | inr got ↦ elim (Bool-cases (ltb_ℤ (pos 0) (remaining -ℤ r.0))) [
          | inl more ↦
              rw (got, more) (io_skip-zero fuel (remaining -ℤ r.0) (record k { stream = r.2 }))
          | inr last ↦ rw (got, last) refl
        ]
      ]

  -- `kcf_skip_record` never returns KCF_ERROR_OK, on any stream and from any state, however many
  -- rounds its loop may take.
  pub kcf_skip_record-is_ok : (fuel : ℕ) (k : Kcf S) → is_ok (kcf_skip_record fuel k) ≡ false
  unfolding kcf_skip_record
  kcf_skip_record-is_ok fuel k =
      is_ok-bind (fail_if (not (pstate_is_reading k.parser_state)) invalid_state k) _ λ u s.
        is_ok-bind (size_to_skip k.parser_state s) _ λ size s'. io_skip-zero fuel (to_int64 size) s'

pub skip_size-pos : (n : ℕ) → skip_size (pos n) ≡ pos (if ltb n 4096 then n else 4096)
skip_size-pos n = ground arith

nothing_left : (f : File) (m : ℕ) → length f.content ≤ f.position → next_bytes f m ≡ []
nothing_left f m h = rw (drop_all f.position f.content h) (take_all m [] (omega arith))

-- At the end of a file that can be read, `io_skip` with something to skip does not end, however
-- many rounds its loop may take.
pub io_skip-at_end :
    (fuel n : ℕ) (k : Kcf File) (f : File) (flags : ℕ)
    → f.can_read ≡ true
    → length f.content ≤ f.position
    → 0 < n
    → io_skip fuel (pos n) (record k { stream = file_stream f flags }) ≡ diverged
unfolding io_skip
io_skip-at_end zero n k f flags can h some = refl
io_skip-at_end (suc fuel) n k f flags can h some =
    let m = if ltb n 4096 then n else 4096 in
    let same : f.position + 0 ≡ f.position = omega arith in
    let unchanged : pos n -ℤ pos 0 ≡ pos n = ground arith in
    let more : ltb_ℤ (pos 0) (pos n) ≡ true = ground (arith, lt→ltb 0 n some) in
    rw (skip_size-pos n, io_read-file f flags m can, nothing_left f m h, same, unchanged, more)
      (io_skip-at_end fuel n k f flags can h some)
