-- ===== src/Kcf/Read/Skipped.antt =====
-- `IO_skip` over a file, and what `KCF_skip_record` makes of it.
use kcf_old.Base.{
  ℕ, zero, suc, ◌+◌, ◌-◌, ◌*◌, ◌^◌, ◌≤◌, ◌<◌, ◌≡◌, refl, arith, true, length, drop, length-take,
  length-drop, pos, ltb, ltb_ℤ, ◌-ℤ◌, to_int64-small, Bool-cases, inl, inr, if◌then◌else◌,
}
use kcf_old.Errors.{read}
use kcf_old.Action.{ok, fail}
use kcf_old.Io.Stdio.{File}
use kcf_old.Io.OnFile.{io_read-file, next_bytes}
use kcf_old.Kcf.{Kcf, ParserState}
use kcf_old.Kcf.Read.{io_skip, size_to_skip, kcf_skip_record}
use kcf_old.Kcf.Read.Header.{at}
use kcf_old.Kcf.Read.Skipping.{skip_size-pos}

-- The bytes of one round.
abbrev round_size : ℕ → ℕ
round_size n = if ltb n 4096 then n else 4096

module _ (k : Kcf File) (f : File) (fl : ℕ) (can : f.can_read ≡ true) where
  got-size :
      (n p : ℕ) → p + n ≤ length f.content → length (next_bytes (record f { position = p }) n) ≡ n
  got-size n p there = omega (arith, length-take n (drop p f.content), length-drop p f.content)

  -- Over a file that has the bytes, `io_skip` ends within a round for every 4096 of them, exactly
  -- behind them.
  pub io_skip-file :
      (fuel n p : ℕ)
      → p + n ≤ length f.content
      → n ≤ 4096 * suc fuel
      → io_skip (suc fuel) (pos n) (at k f fl p) ≡ ok (pos 0) (at k f fl (p + n))
  unfolding io_skip
  io_skip-file zero n p there enough =
      let m = round_size n in
      let whole : m ≡ n = ground arith in
      let done : pos n -ℤ pos n ≡ pos 0 = ground arith in
      rw
        (
          skip_size-pos n,
          whole,
          io_read-file (record f { position = p }) fl n can,
          got-size n p there,
          done,
        )
        refl
  io_skip-file (suc fuel) n p there enough = elim (Bool-cases (ltb 4096 n)) [
    | inl more ↦
        (let m : round_size n ≡ 4096 = ground arith in
          let left : pos n -ℤ pos 4096 ≡ pos (n - 4096) = ground arith in
          let go_on : ltb_ℤ (pos 0) (pos (n - 4096)) ≡ true = ground arith in
          let far : p + 4096 + (n - 4096) ≡ p + n = ground arith in
          rw
            (
              skip_size-pos n,
              m,
              io_read-file (record f { position = p }) fl 4096 can,
              got-size 4096 p (ground arith),
              left,
              go_on,
              io_skip-file fuel (n - 4096) (p + 4096) (ground arith) (ground arith),
              far,
            )
            refl)
    | inr last ↦
        (let m : round_size n ≡ n = ground arith in
          let done : pos n -ℤ pos n ≡ pos 0 = ground arith in
          rw
            (
              skip_size-pos n,
              m,
              io_read-file (record f { position = p }) fl n can,
              got-size n p there,
              done,
            )
            refl)
  ]

module _ (k : Kcf File) (f : File) (fl : ℕ) (can : f.can_read ≡ true) where
  -- `kcf_skip_record` moves the stream behind the added data and then returns KCF_ERROR_READ, with
  -- the archive still expecting the added data.
  pub kcf_skip_record-skips :
      (fuel n p : ℕ)
      → p + n ≤ length f.content
      → n ≤ 4096 * suc fuel
      → n < 2 ^ 63
      → kcf_skip_record (suc fuel) (
          at (record k { parser_state = ParserState.read_added_data; added_data_total = n }) f fl p)
        ≡ fail read (
            at
              (record k { parser_state = ParserState.read_added_data; added_data_total = n })
              f
              fl
              (p + n))
  unfolding kcf_skip_record size_to_skip
  kcf_skip_record-skips fuel n p there enough small =
      rw
        (
          to_int64-small n small,
          io_skip-file
              (record k { parser_state = ParserState.read_added_data; added_data_total = n }) f fl
              can fuel n p there enough,
        )
        refl
