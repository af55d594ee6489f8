-- ===== src/Kcf/Read/AnyStream.antt =====
-- `KCF_read_added_data` over any stream.
use kcf_old.Base.{
  ℕ, ◌+◌, ◌-◌, ◌%◌, ◌^◌, ◌≤◌, ◌<◌, ◌≡◌, refl, arith, true, false, List, [], ◌++◌, length, drop,
  length-append, take-append, overwrite, overwrite-append, Option, pos, to_int64, ltb, ◌==◌,
  le→ltb_false, ne→==_false, Bool-cases, inl, inr, if◌then◌else◌,
}
use kcf_old.Env.{Env}
use kcf_old.Errors.{read}
use kcf_old.Io.{Io, io_read}
use kcf_old.Action.{ok, fail}
use kcf_old.Kcf.{Kcf, ParserState}
use kcf_old.Kcf.Read.{kcf_read_added_data, read_unless_done, read_available}

-- What one call asks the stream for: no more than the buffer holds, and no more than is left.
abbrev pub asked : ℕ → ℕ → ℕ
asked total size = if ltb total size then total else size

module _ {S : Type 0} (env : Env) (k : Kcf S) (stream' : Option (Io S)) where
  abbrev pub reading : Kcf S
  reading = record k { parser_state = ParserState.read_added_data }

  abbrev pub after_piece : List ℕ → Kcf S
  after_piece got = record k {
    stream = stream';
    added_data_total = k.added_data_total - length got;
    added_data_done = k.added_data_done + length got;
    actual_added_data_crc32 = env.crc32c k.actual_added_data_crc32 got;
    parser_state =
        if k.added_data_total - length got == 0
        then ParserState.read_record_header
        else ParserState.read_added_data;
  }

  -- What `kcf_read_added_data` does on any stream, a pipe or a socket as well as a file, that
  -- answers its read with no more bytes than were asked for: if it gave them all, they are in the
  -- buffer's front, as many are counted off what is left and on to what has been read, the CRC is
  -- continued over them, and the archive expects a record exactly if nothing is left; if it gave
  -- fewer, the call fails with KCF_ERROR_READ, although the stream has moved, and none of them is
  -- counted. So the sum of what has been read and what is left never changes. Conditions: the
  -- archive is reading added data and some is left, the size that is asked for fits the buffer,
  -- and the record's added data has less than 2^63 bytes.
  pub kcf_read_added_data-any_stream :
      (buffer got : List ℕ) (size : ℕ)
      → 0 < k.added_data_total
      → k.added_data_done + k.added_data_total < 2 ^ 63
      → size ≤ length buffer
      → io_read k.stream (to_int64 (asked k.added_data_total size))
        ≡ (pos (length got), got, stream')
      → length got ≤ asked k.added_data_total size
      → kcf_read_added_data env true buffer size reading ≡ (
          if ltb (length got) (asked k.added_data_total size)
          then fail read (record reading { stream = stream' })
          else ok (length got, got ++ drop (length got) buffer) (after_piece got))
  unfolding kcf_read_added_data read_unless_done read_available
  kcf_read_added_data-any_stream buffer got size some_data small room answer within =
      let n = asked k.added_data_total size in
      let left : n ≤ k.added_data_total = ground arith in
      let fits : n ≤ size = ground arith in
      let holds = le→ltb_false (length buffer) (length got) (omega (arith, within, fits)) in
      let start = ne→==_false k.added_data_total 0 (omega arith) in
      elim (Bool-cases (ltb (length got) n)) [
        | inl short ↦ rw (start, answer, holds, short) refl
        | inr full ↦
            (let same : n ≡ length got = ground arith in
              let done : (k.added_data_done + length got) % 2 ^ 64
                  ≡ k.added_data_done + length got =
                omega (arith, left, same) in
              let over : overwrite buffer 0 got ≡ got ++ drop (length got) buffer =
                overwrite-append [] buffer got in
              let whole : ltb (length (got ++ drop (length got) buffer)) (length got) ≡ false =
                le→ltb_false (length (got ++ drop (length got) buffer)) (length got)
                  (omega (arith, length-append got (drop (length got) buffer))) in
              rw (start, answer, holds, full, same, over, whole, take-append, done) (ground arith))
      ]
