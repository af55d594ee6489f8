-- ===== src/Kcf/Read.antt =====
-- kcf/read.c: reading records and their added data.
pub mod Header
pub mod SizeField
pub mod CrcField
pub mod AddedData
pub mod WholeHead
pub mod Malformed
pub mod Chunks
pub mod AnyStream
pub mod RoundTrip
pub mod AnyBytes
pub mod Skipping
pub mod Skipped
pub mod Errors
use kcf_old.Base.{
  ℕ, zero, suc, ◌+◌, ◌-◌, ◌%◌, ◌^◌, min, Bool, true, false, not, ◌&&◌, Option, none, some,
}
use kcf_old.Base.{List, [], length, take, replicate, overwrite, ltb, leb, ◌==◌, if◌then◌else◌}
use kcf_old.Base.{ℤ, pos, negsuc, is_neg, ltb_ℤ, ◌-ℤ◌, to_int64, to_size, Outcome, done}
use kcf_old.Env.{Env}
use kcf_old.Io.{io_read}
use kcf_old.Errors.{KcfError, invalid_parameter, invalid_state, out_of_memory, read}
use kcf_old.Bytes.{Reader, read_u8, read_u16, read_u32, read_u64}
use kcf_old.Record.{
  KcfRecord, flags_size, flags_size_4, flags_size_8, flags_crc, rec_has_added_size,
}
use kcf_old.Action.{
  Result, Action, ok, diverged, ◌>>=◌, ◌>>◌, pure, gets, modify, throw, fail_if, when,
}
use kcf_old.Action.{from_outcome, beside, with_local}
use kcf_old.Kcf.{
  Kcf, ParserState, pstate_is_reading, pstate_is, stream_read, malloc, set_parser_state,
}
use kcf_old.Kcf.{blank_record}

-- The value that a reader stores and the offset after it. An indeterminate value would be used at
-- once, so it counts as undefined behaviour.
abbrev stored : Bool × ℕ × Option ℕ → Outcome (ℕ × ℕ)
stored (success, off, none) = Outcome.undefined
stored (success, off, some v) = done (v, off)

-- `if (!block) return KCF_ERROR_OUT_OF_MEMORY;`
abbrev allocated : {St : Type 0} → Option (List ℕ) → Action St (List ℕ)
allocated none s = Result.fail out_of_memory s
allocated (some buf) s = ok buf s

abbrev is_zero : ℤ → Bool
is_zero (pos n) = n == 0
is_zero (negsuc n) = false

-- One round of the loop of `IO_skip` reads at most 4096 bytes.
abbrev skip_size : ℤ → ℤ
skip_size remaining = if ltb_ℤ remaining (pos 4096) then remaining else pos 4096

-- `crc32c(crc, Destination, n)`, undefined if the buffer is smaller.
abbrev crc_of_buffer : Env → ℕ → List ℕ → ℕ → Outcome ℕ
crc_of_buffer env crc buf n =
    if ltb (length buf) n then Outcome.undefined else done (env.crc32c crc (take n buf))

-- What is read into the buffer goes past it, which is undefined, if the buffer is smaller.
abbrev received : List ℕ → List ℕ → Outcome (List ℕ)
received buf got =
    if ltb (length buf) (length got) then Outcome.undefined else done (overwrite buf 0 got)

module _ {S : Type 0} where
  abbrev get : Reader → List ℕ → ℕ → ℕ → Action (Kcf S × KcfRecord) (ℕ × ℕ)
  get r buf size off = from_outcome (stored (r buf size off))

  abbrev pub set_record : (KcfRecord → KcfRecord) → Action (Kcf S × KcfRecord) (Unit {0})
  set_record f = modify λ s. (s.0, f s.1)

  -- `if (IO_read(kcf->Stream, buffer + off, n) < 0) return KCF_ERROR_READ;`
  abbrev fill : List ℕ → ℕ → ℕ → Action (Kcf S × KcfRecord) (List ℕ)
  fill buf off n = do
    (ret, bytes) ← beside (stream_read (pos n))
    fail_if (is_neg ret) read
    pure (overwrite buf off bytes)

  -- The six bytes that every head has.
  unfoldable pub read_fixed_fields : List ℕ → Action (Kcf S × KcfRecord) ℕ
  read_fixed_fields buf = do
    (crc, off) ← get read_u16 buf 6 0
    (type, off') ← get read_u8 buf 6 off
    (flags, off'') ← get read_u8 buf 6 off'
    (size, off''') ← get read_u16 buf 6 off''
    set_record (λ r. record r {
      head_crc = crc;
      head_type = type;
      head_flags = flags;
      head_size = size;
      added_size = 0;
    })
    pure off'''

  abbrev fill_if : Bool → List ℕ → ℕ → ℕ → Action (Kcf S × KcfRecord) (List ℕ)
  fill_if true buf off n = fill buf off n
  fill_if false buf off n = pure buf

  -- AddedSize, with 8, 4 or no bytes.
  unfoldable pub read_added_size : ℕ → List ℕ → ℕ → Action (Kcf S × KcfRecord) (List ℕ × ℕ)
  read_added_size flags buf off =
      if flags_size_8 flags
      then (do
        buf' ← fill buf (off + 4) 4
        (size, off') ← get read_u64 buf' 14 off
        set_record (λ r. record r { added_size = size })
        pure (buf', off'))
      else if flags_size_4 flags
      then (do
        (size, off') ← get read_u32 buf 14 off
        set_record (λ r. record r { added_size = size })
        pure (buf, off'))
      else pure (buf, off)

  abbrev set_crc32 : ℕ → Action (Kcf S × KcfRecord) (Unit {0})
  set_crc32 crc =
      modify λ s. (record (s.0) { added_data_crc32 = crc }, record (s.1) { added_data_crc32 = crc })

  -- AddedDataCRC32, if the head has it; otherwise it is 0 in the record and in the archive.
  unfoldable pub read_added_data_crc32 : ℕ → List ℕ → ℕ → Action (Kcf S × KcfRecord) ℕ
  read_added_data_crc32 flags buf off =
      if flags_crc flags
      then (do
        buf' ← fill buf off 4
        (crc, off') ← get read_u32 buf' 18 off
        set_crc32 crc
        pure off')
      else (do set_crc32 0; pure off)

  -- `read_record_header`, which returns HeaderSize.
  unfoldable pub read_record_header : Action (Kcf S × KcfRecord) ℕ
  unfolding read_fixed_fields read_added_size read_added_data_crc32
  read_record_header = do
    buf ← fill (replicate 18 0) 0 6
    off ← read_fixed_fields buf
    flags ← gets (λ s. s.1.head_flags)
    buf' ← fill_if (flags_size flags) buf off 4
    (buf'', off') ← read_added_size flags buf' off
    header_size ← read_added_data_crc32 flags buf'' off'
    beside (set_parser_state ParserState.read_record_data)
    pure header_size

  -- `KCF_read_record`; `nonnull` says that neither pointer is null.
  unfoldable pub kcf_read_record : Env → Bool → Action (Kcf S × KcfRecord) (Unit {0})
  unfolding read_record_header
  kcf_read_record env nonnull = do
    fail_if (not nonnull) invalid_parameter
    state ← gets (λ s. s.0.parser_state)
    fail_if (not (pstate_is_reading state)) invalid_state
    fail_if (not (pstate_is state ParserState.read_record_header)) invalid_state
    beside (
        modify λ k. record k {
          added_data_total = 0;
          added_data_done = 0;
          added_data_crc32 = 0;
          actual_added_data_crc32 = 0;
        })
    header_size ← read_record_header
    set_record (λ r. record r { data_size = (r.head_size + 2 ^ 64 - header_size) % 2 ^ 64 })
    size ← gets (λ s. s.1.data_size)
    block ← beside (malloc env size)
    set_record (λ r. record r { bytes = block })
    buf ← allocated block
    (ret, got) ← beside (stream_read (to_int64 size))
    set_record (λ r. record r { bytes = some (overwrite buf 0 got) })
    fail_if (is_neg ret) read
    has_added ← gets (λ s. rec_has_added_size (some (s.1)))
    beside (
        set_parser_state
          (if has_added then ParserState.read_added_data else ParserState.read_record_header))
    modify (λ s. (record (s.0) { added_data_total = s.1.added_size }, s.1))

  -- `IO_skip` with at most `fuel` rounds. It returns `ret`, which it never changes from 0.
  unfoldable pub io_skip : ℕ → ℤ → Action (Kcf S) ℤ
  io_skip zero remaining k = diverged
  io_skip (suc fuel) remaining k =
      let r = io_read k.stream (skip_size remaining) in
      let k' = record k { stream = r.2 } in
      let rest = io_skip fuel (remaining -ℤ r.0) k' in
      if is_neg r.0
      then ok (pos 0) k'
      else if ltb_ℤ (pos 0) (remaining -ℤ r.0)
      then rest
      else ok (pos 0) k'

  -- What there is to skip: a whole record, whose head is read, or the rest of its added data.
  unfoldable pub size_to_skip : ParserState → Action (Kcf S) ℕ
  unfolding read_record_header
  size_to_skip state =
      if pstate_is state ParserState.read_record_header
      then (do
        (header_size, header) ← with_local blank_record read_record_header
        pure ((header.head_size + 2 ^ 64 - header_size + header.added_size) % 2 ^ 64))
      else if pstate_is state ParserState.read_added_data
      then gets (λ k. k.added_data_total)
      else throw invalid_state

  -- `KCF_skip_record`: the test of IO_skip's result is that of the source, `!IO_skip(…)`.
  unfoldable pub kcf_skip_record : ℕ → Action (Kcf S) (Unit {0})
  kcf_skip_record fuel = do
    state ← gets (λ k. k.parser_state)
    fail_if (not (pstate_is_reading state)) invalid_state
    size ← size_to_skip state
    ret ← io_skip fuel (to_int64 size)
    fail_if (is_zero ret) read
    set_parser_state ParserState.read_record_header

  -- `KCF_is_added_data_available`; `none` is a null pointer.
  abbrev pub kcf_is_added_data_available : Option (Kcf S) → Bool
  kcf_is_added_data_available none = false
  kcf_is_added_data_available (some k) = ltb 0 k.added_data_total

  -- The part of `KCF_read_added_data` that reads; `size` is BufferSize after it has been cut down.
  -- `n_read < BufferSize` compares an int64_t with a size_t, so `n_read` is converted.
  unfoldable pub read_available : Env → List ℕ → ℕ → Action (Kcf S) (ℕ × List ℕ)
  read_available env destination size = do
    (n_read, got) ← stream_read (to_int64 size)
    buf ← from_outcome (received destination got)
    fail_if (ltb (to_size n_read) size) read
    modify (λ k. record k { added_data_total = k.added_data_total - size })
    crc ← gets (λ k. k.actual_added_data_crc32)
    crc' ← from_outcome (crc_of_buffer env crc buf (to_size n_read))
    modify (λ k. record k {
      actual_added_data_crc32 = crc';
      added_data_done = (k.added_data_done + to_size n_read) % 2 ^ 64;
    })
    available ← gets (λ k. k.added_data_total)
    when (available == 0) (set_parser_state ParserState.read_record_header)
    pure (to_size n_read, buf)

  unfoldable pub read_unless_done : Env → List ℕ → ℕ → ℕ → Action (Kcf S) (ℕ × List ℕ)
  read_unless_done env destination buffer_size available =
      if available == 0
      then (do
        modify (λ k. record k { reader_state = env.missing.rdstate_record_header })
        pure (0, destination))
      else read_available env destination
          (if ltb available buffer_size then available else buffer_size)

  -- `KCF_read_added_data` into a buffer with the bytes `destination`: it returns *BytesRead and the
  -- buffer. `nonnull` says that neither the archive nor Destination is null.
  unfoldable pub kcf_read_added_data : Env → Bool → List ℕ → ℕ → Action (Kcf S) (ℕ × List ℕ)
  kcf_read_added_data env nonnull destination buffer_size = do
    fail_if (not nonnull) invalid_parameter
    state ← gets (λ k. k.parser_state)
    fail_if (not (pstate_is_reading state)) invalid_state
    fail_if (not (pstate_is state ParserState.read_added_data)) invalid_state
    available ← gets (λ k. k.added_data_total)
    read_unless_done env destination buffer_size available
