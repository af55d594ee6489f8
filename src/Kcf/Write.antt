-- ===== src/Kcf/Write.antt =====
-- kcf/write.c: writing records and their added data.
pub mod OnFile
pub mod Session
pub mod Finish
pub mod WithData
pub mod Announced
pub mod RoundTrip
use kcf_old.Base.{
  ℕ, ◌+◌, ◌-◌, ◌%◌, ◌^◌, bit_and, bit_or, Bool, true, false, not, ◌&&◌, Option, none, some,
}
use kcf_old.Base.{
  List, [], length, take, ltb, ◌==◌, if◌then◌else◌, ℤ, is_neg, to_int64, to_size, Outcome, done,
}
use kcf_old.Env.{Env}
use kcf_old.Errors.{KcfError, invalid_state, out_of_memory, write}
use kcf_old.Io.{seek_set}
use kcf_old.Record.{KcfRecord, KcfArchiveHeader, rec_fix, rec_copy, rec_clear, rec_to_buffer}
use kcf_old.Record.{flags_size, flags_crc, has_added_size_4_flag, has_added_size_8_flag}
use kcf_old.ArchiveHeader.{rec_from_archive_header}
use kcf_old.Action.{Result, Action, ok, ◌>>=◌, ◌>>◌, pure, gets, modify, fail_if, when}
use kcf_old.Action.{from_outcome, beside, with_local, ignoring_error}
use kcf_old.Kcf.{
  Kcf, ParserState, pstate_is_writing, pstate_is, stream_write, stream_seek, stream_tell,
}
use kcf_old.Kcf.{malloc, set_parser_state, blank_record}

-- `if (!buffer) return KCF_ERROR_OUT_OF_MEMORY;`
abbrev allocated : {St : Type 0} → Option (List ℕ) → Action St (List ℕ)
allocated none s = Result.fail out_of_memory s
allocated (some buf) s = ok buf s

-- The bytes of the buffer that `size` counts; a buffer that is smaller is read past its end.
abbrev front_of : List ℕ → ℕ → Outcome (List ℕ)
front_of added size = if ltb (length added) size then Outcome.undefined else done (take size added)

-- `crc32c(0, AddedData, Size)`
unfoldable pub crc_of_added : Env → List ℕ → ℕ → ℕ
crc_of_added env added size =
    if ltb (length added) size then env.crc32c_past 0 added size else env.crc32c 0 (take size added)

-- What `KCF_write_record_with_added_data` sets in the record: `none` is a null AddedData.
-- 2147483647L is 2^31 - 1; `~flag` keeps the other bits of the uint8_t.
unfoldable pub describe_added_data : Env → Option (List ℕ) → ℕ → KcfRecord → KcfRecord
describe_added_data env none size r = record r {
  head_flags = bit_and (bit_and r.head_flags 0xDF) 0x3F;
  added_size = 0;
  added_data_crc32 = 0;
}
describe_added_data env (some added) size r =
    if size == 0
    then record r {
      head_flags = bit_and (bit_and r.head_flags 0xDF) 0x3F;
      added_size = 0;
      added_data_crc32 = 0;
    }
    else record r {
      added_data_crc32 =
          if flags_crc r.head_flags then crc_of_added env added size else r.added_data_crc32;
      head_flags =
          bit_or r.head_flags
            (if ltb 2147483647 size then has_added_size_8_flag else has_added_size_4_flag);
      added_size = size;
    }

abbrev bytes_of : Option (List ℕ) → List ℕ
bytes_of none = []
bytes_of (some bytes) = bytes

module _ {S : Type 0} where
  -- `rec_to_buffer` into a new buffer of HeadSize bytes, and `IO_write` of the buffer.
  unfoldable pub write_bytes : KcfRecord → List ℕ → Action (Kcf S) (Unit {0})
  write_bytes r buffer = do
    (filled, bytes) ← from_outcome (rec_to_buffer r buffer r.head_size)
    ret ← stream_write bytes (to_int64 r.head_size)
    fail_if (is_neg ret) write

  -- The part of `KCF_finish_added_data` that writes LastRecord once more, with the size and the CRC
  -- that are known by now.
  unfoldable pub patch_record : Env → Action (Kcf S) (Unit {0})
  patch_record env = do
    end ← stream_tell
    modify (λ k. record k { record_end_offset = to_size end })
    offset ← gets (λ k. k.record_offset)
    ret ← stream_seek (to_int64 offset) seek_set
    fail_if (is_neg ret) write
    modify (λ k. record k {
      last_record = rec_fix env (record (k.last_record) {
        added_size = k.added_data_done;
        added_data_crc32 = k.added_data_crc32;
      });
    })
    last ← gets (λ k. k.last_record)
    block ← malloc env last.head_size
    buffer ← allocated block
    write_bytes last buffer
    end_offset ← gets (λ k. k.record_end_offset)
    ret' ← stream_seek (to_int64 end_offset) seek_set
    pure tt

  -- The `cleanup` label.
  unfoldable pub reset_added_data : Kcf S → Kcf S
  unfolding rec_clear
  reset_added_data k = record k {
    last_record = rec_clear k.last_record;
    record_offset = 0;
    record_end_offset = 0;
    added_data_done = 0;
    added_data_total = 0;
    added_data_crc32 = 0;
    has_added_data_crc32 = false;
    has_added_size = false;
    parser_state = ParserState.write_record;
  }

  -- `KCF_finish_added_data`
  unfoldable pub kcf_finish_added_data : Env → Action (Kcf S) (Unit {0})
  unfolding patch_record reset_added_data
  kcf_finish_added_data env = do
    state ← gets (λ k. k.parser_state)
    fail_if (not (pstate_is_writing state)) invalid_state
    fail_if (not (pstate_is state ParserState.write_added_data)) invalid_state
    total ← gets (λ k. k.added_data_total)
    has_crc ← gets (λ k. k.has_added_data_crc32)
    when (not (ltb 0 total && not has_crc)) (patch_record env)
    modify reset_added_data

  -- The tests that `KCF_write_record` and `KCF_write_record_with_added_data` begin with.
  unfoldable pub begin_record : Env → Action (Kcf S) (Unit {0})
  unfolding kcf_finish_added_data
  begin_record env = do
    state ← gets (λ k. k.parser_state)
    fail_if (not (pstate_is_writing state)) invalid_state
    when (pstate_is state ParserState.writing) (set_parser_state ParserState.write_record)
    state' ← gets (λ k. k.parser_state)
    fail_if (pstate_is state' ParserState.write_marker) invalid_state
    when (pstate_is state' ParserState.write_added_data)
        (ignoring_error (kcf_finish_added_data env))

  -- `rec_copy(&kcf->LastRecord, Record)`, whose error is not looked at, and the state in which the
  -- added data is written.
  unfoldable pub begin_added_data : Env → KcfRecord → Action (Kcf S) (Unit {0})
  begin_added_data env r = do
    t ← gets (λ k. k.mallocs)
    (error, last) ← from_outcome (rec_copy env t r)
    modify (λ k. record k {
      last_record = last;
      added_data_total = last.added_size;
      parser_state = ParserState.write_added_data;
      mallocs = k.mallocs + 1;
    })

  -- `KCF_write_record`; the record is fixed in place.
  unfoldable pub kcf_write_record : Env → Action (Kcf S × KcfRecord) (Unit {0})
  unfolding begin_record
  kcf_write_record env = do
    beside (begin_record env)
    modify (λ s. (s.0, rec_fix env s.1))
    r ← gets (λ s. s.1)
    block ← beside (malloc env r.head_size)
    buffer ← allocated block
    offset ← beside stream_tell
    modify (λ s. (record (s.0) { record_offset = to_size offset }, s.1))
    beside (write_bytes r buffer)
    modify (λ s. (
      record (s.0) {
        has_added_size = flags_size r.head_flags;
        has_added_data_crc32 = flags_crc r.head_flags;
      },
      s.1,
    ))
    when (flags_size r.head_flags) (beside (begin_added_data env r))

  -- `KCF_write_record_with_added_data`
  unfoldable pub kcf_write_record_with_added_data :
      Env → Option (List ℕ) → ℕ → Action (Kcf S × KcfRecord) (Unit {0})
  unfolding begin_record write_bytes describe_added_data
  kcf_write_record_with_added_data env added size = do
    beside (begin_record env)
    modify (λ s. (s.0, rec_fix env (describe_added_data env added size s.1)))
    r ← gets (λ s. s.1)
    block ← beside (malloc env r.head_size)
    buffer ← allocated block
    beside (write_bytes r buffer)
    front ← from_outcome (front_of (bytes_of added) size)
    ret ← beside (stream_write (bytes_of added) (to_int64 size))
    fail_if (is_neg ret) write

  unfoldable pub append_added_data : Env → List ℕ → ℕ → Action (Kcf S) (Unit {0})
  append_added_data env added size = do
    bytes ← from_outcome (front_of added size)
    ret ← stream_write added (to_int64 size)
    fail_if (is_neg ret) write
    modify (λ k. record k {
      added_data_done = (k.added_data_done + size) % 2 ^ 64;
      added_data_crc32 =
          if k.has_added_data_crc32
          then env.crc32c k.added_data_crc32 bytes
          else k.added_data_crc32;
    })

  -- `KCF_write_added_data`; where the total is known, no more than the rest of it is written.
  unfoldable pub kcf_write_added_data : Env → List ℕ → ℕ → Action (Kcf S) (Unit {0})
  kcf_write_added_data env added size = do
    state ← gets (λ k. k.parser_state)
    fail_if (not (pstate_is_writing state)) invalid_state
    fail_if (not (pstate_is state ParserState.write_added_data)) invalid_state
    total ← gets (λ k. k.added_data_total)
    remaining ← gets (λ k. (k.added_data_total + 2 ^ 64 - k.added_data_done) % 2 ^ 64)
    when (not (ltb 0 total && remaining == 0)) (
        append_added_data env added (if ltb 0 total && ltb remaining size then remaining else size))

  -- `KCF_write_archive_header`
  unfoldable pub kcf_write_archive_header : Env → Action (Kcf S) (Unit {0})
  unfolding kcf_write_record
  kcf_write_archive_header env = do
    t ← gets (λ k. k.mallocs)
    (ignored, r) ←
        from_outcome
          (rec_from_archive_header env t (some (record { archive_version = 1 })) blank_record)
    modify (λ k. record k { mallocs = k.mallocs + 1 })
    (result, r') ← with_local r (kcf_write_record env)
    pure result
