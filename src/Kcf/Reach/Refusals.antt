-- ===== src/Kcf/Reach/Refusals.antt =====
-- Before any record every call on records is refused, and leaves the archive as it is.
use kcf_old.Base.{ℕ, ◌≡◌, refl, arith, Bool, false, Option, List, if◌then◌else◌}
use kcf_old.Env.{Env}
use kcf_old.Errors.{invalid_state, invalid_parameter}
use kcf_old.Io.{Io}
use kcf_old.Record.{KcfRecord}
use kcf_old.FileInfo.{KcfFileInfo}
use kcf_old.Action.{fail}
use kcf_old.Kcf.{Kcf, ParserState, pstate_is, pstate_is_writing}
use kcf_old.Kcf.Read.{kcf_read_record, kcf_skip_record, size_to_skip, kcf_read_added_data}
use kcf_old.Kcf.Write.{kcf_write_record, kcf_write_record_with_added_data, kcf_write_added_data}
use kcf_old.Kcf.Write.{kcf_finish_added_data, begin_record}
use kcf_old.Kcf.Insert.{kcf_begin_file, kcf_insert_file_data, kcf_end_file}
use kcf_old.Kcf.Extract.{kcf_get_current_file_info, kcf_extract}
use kcf_old.Kcf.Reach.{BeforeRecords, IsInert}

-- The answers of the guards.
record Refuses (p : ParserState) : Type 0 where
  no_head : pstate_is p ParserState.read_record_header ≡ false
  no_added : pstate_is p ParserState.read_added_data ≡ false
  no_added_out : pstate_is p ParserState.write_added_data ≡ false
  not_started : pstate_is p ParserState.writing ≡ false
  only_marker : pstate_is_writing p ≡ pstate_is p ParserState.write_marker

refuses : (p : ParserState) → BeforeRecords p → Refuses p
refuses ParserState.neutral h = record {
  no_head = refl;
  no_added = refl;
  no_added_out = refl;
  not_started = refl;
  only_marker = refl;
}
refuses ParserState.reading h = record {
  no_head = refl;
  no_added = refl;
  no_added_out = refl;
  not_started = refl;
  only_marker = refl;
}
refuses ParserState.read_marker h = record {
  no_head = refl;
  no_added = refl;
  no_added_out = refl;
  not_started = refl;
  only_marker = refl;
}
refuses ParserState.write_marker h = record {
  no_head = refl;
  no_added = refl;
  no_added_out = refl;
  not_started = refl;
  only_marker = refl;
}
refuses _ h = absurd h

module _ {S : Type 0} (env : Env) (k : Kcf S) (before : BeforeRecords k.parser_state) where
  pub read_record_refused :
      (nonnull : Bool) (r : KcfRecord)
      → kcf_read_record env nonnull (k, r)
        ≡ fail (if nonnull then invalid_state else invalid_parameter) (k, r)
  unfolding kcf_read_record
  read_record_refused nonnull r = ground (arith, refuses k.parser_state before)

  pub read_added_data_refused :
      (nonnull : Bool) (buffer : List ℕ) (size : ℕ)
      → kcf_read_added_data env nonnull buffer size k
        ≡ fail (if nonnull then invalid_state else invalid_parameter) k
  unfolding kcf_read_added_data
  read_added_data_refused nonnull buffer size = ground (arith, refuses k.parser_state before)

  pub skip_record_refused : (fuel : ℕ) → kcf_skip_record fuel k ≡ fail invalid_state k
  unfolding kcf_skip_record size_to_skip
  skip_record_refused fuel = ground (arith, refuses k.parser_state before)

  pub begin_record_refused : begin_record env k ≡ fail invalid_state k
  unfolding begin_record
  begin_record_refused = ground (arith, refuses k.parser_state before)

  pub write_record_refused :
      (r : KcfRecord) → kcf_write_record env (k, r) ≡ fail invalid_state (k, r)
  unfolding kcf_write_record
  write_record_refused r = rw begin_record_refused

  pub write_record_with_added_data_refused :
      (added : Option (List ℕ)) (size : ℕ) (r : KcfRecord)
      → kcf_write_record_with_added_data env added size (k, r) ≡ fail invalid_state (k, r)
  unfolding kcf_write_record_with_added_data
  write_record_with_added_data_refused added size r = rw begin_record_refused

  pub write_added_data_refused :
      (added : List ℕ) (size : ℕ) → kcf_write_added_data env added size k ≡ fail invalid_state k
  unfolding kcf_write_added_data
  write_added_data_refused added size = ground (arith, refuses k.parser_state before)

  pub finish_added_data_refused : kcf_finish_added_data env k ≡ fail invalid_state k
  unfolding kcf_finish_added_data
  finish_added_data_refused = ground (arith, refuses k.parser_state before)

module _ {S : Type 0} (env : Env) (k : Kcf S) (inert : IsInert k) where
  pub begin_file_refused :
      (nonnull : Bool) (r : KcfRecord) (info : KcfFileInfo)
      → kcf_begin_file env nonnull r info k
        ≡ fail (if nonnull then invalid_state else invalid_parameter) k
  unfolding kcf_begin_file
  begin_file_refused nonnull r info = ground arith

  pub end_file_refused :
      (nonnull : Bool)
      → kcf_end_file env nonnull k ≡ fail (if nonnull then invalid_state else invalid_parameter) k
  unfolding kcf_end_file
  end_file_refused nonnull = ground arith

  pub insert_file_data_refused :
      (fuel : ℕ) (nonnull : Bool) (bytes_read : ℕ) (buffer : List ℕ) (input : Option (Io S))
      → kcf_insert_file_data env fuel nonnull bytes_read buffer (k, input)
        ≡ fail (if nonnull then invalid_state else invalid_parameter) (k, input)
  unfolding kcf_insert_file_data
  insert_file_data_refused fuel nonnull bytes_read buffer input = ground arith

  pub get_current_file_info_refused :
      (nonnull : Bool) (info : KcfFileInfo)
      → kcf_get_current_file_info env nonnull (k, info)
        ≡ fail (if nonnull then invalid_state else invalid_parameter) (k, info)
  unfolding kcf_get_current_file_info
  get_current_file_info_refused nonnull info = ground arith

  pub extract_refused :
      (inner fuel : ℕ) (nonnull : Bool) (buffer : List ℕ) (output : Option (Io S))
      → kcf_extract env inner fuel nonnull buffer (k, output)
        ≡ fail (if nonnull then invalid_state else invalid_parameter) (k, output)
  unfolding kcf_extract
  extract_refused inner fuel nonnull buffer output = ground arith
