-- ===== src/Kcf/Reach.antt =====
-- The calls of the library on one archive as steps between its states, and what every sequence of
-- calls that begins with `KCF_create` keeps.
pub mod Refusals
pub mod Moving
pub mod Inert
use kcf_old.Base.{
  ℕ, ◌+◌, ◌≡◌, ◌⊎◌, inl, inr, refl, arith, Bool, true, false, Option, none, some, List,
}
use kcf_old.Env.{Env}
use kcf_old.Errors.{KcfError, invalid_state, invalid_parameter}
use kcf_old.Io.{Io}
use kcf_old.Record.{KcfRecord}
use kcf_old.FileInfo.{KcfFileInfo}
use kcf_old.Action.Keeping.{Leaves}
use kcf_old.Kcf.{Kcf, ParserState}
use kcf_old.Kcf.Read.{kcf_read_record, kcf_skip_record, kcf_read_added_data}
use kcf_old.Kcf.Write.{kcf_write_record, kcf_write_record_with_added_data, kcf_write_added_data}
use kcf_old.Kcf.Write.{kcf_finish_added_data, kcf_write_archive_header}
use kcf_old.Kcf.Marker.{kcf_find_marker, find_loop, kcf_write_marker}
use kcf_old.Kcf.Archive.{fresh, kcf_start_reading, kcf_start_writing, kcf_init_archive}
use kcf_old.Kcf.Insert.{kcf_begin_file, kcf_insert_file_data, kcf_end_file}
use kcf_old.Kcf.Extract.{kcf_get_current_file_info, kcf_skip_file, kcf_extract}

-- One call, with any arguments.
pub data Call {S : Type 0} (env : Env) (k : Kcf S) (k' : Kcf S) : Type 0 where
  start_reading : Leaves (kcf_start_reading env k) k' → Call env k k'
  start_writing : Leaves (kcf_start_writing env k) k' → Call env k k'
  init_archive : Leaves (kcf_init_archive env k) k' → Call env k k'
  find_marker : (fuel : ℕ) → Leaves (kcf_find_marker env fuel k) k' → Call env k k'
  write_marker : Leaves (kcf_write_marker env k) k' → Call env k k'
  read_record :
      (nonnull : Bool) (r r' : KcfRecord)
      → Leaves (kcf_read_record env nonnull (k, r)) (k', r')
      → Call env k k'
  skip_record : (fuel : ℕ) → Leaves (kcf_skip_record fuel k) k' → Call env k k'
  read_added_data :
      (nonnull : Bool) (buffer : List ℕ) (size : ℕ)
      → Leaves (kcf_read_added_data env nonnull buffer size k) k'
      → Call env k k'
  write_record : (r r' : KcfRecord) → Leaves (kcf_write_record env (k, r)) (k', r') → Call env k k'
  write_record_with_added_data :
      (added : Option (List ℕ)) (size : ℕ) (r r' : KcfRecord)
      → Leaves (kcf_write_record_with_added_data env added size (k, r)) (k', r')
      → Call env k k'
  write_added_data :
      (added : List ℕ) (size : ℕ)
      → Leaves (kcf_write_added_data env added size k) k'
      → Call env k k'
  finish_added_data : Leaves (kcf_finish_added_data env k) k' → Call env k k'
  write_archive_header : Leaves (kcf_write_archive_header env k) k' → Call env k k'
  begin_file :
      (nonnull : Bool) (r : KcfRecord) (info : KcfFileInfo)
      → Leaves (kcf_begin_file env nonnull r info k) k'
      → Call env k k'
  insert_file_data :
      (fuel : ℕ) (nonnull : Bool) (bytes_read : ℕ) (buffer : List ℕ) (input input' : Option (Io S))
      → Leaves (kcf_insert_file_data env fuel nonnull bytes_read buffer (k, input)) (k', input')
      → Call env k k'
  end_file : (nonnull : Bool) → Leaves (kcf_end_file env nonnull k) k' → Call env k k'
  get_current_file_info :
      (nonnull : Bool) (info info' : KcfFileInfo)
      → Leaves (kcf_get_current_file_info env nonnull (k, info)) (k', info')
      → Call env k k'
  skip_file :
      (fuel : ℕ) (nonnull : Bool) → Leaves (kcf_skip_file env fuel nonnull k) k' → Call env k k'
  extract :
      (inner fuel : ℕ) (nonnull : Bool) (buffer : List ℕ) (output output' : Option (Io S))
      → Leaves (kcf_extract env inner fuel nonnull buffer (k, output)) (k', output')
      → Call env k k'

-- Any number of calls after `KCF_create`.
pub data Reach {S : Type 0} (env : Env) (io : Io S) : Kcf S → Type 0 where
  created : Reach env io (fresh io)
  call : {k k' : Kcf S} → Reach env io k → Call env k k' → Reach env io k'

-- The parser's states before any record.
abbrev pub BeforeRecords : ParserState → Type 0
BeforeRecords ParserState.neutral = Unit
BeforeRecords ParserState.reading = Unit
BeforeRecords ParserState.read_marker = Unit
BeforeRecords ParserState.write_marker = Unit
BeforeRecords _ = ⊥

pub record IsInert {S : Type 0} (k : Kcf S) : Type 0 where
  pub not_writing : k.is_writing ≡ false
  pub no_stage : k.stage ≡ 0
  pub before_records : BeforeRecords k.parser_state

pub fresh-IsInert : {S : Type 0} (io : Io S) → IsInert (fresh io)
unfolding fresh
fresh-IsInert io = record { not_writing = refl; no_stage = refl; before_records = tt }
