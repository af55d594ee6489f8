-- ===== src/Kcf.antt =====
-- kcf/kcf_impl.h and include/kcf/archive.h: the state of an archive, and the calls that its
-- operations share.
pub mod Read
pub mod Write
pub mod Marker
pub mod Archive
pub mod Insert
pub mod Extract
pub mod Reach
pub mod RoundTrip
pub mod Items
use kcf_old.Base.{ℕ, suc, ◌+◌, bit_and, Bool, true, false, not, Option, none, some, List, ◌==◌, ℤ}
use kcf_old.Env.{Env}
use kcf_old.Errors.{KcfError}
use kcf_old.Io.{Io, io_read, io_write, io_seek, io_tell, io_flush}
use kcf_old.Record.{KcfRecord}
use kcf_old.FileInfo.{KcfFileInfo}
use kcf_old.Action.{Action, ok}

-- The enumerators of enum KcfParserState.
pub data ParserState : Type 0 where
  neutral reading read_marker read_record_header read_record_data read_added_data : ParserState
  writing write_marker write_record write_added_data high_mask : ParserState

-- Their values, KCF_PSTATE_NEUTRAL first.
abbrev pub state_value : ParserState → ℕ
state_value neutral = 0
state_value reading = 0x100
state_value read_marker = 0x101
state_value read_record_header = 0x102
state_value read_record_data = 0x103
state_value read_added_data = 0x104
state_value writing = 0x200
state_value write_marker = 0x201
state_value write_record = 0x202
state_value write_added_data = 0x203
state_value high_mask = 0xF00

-- KCF_PSTATE_IS_WRITING, KCF_PSTATE_IS_READING, and `==`
abbrev pub pstate_is_writing : ParserState → Bool
pstate_is_writing x = bit_and (state_value x) (state_value high_mask) == state_value writing

abbrev pub pstate_is_reading : ParserState → Bool
pstate_is_reading x = bit_and (state_value x) (state_value high_mask) == state_value reading

abbrev pub pstate_is : ParserState → ParserState → Bool
pstate_is x y = state_value x == state_value y

-- A record whose members are all zero. It also stands for a local record with no initial value,
-- where the code sets each member that it uses first.
abbrev pub blank_record : KcfRecord
blank_record = record {
  head_crc = 0;
  head_type = 0;
  head_flags = 0;
  head_size = 0;
  added_size = 0;
  added_data_crc32 = 0;
  bytes = none;
  data_size = 0;
}

-- enum KcfUnpackerState and enum KcfPackerState; the two share their storage, and their values.
abbrev pub upstate_validating_format : ℕ
upstate_validating_format = 0

abbrev pub upstate_file_header : ℕ
upstate_file_header = 1

abbrev pub upstate_file_data : ℕ
upstate_file_data = 2

abbrev pub upstate_after_file_data : ℕ
upstate_after_file_data = 3

abbrev pub pkstate_idle : ℕ
pkstate_idle = 0

abbrev pub pkstate_file_header : ℕ
pkstate_file_header = 1

abbrev pub pkstate_file_data : ℕ
pkstate_file_data = 2

abbrev pub pkstate_after_file_data : ℕ
pkstate_after_file_data = 3

-- struct kcf_st over streams with handles of type `S`. A field stands for each union:
-- `added_data_total` is AvailableAddedData and AddedDataToBeWritten, `added_data_done` is
-- AddedDataAlreadyRead and WrittenAddedData, `stage` is PackerState and UnpackerState.
-- `reader_state` and `writer_state` are the members that kcf/marker.c and kcf/read.c use and that
-- the struct lacks; `mallocs` counts the calls of malloc.
pub record Kcf (S : Type 0) : Type 0 where
  pub added_data_total : ℕ
  pub added_data_done : ℕ
  pub added_data_crc32 : ℕ
  pub actual_added_data_crc32 : ℕ
  pub record_offset : ℕ
  pub record_end_offset : ℕ
  pub stream : Option (Io S)
  pub last_record : KcfRecord
  pub has_added_data_crc32 : Bool
  pub has_added_size : Bool
  pub is_writing : Bool
  pub is_writable : Bool
  pub is_unpacking : Bool
  pub parser_state : ParserState
  pub stage : ℕ
  pub current_file : KcfFileInfo
  pub reader_state : ℕ
  pub writer_state : ℕ
  pub mallocs : ℕ

module _ {S : Type 0} where
  -- The calls of the stream that the archive's operations make.
  abbrev pub stream_read : ℤ → Action (Kcf S) (ℤ × List ℕ)
  stream_read size k =
      let (ret, bytes, stream) = io_read k.stream size in
      ok (ret, bytes) (record k { stream = stream })

  abbrev pub stream_write : List ℕ → ℤ → Action (Kcf S) ℤ
  stream_write buffer size k =
      let (ret, stream) = io_write k.stream buffer size in ok ret (record k { stream = stream })

  abbrev pub stream_seek : ℤ → ℕ → Action (Kcf S) ℤ
  stream_seek offset whence k =
      let (ret, stream) = io_seek k.stream offset whence in ok ret (record k { stream = stream })

  abbrev pub stream_tell : Action (Kcf S) ℤ
  stream_tell k = let (ret, stream) = io_tell k.stream in ok ret (record k { stream = stream })

  abbrev pub stream_flush : Action (Kcf S) ℤ
  stream_flush k = let (ret, stream) = io_flush k.stream in ok ret (record k { stream = stream })

  -- `malloc(n)`
  abbrev pub malloc : Env → ℕ → Action (Kcf S) (Option (List ℕ))
  malloc env n k = ok (env.malloc k.mallocs n) (record k { mallocs = k.mallocs + 1 })

  abbrev pub set_parser_state : ParserState → Action (Kcf S) (Unit {0})
  set_parser_state p k = ok tt (record k { parser_state = p })
