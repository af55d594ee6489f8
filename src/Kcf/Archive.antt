-- ===== src/Kcf/Archive.antt =====
-- kcf/archive.c: creating an archive, and switching it between reading and writing.
use kcf_old.Base.{Bool, true, false, Option, none, some, is_neg}
use kcf_old.Env.{Env}
use kcf_old.Errors.{KcfError, invalid_parameter, invalid_state, out_of_memory, unknown}
use kcf_old.Io.{Io}
use kcf_old.Action.{Action, ◌>>=◌, ◌>>◌, pure, fail_if, throw}
use kcf_old.Kcf.{Kcf, ParserState, stream_flush, set_parser_state, blank_record}
use kcf_old.FileInfo.{blank_file_info}
use kcf_old.Kcf.Write.{kcf_finish_added_data, kcf_write_archive_header}
use kcf_old.Kcf.Marker.{kcf_write_marker}

module _ {S : Type 0} where
  -- What calloc gives, with the stream put in: every member is zero, and the parser's state is
  -- KCF_PSTATE_NEUTRAL.
  unfoldable pub fresh : Io S → Kcf S
  fresh io = record {
    added_data_total = 0;
    added_data_done = 0;
    added_data_crc32 = 0;
    actual_added_data_crc32 = 0;
    record_offset = 0;
    record_end_offset = 0;
    stream = some io;
    last_record = blank_record;
    has_added_data_crc32 = false;
    has_added_size = false;
    is_writing = false;
    is_writable = false;
    is_unpacking = false;
    parser_state = ParserState.neutral;
    stage = 0;
    current_file = blank_file_info;
    reader_state = 0;
    writer_state = 0;
    mallocs = 0;
  }

  abbrev created : Io S → Bool → KcfError × Option (Kcf S)
  created io true = (KcfError.ok, some (fresh io))
  created io false = (out_of_memory, none)

  -- `KCF_create`: the error and the new archive. `none` is a null stream; the Booleans say that
  -- `pkcf` is not null and that calloc succeeds.
  unfoldable pub kcf_create : Option (Io S) → Bool → Bool → KcfError × Option (Kcf S)
  kcf_create none pkcf allocated = (invalid_parameter, none)
  kcf_create (some io) false allocated = (invalid_parameter, none)
  kcf_create (some io) true allocated = created io allocated

  -- The cases KCF_PSTATE_WRITE_RECORD, and KCF_PSTATE_WRITE_ADDED_DATA that falls through to it.
  unfoldable pub stop_writing : Action (Kcf S) (Unit {0})
  stop_writing = do
    ret ← stream_flush
    fail_if (is_neg ret) unknown
    set_parser_state ParserState.read_record_header

  unfoldable pub start_reading_from : Env → ParserState → Action (Kcf S) (Unit {0})
  unfolding stop_writing kcf_finish_added_data
  start_reading_from env ParserState.neutral = set_parser_state ParserState.read_marker
  start_reading_from env ParserState.reading = set_parser_state ParserState.read_marker
  start_reading_from env ParserState.write_marker = set_parser_state ParserState.reading
  start_reading_from env ParserState.write_added_data = kcf_finish_added_data env >> stop_writing
  start_reading_from env ParserState.write_record = stop_writing
  start_reading_from env _ = pure tt

  -- `KCF_start_reading` on an archive that is not null.
  unfoldable pub kcf_start_reading : Env → Action (Kcf S) (Unit {0})
  unfolding start_reading_from
  kcf_start_reading env k = start_reading_from env k.parser_state k

  unfoldable pub start_marker : Env → Action (Kcf S) (Unit {0})
  unfolding kcf_write_marker
  start_marker env = do set_parser_state ParserState.write_marker; kcf_write_marker env

  unfoldable pub start_writing_from : Env → ParserState → Action (Kcf S) (Unit {0})
  unfolding start_marker
  start_writing_from env ParserState.neutral = start_marker env
  start_writing_from env ParserState.reading = start_marker env
  start_writing_from env ParserState.writing = start_marker env
  start_writing_from env ParserState.read_marker = start_marker env
  start_writing_from env ParserState.read_record_header = set_parser_state ParserState.write_record
  start_writing_from env ParserState.read_added_data = throw invalid_state
  start_writing_from env ParserState.read_record_data = throw invalid_state
  start_writing_from env _ = pure tt

  -- `KCF_start_writing` on an archive that is not null.
  unfoldable pub kcf_start_writing : Env → Action (Kcf S) (Unit {0})
  unfolding start_writing_from
  kcf_start_writing env k = start_writing_from env k.parser_state k

  -- `KCF_init_archive`
  unfoldable pub kcf_init_archive : Env → Action (Kcf S) (Unit {0})
  unfolding kcf_start_writing kcf_write_archive_header
  kcf_init_archive env = do kcf_start_writing env; kcf_write_archive_header env
