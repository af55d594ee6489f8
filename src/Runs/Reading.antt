-- ===== src/Runs/Reading.antt =====
-- The runs of the reader, of the search for the marker, and of the calls that fail.
use kcf_old.Base.{◌+◌, ◌≡◌, refl, arith, true, false, [], ◌∷◌, ◌++◌, length, replicate, some}
use kcf_old.Errors.{invalid_state}
use kcf_old.Action.{ok, fail, is_ok}
use kcf_old.Io.Stdio.{File}
use kcf_old.Io.OnFile.{file_stream}
use kcf_old.Record.{KcfRecord}
use kcf_old.Record.Layout.{encode}
use kcf_old.Kcf.{ParserState, blank_record}
use kcf_old.Kcf.Read.{kcf_read_record, kcf_skip_record}
use kcf_old.Kcf.Read.RoundTrip.{IsReadable, after_record, kcf_read_record-encode}
use kcf_old.Kcf.Read.Header.{at}
use kcf_old.Kcf.Read.Skipping.{kcf_skip_record-is_ok}
use kcf_old.Kcf.Insert.{kcf_insert_file_data}
use kcf_old.Kcf.Insert.Endless.{kcf_insert_file_data-is_ok}
use kcf_old.Kcf.Reach.{created}
use kcf_old.Kcf.Reach.Inert.{Reach-refused}
use kcf_old.Kcf.Marker.{find_loop, empty_window}
use kcf_old.Kcf.Marker.Search.{after_marker, Ends, read_up_to, find_loop-after_marker}
use kcf_old.Io.{Io, io_read}
use kcf_old.Io.CFile.{cfile_method}
use kcf_old.Action.{Result}
use kcf_old.Base.{negsuc}
use kcf_old.Kcf.Read.{kcf_read_added_data}
use kcf_old.Kcf.Read.Errors.{kcf_read_added_data-failed_read}
use kcf_old.Base.{pos}
use kcf_old.Action.{diverged}
use kcf_old.Kcf.Read.{io_skip}
use kcf_old.Kcf.Read.Skipping.{io_skip-at_end}
use kcf_old.FileInfo.{blank_file_info}
use kcf_old.Kcf.{upstate_file_data}
use kcf_old.Kcf.Extract.{kcf_get_current_file_info}
use kcf_old.Kcf.Extract.Listing.{kcf_get_current_file_info-is_ok}
use kcf_old.Runs.{test_env, test_allocates, test_file, test_io, test_archive}

-- A record that stands at offset 1 of a file.
abbrev plain_record : KcfRecord
plain_record = record {
  head_crc = 0xB7E9;
  head_type = 0x41;
  head_flags = 0;
  head_size = 8;
  added_size = 0;
  added_data_crc32 = 0;
  bytes = some (1 ∷ 0 ∷ []);
  data_size = 2;
}

abbrev plain_file : File
plain_file = record test_file { content = 7 ∷ (encode plain_record ++ (9 ∷ [])) }

plain_record-IsReadable : IsReadable plain_record
plain_record-IsReadable = record {
  crc_u16 = omega arith;
  type_u8 = omega arith;
  flags_u8 = omega arith;
  size_u16 = omega arith;
  added_size_fits = omega arith;
  added_data_crc32_fits = omega arith;
  head_size_is = refl;
}

kcf_read_record-encode_example :
    kcf_read_record test_env true (
      at (record test_archive { parser_state = ParserState.read_record_header }) plain_file 0 1,
      blank_record,
    )
    ≡ ok tt (
      at (after_record test_archive plain_record) plain_file 0 (1 + length (encode plain_record)),
      plain_record,
    )
kcf_read_record-encode_example =
    kcf_read_record-encode test_env test_archive plain_file 0 1 plain_record blank_record (9 ∷ [])
      (replicate 2 0) refl plain_record-IsReadable refl refl refl

kcf_skip_record-is_ok_example : is_ok (kcf_skip_record 5 test_archive) ≡ false
kcf_skip_record-is_ok_example = kcf_skip_record-is_ok 5 test_archive

kcf_insert_file_data-is_ok_example :
    is_ok (kcf_insert_file_data test_env 5 true 17 (replicate 4096 0) (test_archive, some test_io))
    ≡ false
kcf_insert_file_data-is_ok_example =
    kcf_insert_file_data-is_ok test_env 17 (omega arith) 5 true (replicate 4096 0)
      (test_archive, some test_io)

Reach-refused_example :
    kcf_read_record test_env true (test_archive, blank_record)
    ≡ fail invalid_state (test_archive, blank_record)
Reach-refused_example = (Reach-refused {env = test_env} {io = test_io} created).0 blank_record

-- A file with the marker behind two other bytes.
abbrev marker_file : File
marker_file = record test_file {
  content = 1 ∷ b'K' ∷ b'K' ∷ b'C' ∷ b'!' ∷ 0x1A ∷ 0x06 ∷ 0x00 ∷ 5 ∷ [];
  position = 0;
}

find_loop-after_marker_example :
    Ends
      (some (5 ∷ []))
      (read_up_to test_archive marker_file 0)
      marker_file.content
      (find_loop 20 empty_window (record test_archive { stream = file_stream marker_file 0 }))
unfolding after_marker
find_loop-after_marker_example =
    find_loop-after_marker 20 test_archive marker_file 0 (omega arith) refl

-- A stream whose every read fails.
abbrev broken_io : Io File
broken_io = record test_io {
  method = record cfile_method { read = some (λ f size. (negsuc 0, [], f)) };
}

kcf_read_added_data-failed_read_example :
    kcf_read_added_data test_env true (replicate 4 0) 4 (record test_archive {
      stream = some broken_io;
      added_data_total = 3;
      parser_state = ParserState.read_added_data;
    })
    ≡ Result.undefined
unfolding io_read
kcf_read_added_data-failed_read_example =
    kcf_read_added_data-failed_read test_env
      (record test_archive { stream = some broken_io; added_data_total = 3 }) (some broken_io)
      (replicate 4 0) (omega arith) (omega arith) refl

io_skip-at_end_example :
    io_skip 7 (pos 5) (record test_archive { stream = file_stream test_file 0 }) ≡ diverged
io_skip-at_end_example =
    io_skip-at_end 7 5 test_archive test_file 0 refl (omega arith) (omega arith)

kcf_get_current_file_info-is_ok_example :
    is_ok (
      kcf_get_current_file_info test_env true
        (record test_archive { stage = upstate_file_data }, blank_file_info))
    ≡ false
kcf_get_current_file_info-is_ok_example =
    kcf_get_current_file_info-is_ok test_env test_allocates true
      (record test_archive { stage = upstate_file_data }, blank_file_info)
