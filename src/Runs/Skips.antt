-- ===== src/Runs/Skips.antt =====
-- Runs of skipping, of extraction, and of the reader over a stream that gives few bytes.
use kcf_old.Base.{ℕ, suc, ◌≡◌, refl, arith, true, [], ◌∷◌, ◌++◌, replicate, some, pos}
use kcf_old.Errors.{read, invalid_state}
use kcf_old.Action.{Result, ok, fail}
use kcf_old.Io.Stdio.{File}
use kcf_old.Io.OnFile.{ended}
use kcf_old.Record.{KcfRecord}
use kcf_old.Record.Layout.{encode}
use kcf_old.Kcf.{Kcf}
use kcf_old.Kcf.Archive.{fresh}
use kcf_old.Io.{Io, io_read}
use kcf_old.Io.CFile.{cfile_method}
use kcf_old.Kcf.Read.AnyStream.{reading, kcf_read_added_data-any_stream}
use kcf_old.Kcf.Read.{kcf_read_added_data, kcf_read_record}
use kcf_old.Kcf.Read.Header.{at}
use kcf_old.Kcf.Read.RoundTrip.{IsReadable}
use kcf_old.Kcf.Extract.{kcf_skip_file, kcf_extract}
use kcf_old.Kcf.Extract.Skipping.{before_file, behind_file, kcf_skip_file-stuck}
use kcf_old.Kcf.Extract.Unnamed.{kcf_extract-unnamed}
use kcf_old.Runs.{test_env, test_allocates, test_file, test_io, test_archive}

-- A file header without fields, of two bytes of added data.
abbrev header_record : KcfRecord
header_record = record {
  head_crc = 5;
  head_type = 0x46;
  head_flags = 0x80;
  head_size = 12;
  added_size = 2;
  added_data_crc32 = 0;
  bytes = some (0 ∷ 0 ∷ []);
  data_size = 2;
}

header_record-IsReadable : IsReadable header_record
header_record-IsReadable = record {
  crc_u16 = omega arith;
  type_u8 = omega arith;
  flags_u8 = omega arith;
  size_u16 = omega arith;
  added_size_fits = omega arith;
  added_data_crc32_fits = omega arith;
  head_size_is = refl;
}

abbrev one_file : File
one_file = ended test_file (encode header_record ++ (5 ∷ 6 ∷ []))

abbrev skipped_archive : Kcf File
skipped_archive =
    behind_file test_env test_archive one_file 0 refl 0 header_record (5 ∷ 6 ∷ []) [] (0 ∷ 0 ∷ []) 0

kcf_skip_file-stuck_example :
    (kcf_skip_file test_env 2 true (at (before_file test_archive) one_file 0 0)
      ≡ ok tt skipped_archive)
    × ((next : KcfRecord)
        → kcf_read_record test_env true (skipped_archive, next)
          ≡ fail invalid_state (skipped_archive, next))
    × ((rounds : ℕ)
        → kcf_skip_file test_env (suc rounds) true skipped_archive
          ≡ fail invalid_state skipped_archive)
unfolding fresh
kcf_skip_file-stuck_example =
    kcf_skip_file-stuck test_env test_archive one_file 0 refl 0 header_record (5 ∷ 6 ∷ []) []
      (0 ∷ 0 ∷ []) 0 header_record-IsReadable refl refl refl refl (omega arith) (omega arith)
      (omega arith) refl refl

kcf_extract-unnamed_example :
    kcf_extract test_env 4 4 true
      (replicate 4096 0)
      (at (before_file test_archive) one_file 0 0, some test_io)
    ≡ Result.undefined
unfolding fresh
kcf_extract-unnamed_example =
    kcf_extract-unnamed test_env test_allocates test_archive one_file 0 refl 4 4 0 header_record
      (5 ∷ 6 ∷ []) (replicate 4096 0) (some test_io) refl header_record-IsReadable refl refl

-- A stream whose reads give one byte at a time.
abbrev slow_io : Io File
slow_io = record test_io {
  method = record cfile_method { read = some (λ f size. (pos 1, 8 ∷ [], f)) };
}

abbrev slow_archive : Kcf File
slow_archive = record test_archive { stream = some slow_io; added_data_total = 2 }

kcf_read_added_data-any_stream_example :
    kcf_read_added_data test_env true (0 ∷ 0 ∷ []) 2 (reading test_env slow_archive (some slow_io))
    ≡ fail read (reading test_env slow_archive (some slow_io))
unfolding fresh io_read
kcf_read_added_data-any_stream_example =
    kcf_read_added_data-any_stream test_env slow_archive (some slow_io) (0 ∷ 0 ∷ []) (8 ∷ []) 2
      (omega arith) (omega arith) (omega arith) refl (omega arith)
