-- ===== src/Runs/Heads.antt =====
-- Runs of the reader on any bytes, on records that are not whole, and at the end of a file.
use kcf_old.Base.{
  ◌+◌, ◌-◌, ◌^◌, ◌≡◌, refl, arith, true, [], ◌∷◌, ◌++◌, drop, replicate, some, none, ltb,
  if◌then◌else◌, append-nil, sym,
}
use kcf_old.Env.{Env}
use kcf_old.Errors.{out_of_memory}
use kcf_old.Action.{ok, fail}
use kcf_old.Io.Stdio.{File}
use kcf_old.Io.OnFile.{ended}
use kcf_old.Record.{KcfRecord}
use kcf_old.Kcf.{ParserState, blank_record}
use kcf_old.Bytes.Encoding.{value}
use kcf_old.Record.Layout.{encode}
use kcf_old.Record.Decoding.{IsWhole}
use kcf_old.Kcf.Read.RoundTrip.{after_record}
use kcf_old.Kcf.Read.AnyBytes.{kcf_read_record-any_bytes}
use kcf_old.Kcf.Archive.{fresh}
use kcf_old.Kcf.Read.{kcf_read_record}
use kcf_old.Kcf.Read.Header.{at, fixed_bytes}
use kcf_old.Kcf.Read.Malformed.{
  kcf_read_record-short_head, kcf_read_record-cut_short, kcf_read_record-at_end,
}
use kcf_old.Runs.{test_env, test_file, test_archive}

-- A head of six bytes that says that the record has three.
abbrev short_record : KcfRecord
short_record = record {
  head_crc = 5;
  head_type = 0x44;
  head_flags = 0;
  head_size = 3;
  added_size = 0;
  added_data_crc32 = 0;
  bytes = none;
  data_size = 0;
}

-- A malloc that has no block of 2^63 bytes.
abbrev limited_env : Env
limited_env = record test_env {
  malloc = λ t n. if ltb n (2 ^ 63) then some (replicate n 0) else none;
}

abbrev short_file : File
short_file = ended test_file (fixed_bytes short_record)

kcf_read_record-short_head_example :
    kcf_read_record limited_env true (
      at (record test_archive { parser_state = ParserState.read_record_header }) short_file 0 0,
      short_record,
    )
    ≡ fail out_of_memory (
      at
          (record test_archive {
            parser_state = ParserState.read_record_data;
            mallocs = test_archive.mallocs + 1;
          })
          short_file
          0
          6,
      record short_record { data_size = 2 ^ 64 - 3; bytes = none },
    )
unfolding fresh
kcf_read_record-short_head_example =
    kcf_read_record-short_head limited_env test_archive short_file 0 0 short_record short_record []
      refl
      (record {
        crc_u16 = omega arith;
        type_u8 = omega arith;
        flags_u8 = omega arith;
        size_u16 = omega arith;
        added_size_fits = omega arith;
        added_data_crc32_fits = omega arith;
      })
      (omega arith) (sym (append-nil (fixed_bytes short_record))) refl

-- Ten bytes, of which the reader takes eight.
abbrev raw_file : File
raw_file = ended test_file (7 ∷ 5 ∷ 0 ∷ 0x44 ∷ 0 ∷ 8 ∷ 0 ∷ 1 ∷ 2 ∷ 99 ∷ [])

raw_file-IsWhole : IsWhole (drop 1 raw_file.content)
unfolding value
raw_file-IsWhole = record {
  bytes = (
    omega arith,
    (
      omega arith,
      (
        omega arith,
        (
          omega arith,
          (omega arith, (omega arith, (omega arith, (omega arith, (omega arith, tt))))),
        ),
      ),
    ),
  );
  head = omega arith;
  enough = omega arith;
}

abbrev raw_record : KcfRecord
raw_record = record {
  head_crc = 5;
  head_type = 0x44;
  head_flags = 0;
  head_size = 8;
  added_size = 0;
  added_data_crc32 = 0;
  bytes = some (1 ∷ 2 ∷ []);
  data_size = 2;
}

kcf_read_record-any_bytes_example :
    (kcf_read_record test_env true (
      at (record test_archive { parser_state = ParserState.read_record_header }) raw_file 0 1,
      short_record,
    )
      ≡ ok tt (at (after_record test_archive raw_record) raw_file 0 9, raw_record))
    × (encode raw_record ≡ 5 ∷ 0 ∷ 0x44 ∷ 0 ∷ 8 ∷ 0 ∷ 1 ∷ 2 ∷ [])
unfolding value fresh
kcf_read_record-any_bytes_example =
    kcf_read_record-any_bytes test_env test_archive raw_file 0 1 short_record (replicate 2 0) refl
      raw_file-IsWhole refl refl

-- A record of five bytes of data, of which the file has one.
abbrev cut_record : KcfRecord
cut_record = record short_record { head_size = 11 }

abbrev cut_file : File
cut_file = ended test_file (fixed_bytes cut_record ++ (1 ∷ []))

kcf_read_record-cut_short_example :
    kcf_read_record test_env true (
      at (record test_archive { parser_state = ParserState.read_record_header }) cut_file 0 0,
      short_record,
    )
    ≡ ok tt (
      at (after_record test_archive cut_record) cut_file 0 7,
      record cut_record { data_size = 5; bytes = some (1 ∷ 0 ∷ 0 ∷ 0 ∷ 0 ∷ []) },
    )
unfolding fresh
kcf_read_record-cut_short_example =
    kcf_read_record-cut_short test_env test_archive cut_file 0 0 cut_record short_record (1 ∷ [])
      (replicate 5 0) refl
      (record {
        crc_u16 = omega arith;
        type_u8 = omega arith;
        flags_u8 = omega arith;
        size_u16 = omega arith;
        added_size_fits = omega arith;
        added_data_crc32_fits = omega arith;
      })
      (omega arith) refl refl

kcf_read_record-at_end_example :
    kcf_read_record limited_env true (
      at (record test_archive { parser_state = ParserState.read_record_header }) test_file 0 3,
      short_record,
    )
    ≡ fail out_of_memory (
      at
          (record test_archive {
            parser_state = ParserState.read_record_data;
            mallocs = test_archive.mallocs + 1;
          })
          test_file
          0
          3,
      record blank_record { data_size = 2 ^ 64 - 6 },
    )
unfolding fresh
kcf_read_record-at_end_example =
    kcf_read_record-at_end limited_env test_archive test_file 0 3 short_record refl (omega arith)
      refl
