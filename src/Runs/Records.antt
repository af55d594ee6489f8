-- ===== src/Runs/Records.antt =====
-- The theorems on records, on the bytes of integers and on error texts, on the test data.
use kcf_old.Base.{
  ℕ, ◌%◌, ◌^◌, ◌==◌, ◌>>=◌, take, ◌≡◌, ◌≢◌, refl, arith, true, [], ◌∷◌, length, drop, replicate,
  length-replicate, some, done,
}
use kcf_old.Base.{Outcome}
use kcf_old.Errors.{KcfError}
use kcf_old.Bytes.Encoding.{le}
use kcf_old.Record.{KcfRecord, rec_fix, rec_validate, rec_calculate_crc, rec_to_buffer}
use kcf_old.Record.Layout.{encode, head_tail}
use kcf_old.Record.Buffers.{rec_to_buffer_lem, rec_calculate_crc_lem}
use kcf_old.Record.Fixing.{rec_validate-rec_fix, rec_fix_lem}
use kcf_old.Record.Overflow.{rec_to_buffer-rec_fix_overflow}
use kcf_old.Base.{◌++◌}
use kcf_old.Record.{file_header_type}
use kcf_old.FileInfo.{KcfFileInfo, blank_file_info, file_regular, get_file_info_data_size, c_string}
use kcf_old.FileInfo.{record_to_file_info, file_info_to_record}
use kcf_old.FileInfo.Layout.{info_head}
use kcf_old.FileInfo.Fields.{IsStorable}
use kcf_old.FileInfo.Reading.{file_info_to_record-any_name}
use kcf_old.FileInfo.RoundTrip.{file_info_to_record-record_to_file_info}
use kcf_old.Bytes.Calls.{w32, write_le, read_le}
use kcf_old.Bytes.RoundTrip.{stored, read_le-write_le}
use kcf_old.Runs.{test_env, test_laws, test_record}

rec_fix_lem_example :
    (take 2 (encode (rec_fix test_env test_record))
      ≡ le 2 (test_env.crc32c 0 (drop 2 (encode (rec_fix test_env test_record))) % 2 ^ 16))
    × (take 2 (drop 4 (encode (rec_fix test_env test_record)))
        ≡ le 2 (length (encode (rec_fix test_env test_record))))
    × ((crc : ℕ)
        → rec_validate test_env (some (record (rec_fix test_env test_record) { head_crc = crc }))
          ≡ (test_env.crc32c 0 (drop 2 (encode (rec_fix test_env test_record))) % 2 ^ 16 == crc))
rec_fix_lem_example = rec_fix_lem test_env test_laws test_record refl (omega arith)

rec_calculate_crc_lem_example :
    rec_calculate_crc test_env test_record
    ≡ test_env.crc32c 0 (drop 2 (encode test_record)) % 2 ^ 16
rec_calculate_crc_lem_example = rec_calculate_crc_lem test_env test_laws test_record refl

rec_to_buffer_lem_example :
    rec_to_buffer (record test_record { head_size = 16 }) (replicate 16 0) 16
    ≡ done (true, encode (record test_record { head_size = 16 }))
unfolding encode head_tail le
rec_to_buffer_lem_example =
    rec_to_buffer_lem (record test_record { head_size = 16 }) (replicate 16 0) refl refl refl

-- A record of 65542 bytes.
abbrev large_record : KcfRecord
large_record = record test_record {
  head_flags = 0;
  bytes = some (replicate 65536 7);
  data_size = 65536;
}

rec_to_buffer-rec_fix_overflow_example :
    rec_to_buffer
      (rec_fix test_env large_record)
      (replicate (rec_fix test_env large_record).head_size 0)
      (rec_fix test_env large_record).head_size
    ≡ Outcome.undefined
rec_to_buffer-rec_fix_overflow_example =
    rec_to_buffer-rec_fix_overflow test_env large_record
      (replicate (rec_fix test_env large_record).head_size 0) (omega arith) (omega arith)
      (length-replicate (rec_fix test_env large_record).head_size 0)

read-ne-max : KcfError.read ≢ KcfError.max
read-ne-max h = cc

-- A file of 513 bytes with the name "ab" and a CRC.
abbrev test_info : KcfFileInfo
test_info = record blank_file_info {
  unpacked_size = 513;
  file_name = some (97 ∷ 98 ∷ []);
  file_crc32 = 7;
  file_type = file_regular;
  has_file_crc32 = true;
  has_unpacked_size = true;
}

test_info-IsStorable : IsStorable test_info
test_info-IsStorable = record {
  time_stamp_u64 = omega arith;
  unpacked_size_fits = omega arith;
  file_crc32_u32 = omega arith;
  compression_info_u32 = omega arith;
  file_type_u8 = omega arith;
  size8_is_size = refl;
}

file_info_to_record-record_to_file_info_example :
    (r : KcfRecord) × (record_to_file_info test_env 0 test_record test_info ≡ done (KcfError.ok, r))
    × (file_info_to_record test_env 1 blank_file_info r
        ≡ done (KcfError.ok, record test_info { file_type = 0 }))
unfolding c_string
file_info_to_record-record_to_file_info_example =
    file_info_to_record-record_to_file_info test_env 0 1 test_record test_info blank_file_info
      (97 ∷ 98 ∷ []) (replicate (get_file_info_data_size test_info) 0) (replicate 3 0) refl
      test_info-IsStorable (omega arith) refl
      (length-replicate (get_file_info_data_size test_info) 0) refl

-- A file header whose FileNameSize is greater than the bytes that are left.
abbrev cut_short : KcfRecord
cut_short = record test_record {
  head_type = file_header_type;
  bytes = some (info_head test_info 5 ++ (97 ∷ 98 ∷ []));
  data_size = length (info_head test_info 5 ++ (97 ∷ 98 ∷ []));
}

file_info_to_record-any_name_example :
    file_info_to_record test_env 0 blank_file_info (rec_fix test_env cut_short) ≡ Outcome.undefined
file_info_to_record-any_name_example =
    file_info_to_record-any_name test_env 0 blank_file_info test_info (rec_fix test_env cut_short) 5
      (97 ∷ 98 ∷ []) (replicate 6 0) (rec_validate-rec_fix test_env cut_short)
      (unfold rec_fix in refl) (unfold rec_fix in refl) (unfold rec_fix in refl)
      test_info-IsStorable (omega arith) refl

read_le-write_le_example :
    (write_le w32 (7 ∷ replicate 9 0) 10 (some 1) 513
      ≡ done (true, stored 4 (7 ∷ replicate 9 0) 1 513, some 5))
    × ((write_le w32 (7 ∷ replicate 9 0) 10 (some 1) 513 >>= λ x.
          done (read_le w32 x.1 10 (some 1)))
        ≡ done (true, some 5, some 513))
read_le-write_le_example =
    read_le-write_le w32 (7 ∷ replicate 9 0) 10 (some 1) 513 (omega arith) (omega arith)
      (omega arith)
