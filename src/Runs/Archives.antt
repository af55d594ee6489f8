-- ===== src/Runs/Archives.antt =====
-- The runs of the writer, alone and followed by the reader.
use kcf_old.Base.{◌+◌, ◌≡◌, refl, arith, [], ◌∷◌, ◌++◌, replicate, length-replicate, some}
use kcf_old.Action.{ok, ◌>>◌}
use kcf_old.Record.{rec_fix}
use kcf_old.Record.Layout.{encode, head_tail}
use kcf_old.Bytes.Encoding.{le}
use kcf_old.Kcf.Write.{kcf_finish_added_data}
use kcf_old.Kcf.Write.Session.{adding, concat}
use kcf_old.Kcf.Write.Finish.{final_record, finished, kcf_finish_added_data_lem}
use kcf_old.Kcf.Write.RoundTrip.{write_session, ready, stored_record, write_session-file}
use kcf_old.Kcf.RoundTrip.{read_back, read_through, read_back-write_session}
use kcf_old.Runs.{
  test_env, test_laws, test_allocates, test_record, test_file, test_archive, test_chunks,
}

read_back-write_session_example :
    (write_session test_env test_chunks >> read_back test_env 3 (replicate 8 0) 6)
      (ready test_archive test_file 0 (7 ∷ 8 ∷ 9 ∷ []), test_record)
    ≡ ok
        (5, 104 ∷ 101 ∷ 108 ∷ 108 ∷ 111 ∷ 0 ∷ 0 ∷ 0 ∷ [])
        (
          read_through test_env test_archive test_file 0
              (7 ∷ 8 ∷ 9 ∷ [])
              test_record
              (concat test_chunks),
          record (stored_record test_env test_record (concat test_chunks)) {
            bytes = some (1 ∷ 2 ∷ []);
            data_size = 2;
          },
        )
read_back-write_session_example =
    read_back-write_session test_env test_laws test_allocates test_archive test_file 0
      (7 ∷ 8 ∷ 9 ∷ []) test_record test_chunks (replicate 8 0) 6 refl refl refl (omega arith)
      (omega arith) (omega arith) refl refl (omega arith) (omega arith) (omega arith) (omega arith)
      (omega arith)

write_session-file_example :
    write_session test_env test_chunks
      (ready test_archive test_file 0 (7 ∷ 8 ∷ 9 ∷ []), test_record)
    ≡ ok tt (
      finished test_env
          (record test_archive { mallocs = test_archive.mallocs + 2 })
          test_file
          0
          (7 ∷ 8 ∷ 9 ∷ [])
          (rec_fix test_env test_record)
          (concat test_chunks),
      rec_fix test_env test_record,
    )
write_session-file_example =
    write_session-file test_env test_laws test_allocates test_archive test_file 0 refl
      (7 ∷ 8 ∷ 9 ∷ []) test_record test_chunks refl (omega arith) refl refl (omega arith)

kcf_finish_added_data_lem_example :
    kcf_finish_added_data test_env (
      adding test_env
        (record test_archive { record_offset = 3; last_record = test_record })
        test_file
        0
        (7 ∷ 8 ∷ 9 ∷ (encode test_record ++ (5 ∷ [])))
        (5 ∷ []))
    ≡ ok tt (finished test_env test_archive test_file 0 (7 ∷ 8 ∷ 9 ∷ []) test_record (5 ∷ []))
unfolding encode head_tail le
kcf_finish_added_data_lem_example =
    kcf_finish_added_data_lem test_env test_archive test_file 0 refl (7 ∷ 8 ∷ 9 ∷ []) (5 ∷ [])
      test_record (replicate (final_record test_env test_record (5 ∷ [])).head_size 0) refl
      (omega arith) (omega arith) refl
      (length-replicate (final_record test_env test_record (5 ∷ [])).head_size 0)
