-- ===== src/Runs/Programs.antt =====
-- Runs of the program, of the archive header, and of added data of an announced size.
use kcf_old.Base.{
  ℕ, zero, suc, ◌+◌, ℤ, none, false, ◌≡◌, refl, arith, true, [], ◌∷◌, ◌++◌, length, some, replicate,
  pos,
}
use kcf_old.Errors.{KcfError, invalid_state}
use kcf_old.Action.{ok, ◌>>◌}
use kcf_old.Io.Stdio.{File}
use kcf_old.Io.OnFile.{ended}
use kcf_old.Record.Layout.{encode}
use kcf_old.Kcf.{Kcf, ParserState, blank_record}
use kcf_old.Kcf.Read.Header.{at}
use kcf_old.Kcf.Write.{kcf_write_archive_header}
use kcf_old.Kcf.Write.OnFile.{over}
use kcf_old.Kcf.Write.Session.{write_chunks}
use kcf_old.Kcf.Write.Announced.{announced, write_chunks-announced}
use kcf_old.Kcf.RoundTrip.Header.{header, read_archive_header, read_archive_header-write}
use kcf_old.Report.{Piece, exited}
use kcf_old.Unpacking.{Unpacker, unpacking, failed_to_unpack}
use kcf_old.Unpacking.Ends.{FailsAfter, succeeds}
use kcf_old.Program.Unpacks.{main-never_succeeds_unpacking, main-unpacks_to_error}
use kcf_old.Program.{Surroundings, Unset, creating, packing, failed_to_pack, main}
use kcf_old.Program.Packing.{main-never_packs}
use kcf_old.Runs.{
  test_env, test_laws, test_allocates, test_file, test_io, test_archive, test_chunks,
}

abbrev test_surroundings : Surroundings File
test_surroundings = record { open_cfile = λ t path mode. some test_io; calloc = true }

abbrev test_unset : Unset
test_unset = record {
  file_size = pos 5;
  record_local = blank_record;
  bytes_read = 1;
  buffer = replicate 4096 0;
  error = pos 0;
}

-- An archive of so many files, behind which UnpackCurrentFile returns the error 9.
abbrev unpack_one : ℕ → ℤ × ℕ
unpack_one zero = (pos 9, 0)
unpack_one (suc n) = (pos 0, n)

abbrev test_unpacker : Unpacker ℕ
test_unpacker = record {
  create_archive = λ w path. (pos 0, w);
  scan_archive_for_marker = λ w. w;
  read_record = λ w. w;
  record_to_archive_header = λ w. (pos 0, w);
  unpack_current_file = unpack_one;
  close_archive = λ w. w + 100;
  get_kcf_error_string = λ e. none;
}

main-never_packs_example :
    main test_env test_surroundings test_unset 9 test_unpacker 4 2
      (107 ∷ [])
      ((99 ∷ []) ∷ (97 ∷ []) ∷ (98 ∷ []) ∷ [])
    ≡ (
      exited 1 (
          creating (97 ∷ [])
          ∷ packing (98 ∷ [])
          ∷ failed_to_pack (107 ∷ []) (98 ∷ []) invalid_state
          ∷ []),
      2,
    )
main-never_packs_example =
    main-never_packs test_env test_surroundings test_unset 9 test_unpacker 4 2 (107 ∷ []) (97 ∷ [])
      (98 ∷ []) [] test_io test_io refl refl refl

-- Two files are unpacked.
main-unpacks_to_error_example :
    main test_env test_surroundings test_unset 9 test_unpacker 4 2
      (107 ∷ [])
      ((120 ∷ []) ∷ (97 ∷ []) ∷ [])
    ≡ (exited 1 (unpacking ∷ failed_to_unpack (107 ∷ []) (97 ∷ []) none ∷ []), 100)
main-unpacks_to_error_example =
    main-unpacks_to_error test_env test_surroundings test_unset 9 test_unpacker 4 (107 ∷ [])
      (97 ∷ []) [] 2 2 2 0 2 (pos 9) refl refl
      (FailsAfter.goes_on refl (FailsAfter.goes_on refl (FailsAfter.stops refl refl))) (omega arith)

main-never_succeeds_unpacking_example :
    succeeds
      (main test_env test_surroundings test_unset 9 test_unpacker 4 2
        (107 ∷ [])
        ((120 ∷ []) ∷ (97 ∷ []) ∷ [])).0
    ≡ false
main-never_succeeds_unpacking_example =
    main-never_succeeds_unpacking test_env test_surroundings test_unset 9 test_unpacker 4 2
      (107 ∷ []) ((97 ∷ []) ∷ [])

-- An unknown command.
main-unknown :
    (main test_env test_surroundings test_unset 9 test_unpacker 4 2 (107 ∷ []) ((97 ∷ []) ∷ [])).0
    ≡ exited 1 (
        (Piece.name (107 ∷ [])
          ∷ Piece.text ": "
          ∷ Piece.name (97 ∷ [])
          ∷ Piece.text ": invalid command\n"
          ∷ [])
        ∷ [])
unfolding main
main-unknown = refl

-- Three of the five bytes are announced.
write_chunks-announced_example :
    write_chunks test_env test_chunks (announced test_env test_archive test_file 0 (7 ∷ []) [] 3)
    ≡ ok tt (
        announced test_env test_archive test_file 0
          (7 ∷ 104 ∷ 101 ∷ 108 ∷ [])
          (104 ∷ 101 ∷ 108 ∷ [])
          3)
write_chunks-announced_example =
    write_chunks-announced test_env test_laws test_archive test_file 0 refl test_chunks (7 ∷ []) []
      3 (omega arith) (omega arith) (omega arith)

read_archive_header-write_example :
    (k' : Kcf File) × ((kcf_write_archive_header test_env >> read_archive_header test_env 3) (
        over
          (record test_archive { parser_state = ParserState.write_record })
          (ended test_file (7 ∷ 8 ∷ 9 ∷ []))
          0)
      ≡ ok
          (KcfError.ok, some 1)
          (at
            (record k' { parser_state = ParserState.read_record_header })
            (ended test_file ((7 ∷ 8 ∷ 9 ∷ []) ++ encode (header test_env)))
            0
            (length ((7 ∷ 8 ∷ 9 ∷ []) ++ encode (header test_env)))))
read_archive_header-write_example =
    read_archive_header-write test_env test_allocates test_archive test_file 0 (7 ∷ 8 ∷ 9 ∷ []) refl
      refl
