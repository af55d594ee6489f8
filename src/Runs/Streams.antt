-- ===== src/Runs/Streams.antt =====
-- Runs of the streams of io/ on small files.
use kcf_old.Base.{
  ◌+◌, ◌≡◌, refl, arith, true, false, List, [], ◌∷◌, length, drop, take, some, none, if◌then◌else◌,
  pos, negsuc,
}
use kcf_old.Io.{seek_set, io_read, io_write, io_seek, io_tell}
use kcf_old.Io.Stdio.{File, Whence, fread, fwrite, fseeko, ftello}
use kcf_old.Io.ByteFile.{
  ByteFile, Call, Reply, Direction, run, run_stream, run_cfile, positions_between,
}
use kcf_old.Io.ByteFile.Streams.{stream_of, as_file, as_descriptor, run_stream-cfile-fd}
use kcf_old.Io.OnFile.{ended}
use kcf_old.Io.CFile.{cfile_method, cfile_read_4}
use kcf_old.Io.Posix.{regular_posix}
use kcf_old.Io.Fd.{fd_method, fd_read}
use kcf_old.Io.Fd.Loops.{descriptor_at}
use kcf_old.Io.Hanging.{reads_past_end-hang}
use kcf_old.Io.Chunks.Ends.{Gives}
use kcf_old.Io.Win32.{w32_seek, w32_read, w32_write, no_error}
use kcf_old.Io.Win32.Regular.{Handle, regular_win32}
use kcf_old.Io.Win32.Seeking.{w32_seek-file}
use kcf_old.Io.Win32.Moving.{w32_read-w32_write, w32_loops-Gives, handle_at}

abbrev small_file : ByteFile
small_file = record { content = 1 ∷ 2 ∷ 3 ∷ []; position = 1 }

-- Reading, moving behind the end, and writing there.
abbrev some_calls : List Call
some_calls =
    Call.read 5
    ∷ Call.seek (pos 1) Whence.seek_end
    ∷ Call.write (9 ∷ [])
    ∷ Call.tell
    ∷ Call.seek (negsuc 0) Whence.seek_set
    ∷ Call.seek (negsuc 2) Whence.seek_cur
    ∷ Call.read 9
    ∷ []

abbrev their_replies : List Reply
their_replies =
    Reply.got (pos 2) (2 ∷ 3 ∷ [])
    ∷ Reply.failed false
    ∷ Reply.value (pos 1)
    ∷ Reply.value (pos 5)
    ∷ Reply.failed true
    ∷ Reply.failed false
    ∷ Reply.got (pos 3) (3 ∷ 0 ∷ 9 ∷ [])
    ∷ []

run-some_calls : run small_file some_calls ≡ their_replies
unfolding run
run-some_calls = refl

abbrev test_file : File
test_file = as_file false small_file

run_cfile-some_calls :
    run_cfile Direction.free (stream_of cfile_method 0 test_file) some_calls ≡ some their_replies
unfolding run_cfile io_read io_write io_seek io_tell cfile_method fread fwrite fseeko ftello
run_cfile-some_calls = refl

-- A write directly after a read that does not meet the file's end.
run_cfile-read_write :
    run_cfile Direction.free
      (stream_of cfile_method 0 test_file)
      (Call.read 1 ∷ Call.write (9 ∷ []) ∷ [])
    ≡ none
unfolding run_cfile io_read io_write io_seek io_tell cfile_method fread fwrite fseeko ftello
run_cfile-read_write = refl

run_stream-cfile-fd_example :
    (run_cfile Direction.free (stream_of cfile_method 0 test_file) some_calls ≡ (
      if positions_between Direction.free small_file some_calls
      then some (run small_file some_calls)
      else none))
    × (run_stream
          (stream_of (fd_method regular_posix (pos 7)) 0 (as_descriptor small_file))
          some_calls
        ≡ run small_file some_calls)
run_stream-cfile-fd_example = run_stream-cfile-fd small_file some_calls 0 false (pos 7)

reads_past_end-hang_example :
    (fd_read regular_posix true 1000 (descriptor_at test_file 1) (pos 3_000_000_000) ≡ none)
    × (cfile_read_4 1000 (record test_file { position = 1 }) (pos 3_000_000_000) ≡ none)
reads_past_end-hang_example =
    reads_past_end-hang test_file 1 3_000_000_000 1000 1000 refl refl (omega arith) (omega arith)

w32_read-w32_write_example :
    (w32_read regular_win32 (handle_at test_file 0 1) (pos 3_000_000_000)
      ≡ some (
        pos (length (take 3_000_000_000 (drop 1 test_file.content))),
        take 3_000_000_000 (drop 1 test_file.content),
        handle_at test_file 0 (1 + length (take 3_000_000_000 (drop 1 test_file.content))),
      ))
    × (w32_write regular_win32 (Handle.opened (ended test_file (7 ∷ [])) 0) (8 ∷ 9 ∷ []) (pos 2)
        ≡ some (pos 2, Handle.opened (ended test_file (7 ∷ 8 ∷ 9 ∷ [])) 0))
w32_read-w32_write_example =
    w32_read-w32_write test_file 0 1 3_000_000_000 (7 ∷ []) (8 ∷ 9 ∷ []) refl refl

w32_seek-file_example :
    w32_seek regular_win32 0 (Handle.opened test_file 0) (pos 3_000_000_000) seek_set
    ≡ (negsuc 1_294_967_295, Handle.opened (record test_file { position = 3_000_000_000 }) no_error)
w32_seek-file_example = w32_seek-file 0 test_file 0 3_000_000_000 (omega arith)

w32_loops-Gives_example :
    Gives (w32_read regular_win32 (Handle.opened test_file 0) (pos 3_000_000_000))
    × Gives (w32_write regular_win32 (Handle.opened test_file 0) [] (pos 3_000_000_000))
w32_loops-Gives_example =
    w32_loops-Gives regular_win32 (Handle.opened test_file 0) [] (pos 3_000_000_000)
