-- ===== src/Io/CFile.antt =====
-- io/cfile.c: the stream methods over a stdio FILE. Those of the table are as they
-- are where size_t has 8 bytes.
use kcf_old.Base.{ℕ, Bool, Option, none, some, List, take, ℤ, pos, negsuc, to_size}
use kcf_old.Base.{◌==◌, if◌then◌else◌, bit_or, bit_and}
use kcf_old.Base.{[], true, false, ltb_ℤ, pos_part, ◌%◌, ◌^◌}
use kcf_old.Io.Chunks.{int32_max, Round, chunked_read, chunked_write}
use kcf_old.Io.{IoMethod, Io, io_create, seek_set, seek_cur, seek_end}
use kcf_old.Io.Stdio.{File, Whence, fread, fwrite, fseeko, ftello, fflush, fclose, eof}

-- `_cfile_read`: the branch that sizeof(size_t) == 8 leaves.
unfoldable pub cfile_read : File → ℤ → ℤ × List ℕ × File
cfile_read f size =
    let (read_length, bytes, f') = fread f (to_size size) in (pos read_length, bytes, f')

-- `_cfile_write`
unfoldable pub cfile_write : File → List ℕ → ℤ → ℤ × File
cfile_write f buffer size =
    let (write_length, f') = fwrite f (take (to_size size) buffer) in (pos write_length, f')

-- One round of the loop of `_cfile_read`, and of that of `_cfile_write`:
-- `if (ferror(file)) return -1;`
abbrev read_round : ℕ × List ℕ × File → Round File (List ℕ)
read_round (read_4, bytes, f) = if f.error then Round.returned (negsuc 0) f else Round.moved bytes f

abbrev pub cfile_read_round : File → ℕ → Round File (List ℕ)
cfile_read_round f n = read_round (fread f n)

abbrev write_round : ℕ × File → Round File ℕ
write_round (write_4, f) = if f.error then Round.returned (negsuc 0) f else Round.moved write_4 f

abbrev pub cfile_write_round : File → List ℕ → Round File ℕ
cfile_write_round f bs = write_round (fwrite f bs)

-- `_cfile_read` and `_cfile_write` where size_t has 4 bytes, with at most `fuel` rounds; a size of
-- at most INT32_MAX is moved by one call.
unfoldable pub cfile_read_4 : ℕ → File → ℤ → Option (ℤ × List ℕ × File)
cfile_read_4 fuel f size =
    if ltb_ℤ (pos int32_max) size
    then chunked_read cfile_read_round fuel f (pos_part size) []
    else (let (read_length, bytes, f') = fread f (to_size size % 2 ^ 32) in
        some (pos read_length, bytes, f'))

unfoldable pub cfile_write_4 : ℕ → File → List ℕ → ℤ → Option (ℤ × File)
cfile_write_4 fuel f buffer size =
    if ltb_ℤ (pos int32_max) size
    then chunked_write cfile_write_round fuel f buffer (pos_part size) 0
    else (let (write_length, f') = fwrite f (take (to_size size % 2 ^ 32) buffer) in
        some (pos write_length, f'))

-- `_cfile_seek`, its switch over the IO_SEEK values.
unfoldable pub cfile_seek : File → ℤ → ℕ → ℤ × File
cfile_seek f offset whence =
    if whence == seek_cur
    then fseeko f offset Whence.seek_cur
    else if whence == seek_set
    then fseeko f offset Whence.seek_set
    else if whence == seek_end
    then fseeko f offset Whence.seek_end
    else (negsuc 0, f)

-- `_cfile_tell` and `_cfile_flush`
unfoldable pub cfile_tell : File → ℤ × File
cfile_tell f = ftello f

unfoldable pub cfile_flush : File → ℤ × File
cfile_flush f = fflush f

abbrev same_ℤ : ℤ → ℤ → Bool
same_ℤ (pos m) (pos n) = m == n
same_ℤ (negsuc m) (negsuc n) = m == n
same_ℤ _ _ = false

-- IO_FLAG_CLOSE
abbrev pub flag_close : ℕ
flag_close = 8

-- `if (ret == EOF) ret = -1;`, with the file whose handle is NULL from now on.
abbrev after_fclose : ℤ × File → ℤ × File
after_fclose (ret, f) = (if same_ℤ ret eof then negsuc 0 else ret, record f { is_null = true })

-- `_cfile_close`
unfoldable pub cfile_close : File → ℕ → ℤ × File
cfile_close f flags =
    if bit_and flags flag_close == 0
    then (pos 0, f)
    else if f.is_null
    then (pos 0, f)
    else after_fclose (fclose f)

-- `_cfile_method`; its type is IO_CFILE.
unfoldable pub cfile_method : IoMethod File
unfolding cfile_read cfile_write cfile_seek cfile_tell cfile_flush cfile_close
cfile_method = record {
  type = 1;
  read = some cfile_read;
  write = some cfile_write;
  seek = some cfile_seek;
  tell = some cfile_tell;
  flush = some cfile_flush;
  close = some cfile_close;
}

abbrev opened : Bool → Option (Io File) → Option (Io File)
opened should_close none = none
opened should_close (some io) =
    some (if should_close then record io { flags = bit_or io.flags flag_close } else io)

-- `IO_create_fp`; the Boolean `allocated` says that calloc succeeds.
unfoldable pub io_create_fp : Bool → File → Bool → Option (Io File)
io_create_fp allocated f should_close =
    opened should_close (io_create (some cfile_method) allocated f)

-- `IO_create_cfile`: `fopen` is the file that fopen(path, mode) gives, `none` for NULL. If calloc
-- fails, the file is not closed.
unfoldable pub io_create_cfile : Option File → Bool → Option (Io File)
unfolding io_create_fp
io_create_cfile none allocated = none
io_create_cfile (some f) allocated = io_create_fp allocated f true
