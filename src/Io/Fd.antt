-- ===== src/Io/Fd.antt =====
-- io/fd.c: the stream methods over a file descriptor. Where _WIN32 is defined the calls are _read,
-- _write, _lseeki64 and _close in place of those of POSIX, which are the parameter.
pub mod Loops
use kcf_old.Base.{
  ℕ, ◌-◌, ◌%◌, ◌^◌, Bool, true, false, ◌&&◌, Option, none, some, List, [], take, ltb,
}
use kcf_old.Base.{◌==◌, if◌then◌else◌, ℤ, pos, negsuc, pos_part, to_size, ltb_ℤ, bit_or, bit_and}
use kcf_old.Base.{length}
use kcf_old.Io.{IoMethod, Io, io_create, seek_set, seek_cur, seek_end}
use kcf_old.Io.Stdio.{Whence}
use kcf_old.Io.CFile.{flag_close}
use kcf_old.Io.Posix.{Posix}
use kcf_old.Io.Chunks.{int32_max, Round, chunked_read, chunked_write}

-- `_fd_read_chunked(x)` and `_fd_write_chunked(x)`; `narrow` says that _WIN32 is defined, where the
-- count of _read and _write is an unsigned int, or that sizeof(size_t) == 4.
abbrev pub fd_chunked : Bool → ℤ → Bool
fd_chunked narrow size = narrow && ltb_ℤ (pos int32_max) size

-- The count of a single call: (unsigned)x or (size_t)x.
abbrev size_of : Bool → ℤ → ℕ
size_of narrow size = if narrow then to_size size % 2 ^ 32 else to_size size

module _ {D : Type 0} (p : Posix D) where
  abbrev read_round : Option (List ℕ) × D → Round D (List ℕ)
  read_round (none, d) = Round.returned (negsuc 0) d
  read_round (some bytes, d) = Round.moved bytes d

  abbrev write_round : Option ℕ × D → Round D ℕ
  write_round (none, d) = Round.returned (negsuc 0) d
  write_round (some n, d) = Round.moved n d

  abbrev read_result : Option (List ℕ) × D → ℤ × List ℕ × D
  read_result (none, d) = (negsuc 0, [], d)
  read_result (some bytes, d) = (pos (length bytes), bytes, d)

  abbrev write_result : Option ℕ × D → ℤ × D
  write_result (none, d) = (negsuc 0, d)
  write_result (some n, d) = (pos n, d)

  -- One round of the loop of `_fd_read`, and of that of `_fd_write`.
  abbrev pub fd_read_round : D → ℕ → Round D (List ℕ)
  fd_read_round d n = read_round (p.read d n)

  abbrev pub fd_write_round : D → List ℕ → Round D ℕ
  fd_write_round d bs = write_round (p.write d bs)

  -- `_fd_read` with at most `fuel` rounds of its loop.
  unfoldable pub fd_read : Bool → ℕ → D → ℤ → Option (ℤ × List ℕ × D)
  fd_read narrow fuel d size =
      if fd_chunked narrow size
      then chunked_read fd_read_round fuel d (pos_part size) []
      else some (read_result (p.read d (size_of narrow size)))

  -- `_fd_write`
  unfoldable pub fd_write : Bool → ℕ → D → List ℕ → ℤ → Option (ℤ × D)
  fd_write narrow fuel d buffer size =
      if fd_chunked narrow size
      then chunked_write fd_write_round fuel d buffer (pos_part size) 0
      else some (write_result (p.write d (take (size_of narrow size) buffer)))

  -- The two where _WIN32 is not defined and size_t has 8 bytes: one call, whatever the size.
  unfoldable pub fd_read_8 : D → ℤ → ℤ × List ℕ × D
  fd_read_8 d size = read_result (p.read d (size_of false size))

  unfoldable pub fd_write_8 : D → List ℕ → ℤ → ℤ × D
  fd_write_8 d buffer size = write_result (p.write d (take (size_of false size) buffer))

  -- `_fd_seek`; its switch has no default, so `unset`, the value that `ret` has before, is returned
  -- for any other whence.
  unfoldable pub fd_seek : ℤ → D → ℤ → ℕ → ℤ × D
  fd_seek unset d offset whence =
      if whence == seek_set
      then p.lseek d offset Whence.seek_set
      else if whence == seek_cur
      then p.lseek d offset Whence.seek_cur
      else if whence == seek_end
      then p.lseek d offset Whence.seek_end
      else (unset, d)

  -- `_fd_tell` and `_fd_flush`
  unfoldable pub fd_tell : D → ℤ × D
  fd_tell d = p.lseek d (pos 0) Whence.seek_cur

  unfoldable pub fd_flush : D → ℤ × D
  fd_flush d = (pos 0, d)

  abbrev close_result : ℤ × D → ℤ × D
  close_result (ret, d) =
      (ret, elim ret [ pos n ↦ if n == 0 then p.no_descriptor else d | negsuc n ↦ d ])

  -- `_fd_close`
  unfoldable pub fd_close : D → ℕ → ℤ × D
  fd_close d flags = if bit_and flags flag_close == 0 then (pos 0, d) else close_result (p.close d)

  -- `_fd_method` where size_t has 8 bytes; its type is IO_POSIX.
  unfoldable pub fd_method : ℤ → IoMethod D
  unfolding fd_read_8 fd_write_8 fd_seek fd_tell fd_flush fd_close
  fd_method unset = record {
    type = 2;
    read = some fd_read_8;
    write = some fd_write_8;
    seek = some (fd_seek unset);
    tell = some fd_tell;
    flush = some fd_flush;
    close = some fd_close;
  }

  abbrev opened : Bool → Option (Io D) → Option (Io D)
  opened should_close none = none
  opened should_close (some io) =
      some (if should_close then record io { flags = bit_or io.flags flag_close } else io)

  -- `IO_create_fd`; the first Boolean says that calloc succeeds.
  unfoldable pub io_create_fd : ℤ → Bool → D → Bool → Option (Io D)
  io_create_fd unset allocated fd should_close =
      opened should_close (io_create (some (fd_method unset)) allocated fd)
