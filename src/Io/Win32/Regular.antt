-- ===== src/Io/Win32/Regular.antt =====
-- What the calls of the Windows API that io/win32.c makes do to a regular file.
use kcf_old.Base.{ℕ, ◌+◌, ◌*◌, ◌/◌, ◌%◌, ◌^◌, Bool, true, false, List, length}
use kcf_old.Base.{Option, none, some, if◌then◌else◌, ℤ, pos, negsuc, to_int64, to_size}
use kcf_old.Io.Stdio.{File, Whence, fseeko, stored_at}
use kcf_old.Io.OnFile.{next_bytes}
use kcf_old.Io.Win32.{Win32, to_long, no_error}

-- A handle: closed, or of an open file, with what GetLastError answers.
pub data Handle : Type 0 where
  closed : Handle
  opened : File → ℕ → Handle

-- ERROR_INVALID_HANDLE, ERROR_ACCESS_DENIED and ERROR_NEGATIVE_SEEK
abbrev invalid_handle : ℕ
invalid_handle = 6

abbrev access_denied : ℕ
access_denied = 5

abbrev pub negative_seek : ℕ
negative_seek = 131

abbrev read_file : Handle → ℕ → Option (List ℕ) × Handle
read_file closed n = (none, closed)
read_file (opened f e) n =
    if f.can_read
    then (
      some (next_bytes f n),
      opened (record f { position = f.position + length (next_bytes f n) }) e,
    )
    else (none, opened f access_denied)

abbrev write_file : Handle → List ℕ → Option ℕ × Handle
write_file closed bs = (none, closed)
write_file (opened f e) bs =
    if f.can_write
    then (
      some (length bs),
      opened
          (record f {
            content = stored_at f.content f.position bs;
            position = f.position + length bs;
          })
          e,
    )
    else (none, opened f access_denied)

-- The 64-bit distance that the two LONGs make, and the position's halves.
abbrev pub distance : ℤ → ℤ → ℤ
distance low high = to_int64 (to_size high % 2 ^ 32 * 2 ^ 32 + to_size low % 2 ^ 32)

abbrev halves : ℤ → ℤ × File → ℕ × ℤ × Handle
halves high (pos n, f) =
    (f.position % 2 ^ 32, to_long (f.position / 2 ^ 32 % 2 ^ 32), opened f no_error)
halves high (negsuc n, f) = (0xFFFFFFFF, high, opened f negative_seek)

abbrev set_file_pointer : Handle → ℤ → ℤ → Whence → ℕ × ℤ × Handle
set_file_pointer closed low high whence = (0xFFFFFFFF, high, closed)
set_file_pointer (opened f e) low high whence = halves high (fseeko f (distance low high) whence)

abbrev get_last_error : Handle → ℕ
get_last_error closed = invalid_handle
get_last_error (opened f e) = e

abbrev close_handle : Handle → Bool × Handle
close_handle closed = (false, closed)
close_handle (opened f e) = (true, closed)

abbrev pub regular_win32 : Win32 Handle
regular_win32 = record {
  read_file = read_file;
  write_file = write_file;
  set_file_pointer = set_file_pointer;
  get_last_error = get_last_error;
  close_handle = close_handle;
  null_handle = closed;
  is_invalid = λ h. false;
}
