-- ===== src/Io/Win32.antt =====
-- io/win32.c: the stream methods over a Windows file handle, as they are where _WIN32 is defined.
pub mod Regular
pub mod Seeking
pub mod Moving
use kcf_old.Base.{
  ℕ, zero, suc, ◌+◌, ◌-◌, ◌*◌, ◌/◌, ◌%◌, ◌^◌, Bool, true, false, ◌&&◌, not, Option, none, some,
}
use kcf_old.Base.{
  List, [], length, take, ltb, ◌==◌, if◌then◌else◌, inl, inr, refl, arith, Bool-cases, ◌∷◌, bit_or,
  bit_and,
}
use kcf_old.Base.{ℤ, pos, negsuc, pos_part, to_int64, to_size, ltb_ℤ}
use kcf_old.Io.{IoMethod, Io, io_create, seek_set, seek_cur, seek_end}
use kcf_old.Io.Stdio.{Whence}
use kcf_old.Io.CFile.{flag_close}
use kcf_old.Io.Chunks.{int32_max, Round, chunked_read, chunked_write}
use kcf_old.Io.Chunks.Ends.{chunked_read-ends, chunked_write-ends, Gives, Progress, Takes}

-- The calls of the Windows API on handles of type `H`. A read gives the bytes that it puts into the
-- buffer, whose number is *lpNumberOfBytesRead, a write *lpNumberOfBytesWritten; `none`: the call
-- returns FALSE. SetFilePointer is given the two LONGs, and returns the low DWORD and the high LONG.
-- `null_handle` is the handle 0, and `is_invalid` compares with INVALID_HANDLE_VALUE.
pub record Win32 (H : Type 0) : Type 0 where
  pub read_file : H → ℕ → Option (List ℕ) × H
  pub write_file : H → List ℕ → Option ℕ × H
  pub set_file_pointer : H → ℤ → ℤ → Whence → ℕ × ℤ × H
  pub get_last_error : H → ℕ
  pub close_handle : H → Bool × H
  pub null_handle : H
  pub is_invalid : H → Bool

-- (DWORD)x, and (LONG)x of a DWORD.
abbrev to_dword : ℤ → ℕ
to_dword x = to_size x % 2 ^ 32

abbrev pub to_long : ℕ → ℤ
to_long x = if ltb x (2 ^ 31) then pos x else negsuc (2 ^ 32 - 1 - x)

abbrev from_long : ℤ → ℕ
from_long x = to_size x % 2 ^ 32

-- INVALID_SET_FILE_POINTER and NO_ERROR
abbrev invalid_set_file_pointer : ℕ
invalid_set_file_pointer = 0xFFFFFFFF

abbrev pub no_error : ℕ
no_error = 0

-- The two halves of the new position put together; new_offset_low is a LONG.
abbrev pub joined : ℕ → ℤ → ℤ
joined low high =
    if from_long high == 0
    then to_long low
    else to_int64 ((low + to_size high % 2 ^ 32 * 2 ^ 32) % 2 ^ 64)

module _ {H : Type 0} (w : Win32 H) where
  -- One round: `if (!result) return -1; if (n_read == 0) break;`
  abbrev pub read_round : Option (List ℕ) × H → Round H (List ℕ)
  read_round (none, h) = Round.returned (negsuc 0) h
  read_round (some [], h) = Round.broken h
  read_round (some (x ∷ bytes), h) = Round.moved (x ∷ bytes) h

  abbrev pub w32_read_round : H → ℕ → Round H (List ℕ)
  w32_read_round h n = read_round (w.read_file h n)

  abbrev pub write_round : Option ℕ × H → Round H ℕ
  write_round (none, h) = Round.returned (negsuc 0) h
  write_round (some zero, h) = Round.broken h
  write_round (some (suc n), h) = Round.moved (suc n) h

  abbrev pub w32_write_round : H → List ℕ → Round H ℕ
  w32_write_round h bs = write_round (w.write_file h bs)

  abbrev read_result : Option (List ℕ) × H → ℤ × List ℕ × H
  read_result (none, h) = (negsuc 0, [], h)
  read_result (some bytes, h) = (pos (length bytes), bytes, h)

  abbrev write_result : Option ℕ × H → ℤ × H
  write_result (none, h) = (negsuc 0, h)
  write_result (some n, h) = (pos n, h)

  -- `_w32_read` on a handle that its assertions accept; a loop has at most `size` + 1 rounds.
  unfoldable pub w32_read : H → ℤ → Option (ℤ × List ℕ × H)
  w32_read h size =
      if ltb_ℤ (pos int32_max) size
      then chunked_read w32_read_round (pos_part size + 1) h (pos_part size) []
      else some (read_result (w.read_file h (to_dword size)))

  -- `_w32_write`
  unfoldable pub w32_write : H → List ℕ → ℤ → Option (ℤ × H)
  w32_write h buffer size =
      if ltb_ℤ (pos int32_max) size
      then chunked_write w32_write_round (pos_part size + 1) h buffer (pos_part size) 0
      else some (write_result (w.write_file h (take (to_dword size) buffer)))

  -- The switch of `_w32_seek`, which has no default: then new_offset_low has no value, which is
  -- `unset`, and offset_high is left.
  abbrev move_pointer : ℕ → H → ℤ → ℤ → ℕ → ℕ × ℤ × H
  move_pointer unset h low high whence =
      if whence == seek_set
      then w.set_file_pointer h low high Whence.seek_set
      else if whence == seek_cur
      then w.set_file_pointer h low high Whence.seek_cur
      else if whence == seek_end
      then w.set_file_pointer h low high Whence.seek_end
      else (unset, high, h)

  -- `_w32_seek`
  unfoldable pub w32_seek : ℕ → H → ℤ → ℕ → ℤ × H
  w32_seek unset h offset whence =
      let low = to_long (to_size offset % 2 ^ 32) in
      let high = to_long (to_size offset / 2 ^ 32) in
      let (new_low, new_high, h') = move_pointer unset h low high whence in
      if new_low == invalid_set_file_pointer && not (w.get_last_error h' == no_error)
      then (negsuc 0, h')
      else (joined new_low new_high, h')

  -- `_w32_tell` and `_w32_flush`
  unfoldable pub w32_tell : ℕ → H → ℤ × H
  unfolding w32_seek
  w32_tell unset h = w32_seek unset h (pos 0) seek_cur

  unfoldable pub w32_flush : H → ℤ × H
  w32_flush h = (pos 0, h)

  abbrev close_result : Bool × H → ℤ × H
  close_result (true, h) = (pos 0, w.null_handle)
  close_result (false, h) = (negsuc 0, h)

  -- `_w32_close`
  unfoldable pub w32_close : H → ℕ → ℤ × H
  w32_close h flags =
      if bit_and flags flag_close == 0 then (pos 0, h) else close_result (w.close_handle h)

  Progress-read_round : (r : Option (List ℕ) × H) → Progress (read_round r)
  Progress-read_round (none, h) = tt
  Progress-read_round (some [], h) = tt
  Progress-read_round (some (x ∷ bytes), h) = omega arith

  Takes-write_round : (r : Option ℕ × H) → Takes (write_round r)
  Takes-write_round (none, h) = tt
  Takes-write_round (some zero, h) = tt
  Takes-write_round (some (suc n), h) = omega arith

  pub w32_read-Gives : (h : H) (size : ℤ) → Gives (w32_read h size)
  unfolding w32_read
  w32_read-Gives h size = elim (Bool-cases (ltb_ℤ (pos int32_max) size)) [
    | inl large ↦ rw large (
        chunked_read-ends w32_read_round (λ h' n. Progress-read_round (w.read_file h' n))
          (pos_part size + 1) (pos_part size) h [] (omega arith))
    | inr small ↦ rw small (_, refl)
  ]

  pub w32_write-Gives : (h : H) (buffer : List ℕ) (size : ℤ) → Gives (w32_write h buffer size)
  unfolding w32_write
  w32_write-Gives h buffer size = elim (Bool-cases (ltb_ℤ (pos int32_max) size)) [
    | inl large ↦ rw large (
        chunked_write-ends w32_write_round (λ h' bs. Takes-write_round (w.write_file h' bs))
          (pos_part size + 1) (pos_part size) 0 h buffer (omega arith))
    | inr small ↦ rw small (_, refl)
  ]

  -- `_w32_method`; its type is IO_WIN32. Since the loops end, they have results.
  unfoldable pub w32_method : ℕ → IoMethod H
  unfolding w32_seek w32_tell w32_flush w32_close
  w32_method unset = record {
    type = 3;
    read = some (λ h size. (w32_read-Gives h size).0);
    write = some (λ h buffer size. (w32_write-Gives h buffer size).0);
    seek = some (w32_seek unset);
    tell = some (w32_tell unset);
    flush = some w32_flush;
    close = some w32_close;
  }

  abbrev opened : Bool → Option (Io H) → Option (Io H)
  opened should_close none = none
  opened should_close (some io) =
      some (if should_close then record io { flags = bit_or io.flags flag_close } else io)

  -- `IO_create_handle`; the first Boolean says that calloc succeeds.
  unfoldable pub io_create_handle : ℕ → Bool → H → Bool → Option (Io H)
  io_create_handle unset allocated handle should_close =
      if w.is_invalid handle
      then none
      else opened should_close (io_create (some (w32_method unset)) allocated handle)
