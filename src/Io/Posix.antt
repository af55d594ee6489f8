-- ===== src/Io/Posix.antt =====
-- The calls of POSIX that io/fd.c makes, and what they do to a regular file.
use kcf_old.Base.{ℕ, ◌+◌, List, length, Option, none, some}
use kcf_old.Base.{if◌then◌else◌, ℤ, pos, negsuc}
use kcf_old.Io.Stdio.{File, Whence, fseeko, stored_at}
use kcf_old.Io.OnFile.{next_bytes}

-- The calls on descriptors of type `D`. `none` for a result of -1; a read gives the bytes that it
-- puts into the buffer, whose number is its result. `no_descriptor` is the descriptor -1.
pub record Posix (D : Type 0) : Type 0 where
  pub read : D → ℕ → Option (List ℕ) × D
  pub write : D → List ℕ → Option ℕ × D
  pub lseek : D → ℤ → Whence → ℤ × D
  pub close : D → ℤ × D
  pub no_descriptor : D

-- A descriptor: closed, or of an open regular file.
pub data Descriptor : Type 0 where
  closed : Descriptor
  opened : File → Descriptor

abbrev regular_read : Descriptor → ℕ → Option (List ℕ) × Descriptor
regular_read closed n = (none, closed)
regular_read (opened f) n =
    if f.can_read
    then (
      some (next_bytes f n),
      opened (record f { position = f.position + length (next_bytes f n) }),
    )
    else (none, opened f)

abbrev regular_write : Descriptor → List ℕ → Option ℕ × Descriptor
regular_write closed bs = (none, closed)
regular_write (opened f) bs =
    if f.can_write
    then (
      some (length bs),
      opened (record f {
        content = stored_at f.content f.position bs;
        position = f.position + length bs;
      }),
    )
    else (none, opened f)

-- lseek returns the new position, where fseeko returns 0.
abbrev new_position : ℤ × File → ℤ × Descriptor
new_position (pos n, f) = (pos f.position, opened f)
new_position (negsuc n, f) = (negsuc n, opened f)

abbrev regular_lseek : Descriptor → ℤ → Whence → ℤ × Descriptor
regular_lseek closed offset whence = (negsuc 0, closed)
regular_lseek (opened f) offset whence = new_position (fseeko f offset whence)

abbrev regular_close : Descriptor → ℤ × Descriptor
regular_close closed = (negsuc 0, closed)
regular_close (opened f) = (pos 0, closed)

abbrev pub regular_posix : Posix Descriptor
regular_posix = record {
  read = regular_read;
  write = regular_write;
  lseek = regular_lseek;
  close = regular_close;
  no_descriptor = closed;
}
