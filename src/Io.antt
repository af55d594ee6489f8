-- ===== src/Io.antt =====
-- include/io/io.h, io/io_local.h and io/io.c: a stream is a table of methods with a handle, and the
-- IO_ functions call the method that the table has. A stream that is called comes back changed.
pub mod Stdio
pub mod CFile
pub mod OnFile
pub mod Chunks
pub mod Posix
pub mod Fd
pub mod Win32
pub mod Hanging
pub mod ByteFile
use kcf_old.Base.{ℕ, Bool, Option, none, some, List, [], ℤ, pos, negsuc, bit_or}

-- struct io_method_st, over handles of type `S`. `none` is a null method. A read is given the size
-- and returns its result, the bytes that it put at the buffer's front, and the handle; a close is
-- also given the stream's flags.
pub record IoMethod (S : Type 0) : Type 0 where
  pub type : ℕ
  pub read : Option (S → ℤ → ℤ × List ℕ × S)
  pub write : Option (S → List ℕ → ℤ → ℤ × S)
  pub seek : Option (S → ℤ → ℕ → ℤ × S)
  pub tell : Option (S → ℤ × S)
  pub flush : Option (S → ℤ × S)
  pub close : Option (S → ℕ → ℤ × S)

-- struct io_stream_st
pub record Io (S : Type 0) : Type 0 where
  pub method : IoMethod S
  pub handle : S
  pub flags : ℕ

-- IO_SEEK_SET, IO_SEEK_CUR, IO_SEEK_END
abbrev pub seek_set : ℕ
seek_set = 0

abbrev pub seek_cur : ℕ
seek_cur = 1

abbrev pub seek_end : ℕ
seek_end = 2

module _ {S : Type 0} where
  abbrev call_read : Io S → ℤ → Option (S → ℤ → ℤ × List ℕ × S) → ℤ × List ℕ × Option (Io S)
  call_read io size none = (negsuc 1, [], some io)
  call_read io size (some m) =
      let (ret, bytes, handle) = m io.handle size in
      (ret, bytes, some (record io { handle = handle }))

  -- `IO_read`; the first `none` is a null stream.
  unfoldable pub io_read : Option (Io S) → ℤ → ℤ × List ℕ × Option (Io S)
  io_read none size = (negsuc 0, [], none)
  io_read (some io) size = call_read io size io.method.read

  abbrev call_write : Io S → List ℕ → ℤ → Option (S → List ℕ → ℤ → ℤ × S) → ℤ × Option (Io S)
  call_write io buffer size none = (negsuc 1, some io)
  call_write io buffer size (some m) =
      let (ret, handle) = m io.handle buffer size in (ret, some (record io { handle = handle }))

  -- `IO_write`
  unfoldable pub io_write : Option (Io S) → List ℕ → ℤ → ℤ × Option (Io S)
  io_write none buffer size = (negsuc 0, none)
  io_write (some io) buffer size = call_write io buffer size io.method.write

  abbrev call_seek : Io S → ℤ → ℕ → Option (S → ℤ → ℕ → ℤ × S) → ℤ × Option (Io S)
  call_seek io offset whence none = (negsuc 1, some io)
  call_seek io offset whence (some m) =
      let (ret, handle) = m io.handle offset whence in (ret, some (record io { handle = handle }))

  -- `IO_seek`
  unfoldable pub io_seek : Option (Io S) → ℤ → ℕ → ℤ × Option (Io S)
  io_seek none offset whence = (negsuc 0, none)
  io_seek (some io) offset whence = call_seek io offset whence io.method.seek

  abbrev call : Io S → Option (S → ℤ × S) → ℤ × Option (Io S)
  call io none = (negsuc 1, some io)
  call io (some m) = let (ret, handle) = m io.handle in (ret, some (record io { handle = handle }))

  -- `IO_tell`
  unfoldable pub io_tell : Option (Io S) → ℤ × Option (Io S)
  io_tell none = (negsuc 0, none)
  io_tell (some io) = call io io.method.tell

  -- `IO_flush`
  unfoldable pub io_flush : Option (Io S) → ℤ × Option (Io S)
  io_flush none = (negsuc 0, none)
  io_flush (some io) = call io io.method.flush

  abbrev call_close : Io S → Option (S → ℕ → ℤ × S) → ℤ × S
  call_close io none = (pos 0, io.handle)
  call_close io (some m) = m io.handle io.flags

  -- `IO_close`, which also frees the stream: only its result and the handle are left.
  unfoldable pub io_close : Io S → ℤ × S
  io_close io = call_close io io.method.close

  -- `IO_create`, with the handle that the caller then stores. The first Boolean says that `method`
  -- is not null, the second that calloc succeeds.
  unfoldable pub io_create : Option (IoMethod S) → Bool → S → Option (Io S)
  io_create none allocated handle = none
  io_create (some m) Bool.false handle = none
  io_create (some m) Bool.true handle = some (record { method = m; handle = handle; flags = 0 })
