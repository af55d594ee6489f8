-- ===== src/Io/ByteFile/Streams.antt =====
-- io/cfile.c and io/fd.c as implementations of the abstract file.
use kcf_old.Base.{
  ℕ, true, false, none, ◌&&◌, if◌then◌else◌, Bool, Option, some, List, [], ◌∷◌, ◌≡◌, refl, arith, ℤ,
  length,
}
use kcf_old.Base.{take_all}
use kcf_old.Io.{Io, IoMethod, io_read, io_write, io_seek, io_tell}
use kcf_old.Io.Stdio.{File, Whence, fread, fwrite, fseeko, ftello, stored_at}
use kcf_old.Io.CFile.{cfile_method}
use kcf_old.Io.Posix.{Descriptor, regular_posix}
use kcf_old.Io.Fd.{fd_method}
use kcf_old.Io.ByteFile.{
  ByteFile, Call, step, run, run_stream, call_stream, Reply, put, Direction, answered,
  direction_after, allowed, run_cfile, positions_between,
}

abbrev pub stream_of : {S : Type 0} → IoMethod S → ℕ → S → Option (Io S)
stream_of m flags s = some (record { method = m; handle = s; flags = flags })

-- The methods `m` implement the abstract file, with `store` as the handle that holds it.
pub record Implements {S : Type 0} (m : IoMethod S) (store : ByteFile → S) : Type 0 where
  pub simulates :
      (flags : ℕ) (b : ByteFile) (c : Call)
      → call_stream (stream_of m flags (store b)) c
        ≡ ((step b c).0, stream_of m flags (store (step b c).1))

-- An implementation answers every sequence of calls as the abstract file does.
pub run_stream-refines :
    {S : Type 0} (m : IoMethod S) (store : ByteFile → S) (i : Implements m store) (flags : ℕ)
    (cs : List Call) (b : ByteFile)
    → run_stream (stream_of m flags (store b)) cs ≡ run b cs
unfolding run_stream run
run_stream-refines m store i flags [] b = refl
run_stream-refines m store i flags (c ∷ cs) b =
    rw (i.simulates flags b c, run_stream-refines m store i flags cs (step b c).1) refl

-- A FILE open for reading and writing.
abbrev pub as_file : Bool → ByteFile → File
as_file error b = record {
  content = b.content;
  position = b.position;
  can_read = true;
  can_write = true;
  error = error;
  is_null = false;
}

stored_at-put : (b : ByteFile) (bs : List ℕ) → stored_at b.content b.position bs ≡ put b bs
stored_at-put b [] = refl
stored_at-put b (x ∷ xs) = refl

map_if :
    (a p : Bool) (r : Reply) (rs : List Reply)
    → (if a then answered r (if p then some rs else none) else none)
      ≡ (if a && p then some (r ∷ rs) else none)
map_if true true r rs = refl
map_if true false r rs = refl
map_if false p r rs = refl

cfile-simulates :
    (error : Bool) (flags : ℕ) (b : ByteFile) (c : Call)
    → call_stream (stream_of cfile_method flags (as_file error b)) c
      ≡ ((step b c).0, stream_of cfile_method flags (as_file error (step b c).1))
unfolding io_read io_write io_seek io_tell cfile_method fread fwrite fseeko ftello step
cfile-simulates error flags b (Call.read n) = refl
cfile-simulates error flags b (Call.write bs) =
    rw (take_all (length bs) bs (omega arith), stored_at-put b bs) refl
cfile-simulates error flags b (Call.seek offset Whence.seek_set) = ground arith
cfile-simulates error flags b (Call.seek offset Whence.seek_cur) = ground arith
cfile-simulates error flags b (Call.seek offset Whence.seek_end) = ground arith
cfile-simulates error flags b Call.tell = refl

pub cfile-Implements : (error : Bool) → Implements cfile_method (as_file error)
cfile-Implements error = record { simulates = cfile-simulates error }

-- A stream over a FILE answers as the abstract file does for as long as the calls keep to C's rule.
run_cfile-refines :
    (error : Bool) (flags : ℕ) (cs : List Call) (d : Direction) (b : ByteFile)
    → run_cfile d (stream_of cfile_method flags (as_file error b)) cs
      ≡ (if positions_between d b cs then some (run b cs) else none)
unfolding run_cfile run positions_between
run_cfile-refines error flags [] d b = refl
run_cfile-refines error flags (c ∷ cs) d b =
    rw
      (
        cfile-simulates error flags b c,
        run_cfile-refines error flags cs (direction_after d c (step b c).0) (step b c).1,
      )
      (map_if (allowed d c) (positions_between (direction_after d c (step b c).0) (step b c).1 cs)
        (step b c).0 (run (step b c).1 cs))

abbrev pub as_descriptor : ByteFile → Descriptor
as_descriptor b = Descriptor.opened (as_file true b)

fd-simulates :
    (unset : ℤ) (flags : ℕ) (b : ByteFile) (c : Call)
    → call_stream (stream_of (fd_method regular_posix unset) flags (as_descriptor b)) c
      ≡ ((step b c).0, stream_of (fd_method regular_posix unset) flags (as_descriptor (step b c).1))
unfolding io_read io_write io_seek io_tell fd_method fseeko step
fd-simulates unset flags b (Call.read n) = refl
fd-simulates unset flags b (Call.write bs) =
    rw (take_all (length bs) bs (omega arith), stored_at-put b bs) refl
fd-simulates unset flags b (Call.seek offset Whence.seek_set) = ground arith
fd-simulates unset flags b (Call.seek offset Whence.seek_cur) = ground arith
fd-simulates unset flags b (Call.seek offset Whence.seek_end) = ground arith
fd-simulates unset flags b Call.tell = ground arith

pub fd-Implements : (unset : ℤ) → Implements (fd_method regular_posix unset) as_descriptor
fd-Implements unset = record { simulates = fd-simulates unset }

-- A stream over a POSIX descriptor of a regular file that can be read and written answers every
-- sequence of IO_read, IO_write, IO_seek and IO_tell as an abstract file of bytes with a position
-- does: with the same bytes, the same counts and positions, and the same seeks refused. A stream
-- over a C file that can be read and written does so for exactly the sequences that keep to C's
-- rule of a positioning between output and input, and between input and output unless the input
-- has met the file's end; any other has undefined behaviour. Of IO_seek only whether it fails is
-- compared: its value is 0 on a C file and the position on a descriptor. Writing behind the
-- file's end fills the gap with zeros, and writing no bytes changes nothing. size_t has 8 bytes.
pub run_stream-cfile-fd :
    (b : ByteFile) (cs : List Call) (flags : ℕ) (error : Bool) (unset : ℤ)
    → (run_cfile Direction.free (stream_of cfile_method flags (as_file error b)) cs
        ≡ (if positions_between Direction.free b cs then some (run b cs) else none))
      × (run_stream (stream_of (fd_method regular_posix unset) flags (as_descriptor b)) cs
          ≡ run b cs)
run_stream-cfile-fd b cs flags error unset = (
  run_cfile-refines error flags cs Direction.free b,
  run_stream-refines (fd_method regular_posix unset) as_descriptor (fd-Implements unset) flags cs b,
)
