-- ===== src/Io/ByteFile.antt =====
-- What a stream of io/io.h promises: an abstract file of bytes with a position, and a client's calls.
pub mod Streams
use kcf_old.Base.{
  ℕ, ◌+◌, ◌-◌, ◌&&◌, Bool, true, false, Option, none, some, List, [], ◌∷◌, ◌++◌, length,
}
use kcf_old.Base.{take, drop, replicate, ltb, if◌then◌else◌, ℤ, pos, negsuc, is_neg, ◌+ℤ◌}
use kcf_old.Io.{Io, io_read, io_write, io_seek, io_tell, seek_set, seek_cur, seek_end}
use kcf_old.Io.Stdio.{Whence}

pub record ByteFile : Type 0 where
  pub content : List ℕ
  pub position : ℕ

-- IO_read of a size, IO_write of a buffer, IO_seek, and IO_tell.
pub data Call : Type 0 where
  read : ℕ → Call
  write : List ℕ → Call
  seek : ℤ → Whence → Call
  tell : Call

-- What a client sees: a result with the bytes read; a result; whether IO_seek failed.
pub data Reply : Type 0 where
  got : ℤ → List ℕ → Reply
  value : ℤ → Reply
  failed : Bool → Reply

abbrev whence_value : Whence → ℕ
whence_value Whence.seek_set = seek_set
whence_value Whence.seek_cur = seek_cur
whence_value Whence.seek_end = seek_end

-- The specification.
abbrev origin : ByteFile → Whence → ℕ
origin b Whence.seek_set = 0
origin b Whence.seek_cur = b.position
origin b Whence.seek_end = length b.content

abbrev move : ByteFile → ℤ → Reply × ByteFile
move b (pos p) = (failed false, record b { position = p })
move b (negsuc n) = (failed true, b)

-- The bytes after a write: one of no bytes changes nothing, also behind the end.
abbrev pub put : ByteFile → List ℕ → List ℕ
put b [] = b.content
put b (x ∷ xs) =
    let padded = b.content ++ replicate (b.position - length b.content) 0 in
    take b.position padded ++ (x ∷ xs) ++ drop (b.position + length (x ∷ xs)) padded

unfoldable pub step : ByteFile → Call → Reply × ByteFile
step b (read n) =
    let bytes = take n (drop b.position b.content) in
    (got (pos (length bytes)) bytes, record b { position = b.position + length bytes })
step b (write bs) =
    (value (pos (length bs)), record { content = put b bs; position = b.position + length bs })
step b (seek offset whence) = move b (pos (origin b whence) +ℤ offset)
step b tell = (value (pos b.position), b)

unfoldable pub run : ByteFile → List Call → List Reply
unfolding step
run b [] = []
run b (c ∷ cs) = let (r, b') = step b c in r ∷ run b' cs

-- C asks for a positioning between output and input on a FILE, and between input and output unless
-- the input has met the file's end. What has been done since the last one:
pub data Direction : Type 0 where
  free reading writing : Direction

abbrev pub direction_after : Direction → Call → Reply → Direction
direction_after d (read n) (got ret bytes) = if ltb (length bytes) n then free else reading
direction_after d (read n) _ = reading
direction_after d (write bs) r = writing
direction_after d (seek offset whence) r = free
direction_after d tell r = d

abbrev pub allowed : Direction → Call → Bool
allowed writing (read n) = false
allowed reading (write bs) = false
allowed d c = true

-- Do the calls, on the abstract file, keep to this rule?
unfoldable pub positions_between : Direction → ByteFile → List Call → Bool
unfolding step
positions_between d b [] = true
positions_between d b (c ∷ cs) =
    let (r, b') = step b c in allowed d c && positions_between (direction_after d c r) b' cs

abbrev pub answered : Reply → Option (List Reply) → Option (List Reply)
answered r none = none
answered r (some rs) = some (r ∷ rs)

-- The same calls of a stream.
module _ {S : Type 0} where
  abbrev pub call_stream : Option (Io S) → Call → Reply × Option (Io S)
  call_stream io (read n) = let (ret, bytes, io') = io_read io (pos n) in (got ret bytes, io')
  call_stream io (write bs) = let (ret, io') = io_write io bs (pos (length bs)) in (value ret, io')
  call_stream io (seek offset whence) =
      let (ret, io') = io_seek io offset (whence_value whence) in (failed (is_neg ret), io')
  call_stream io tell = let (ret, io') = io_tell io in (value ret, io')

  unfoldable pub run_stream : Option (Io S) → List Call → List Reply
  run_stream io [] = []
  run_stream io (c ∷ cs) = let (r, io') = call_stream io c in r ∷ run_stream io' cs

  -- The calls of a stream over a FILE: `none` is the undefined behaviour of a call that breaks the
  -- rule.
  unfoldable pub run_cfile : Direction → Option (Io S) → List Call → Option (List Reply)
  run_cfile d io [] = some []
  run_cfile d io (c ∷ cs) =
      let (r, io') = call_stream io c in
      let rest = run_cfile (direction_after d c r) io' cs in
      if allowed d c then answered r rest else none
