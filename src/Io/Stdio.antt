-- ===== src/Io/Stdio.antt =====
-- The C library's FILE as far as io/cfile.c uses it: an open file's bytes, its position, whether it
-- was opened for reading and for writing, its error indicator, and whether the handle that a stream
-- holds of it is NULL, as it is when the file has been closed.
use kcf_old.Base.{ℕ, ◌+◌, ◌-◌, Bool, true, List, [], ◌∷◌, ◌++◌, length, take, drop, replicate}
use kcf_old.Base.{overwrite, if◌then◌else◌, ℤ, pos, negsuc, ◌+ℤ◌}

pub record File : Type 0 where
  pub content : List ℕ
  pub position : ℕ
  pub can_read : Bool
  pub can_write : Bool
  pub error : Bool
  pub is_null : Bool

-- `fread(buffer, 1, n, file)`: the count, the bytes, the file. At the end of the file the count is
-- short; a file that is not open for reading gives no byte and has its error indicator set.
unfoldable pub fread : File → ℕ → ℕ × List ℕ × File
fread f n =
    if f.can_read
    then (let got = take n (drop f.position f.content) in
        (length got, got, record f { position = f.position + length got }))
    else (0, [], record f { error = true })

-- The bytes of a file when `bs` has been written at `p`: a gap behind the file's end is filled with
-- zeros, and a write of no bytes changes nothing.
abbrev pub stored_at : List ℕ → ℕ → List ℕ → List ℕ
stored_at content p [] = content
stored_at content p (b ∷ bs) = overwrite (content ++ replicate (p - length content) 0) p (b ∷ bs)

-- `fwrite(buffer, 1, n, file)` of the bytes `bs`.
unfoldable pub fwrite : File → List ℕ → ℕ × File
fwrite f bs =
    if f.can_write
    then (
      length bs,
      record f { content = stored_at f.content f.position bs; position = f.position + length bs },
    )
    else (0, record f { error = true })

-- SEEK_SET, SEEK_CUR, SEEK_END, under the C library's own values.
pub data Whence : Type 0 where
  seek_set seek_cur seek_end : Whence

abbrev base_of : File → Whence → ℤ
base_of f seek_set = pos 0
base_of f seek_cur = pos f.position
base_of f seek_end = pos (length f.content)

abbrev seek_to : File → ℤ → ℤ × File
seek_to f (pos p) = (pos 0, record f { position = p })
seek_to f (negsuc n) = (negsuc 0, f)

-- `fseeko`: an offset before the file's start is refused.
unfoldable pub fseeko : File → ℤ → Whence → ℤ × File
fseeko f offset whence = seek_to f (base_of f whence +ℤ offset)

unfoldable pub ftello : File → ℤ × File
ftello f = (pos f.position, f)

unfoldable pub fflush : File → ℤ × File
fflush f = (pos 0, f)

abbrev pub eof : ℤ
eof = negsuc 0

unfoldable pub fclose : File → ℤ × File
fclose f = (pos 0, f)
