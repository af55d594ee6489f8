-- ===== src/Io/OnFile.antt =====
-- What the IO_ functions do on a stream of io/cfile.c.
use kcf_old.Base.{ℕ, [], ◌∷◌, ◌+◌, ◌-◌, ◌≤◌, ◌≡◌, refl, arith, true, List, ◌++◌, length}
use kcf_old.Base.{
  Option, some, take, drop, replicate, overwrite, take_all, append-nil, pos, sym, ap, ◌∙◌,
  overwrite-append, drop_all, length-append, take-append, take-append-drop,
}
use kcf_old.Io.{Io, io_read, io_write, io_seek, io_tell, seek_set}
use kcf_old.Io.Stdio.{File, fread, fwrite, fseeko, ftello, stored_at}
use kcf_old.Io.CFile.{cfile_method}

-- The stream over the file `f`.
abbrev pub file_stream : File → ℕ → Option (Io File)
file_stream f flags = some (record { method = cfile_method; handle = f; flags = flags })

-- The bytes that a read of `n` gets: fewer at the file's end.
abbrev pub next_bytes : File → ℕ → List ℕ
next_bytes f n = take n (drop f.position f.content)

no_gap :
    (f : File)
    → f.position ≤ length f.content
    → f.content ++ replicate (f.position - length f.content) 0 ≡ f.content
no_gap f inside = let gap : f.position - length f.content ≡ 0 = omega arith in rw (gap, append-nil)

-- A write within the file, or at its end, leaves no gap.
stored_at-inside :
    (f : File)
    → f.position ≤ length f.content
    → (bs : List ℕ) → stored_at f.content f.position bs ≡ overwrite f.content f.position bs
stored_at-inside f inside [] =
    let same : f.position ≡ f.position + 0 = omega arith in
    rw (append-nil (take f.position f.content), sym same)
      (sym (take-append-drop f.position f.content))
stored_at-inside f inside (b ∷ bs) = ap (λ c. overwrite c f.position (b ∷ bs)) (no_gap f inside)

module _ (f : File) (flags : ℕ) where
  pub io_read-file :
      (n : ℕ)
      → f.can_read ≡ true
      → io_read (file_stream f flags) (pos n) ≡ (
        pos (length (next_bytes f n)),
        next_bytes f n,
        file_stream (record f { position = f.position + length (next_bytes f n) }) flags,
      )
  unfolding io_read cfile_method fread
  io_read-file n can = ground arith

  pub io_write-file :
      (bs : List ℕ)
      → f.can_write ≡ true
      → f.position ≤ length f.content
      → io_write (file_stream f flags) bs (pos (length bs)) ≡ (
        pos (length bs),
        file_stream
            (record f {
              content = overwrite f.content f.position bs;
              position = f.position + length bs;
            })
            flags,
      )
  unfolding io_write cfile_method fwrite
  io_write-file bs can inside =
      rw (can, take_all (length bs) bs (omega arith), stored_at-inside f inside bs) refl

  -- A write of the front of a buffer.
  pub io_write-front :
      (bs tail : List ℕ)
      → io_write (file_stream f flags) (bs ++ tail) (pos (length bs))
        ≡ io_write (file_stream f flags) bs (pos (length bs))
  unfolding io_write cfile_method
  io_write-front bs tail = rw (take-append, take_all (length bs) bs (omega arith)) refl

  pub io_seek-file :
      (p : ℕ)
      → io_seek (file_stream f flags) (pos p) seek_set
        ≡ (pos 0, file_stream (record f { position = p }) flags)
  unfolding io_seek cfile_method fseeko
  io_seek-file p = ground arith

  pub io_tell-file : io_tell (file_stream f flags) ≡ (pos f.position, file_stream f flags)
  unfolding io_tell cfile_method ftello
  io_tell-file = refl

-- The file after `bs` has been written at its position.
abbrev pub written : File → List ℕ → File
written f bs = record f {
  content = overwrite f.content f.position bs;
  position = f.position + length bs;
}

-- The file `f` with the bytes `xs`, positioned at its end.
abbrev pub ended : File → List ℕ → File
ended f xs = record f { content = xs; position = length xs }

pub written-ended : (f : File) (xs bs : List ℕ) → written (ended f xs) bs ≡ ended f (xs ++ bs)
written-ended f xs bs =
    let whole : overwrite xs (length xs) bs ≡ xs ++ bs =
      ap (λ t. overwrite t (length xs) bs) (sym (append-nil xs))
      ∙ overwrite-append xs [] bs
      ∙ ap (λ t. xs ++ (bs ++ t)) (drop_all (length bs) [] (omega arith))
      ∙ ap (λ t. xs ++ t) (append-nil bs) in
    rw (whole, length-append xs bs) refl

-- A write at the file's end, where there is no gap to fill.
pub appended :
    (f : File) (xs bs : List ℕ)
    → record (ended f xs) {
      content = stored_at xs (length xs) bs;
      position = length xs + length bs;
    }
      ≡ ended f (xs ++ bs)
appended f xs bs =
    ap (λ c. record (ended f xs) { content = c; position = length xs + length bs })
      (stored_at-inside (ended f xs) (omega arith) bs)
    ∙ written-ended f xs bs
