-- ===== src/Kcf/Extract/Copying.antt =====
-- The loops of `KCF_extract` from an archive over one file to an output over another.
use kcf_old.Base.{
  min, ◌∷◌, ℕ, zero, suc, ◌+◌, ◌^◌, ◌≤◌, ◌<◌, ◌≡◌, refl, sym, ap, ◌∙◌, arith, true, List, [], ◌++◌,
  length, Option, pos,
}
use kcf_old.Base.{
  append_assoc, append-nil, length-append, length-take, length-drop, take-append-drop, overwrite,
  drop, take, ltb, lt→ltb, to_int64-small, if◌then◌else◌,
}
use kcf_old.Env.{Env, CrcLaws}
use kcf_old.Action.{ok}
use kcf_old.Io.{Io, io_write}
use kcf_old.Io.Stdio.{File}
use kcf_old.Io.OnFile.{file_stream, io_write-file, io_write-front, ended, written-ended}
use kcf_old.Kcf.{Kcf}
use kcf_old.Kcf.Read.Header.{drop-past}
use kcf_old.Kcf.Read.Chunks.{between, kcf_read_added_data-chunk}
use kcf_old.Kcf.Extract.{extract_loop, write_output}

module _ (env : Env) (laws : CrcLaws env) (k : Kcf File) (f : File) (fl : ℕ)
    (can : f.can_read ≡ true) (g : File) (gl : ℕ) (can_write : g.can_write ≡ true) where
  -- The archive that has read `old` and has `left` bytes to read, and the output that holds `out`.
  abbrev pub extracting : ℕ → List ℕ → ℕ → List ℕ → Kcf File × Option (Io File)
  extracting p old left out = (between env k f fl p old left, file_stream (ended g out) gl)

  write_output-chunk :
      (chunk tail out : List ℕ) (s : Kcf File)
      → length chunk < 2 ^ 62
      → write_output (chunk ++ tail) (length chunk) (s, file_stream (ended g out) gl)
        ≡ ok tt (s, file_stream (ended g (out ++ chunk)) gl)
  write_output-chunk chunk tail out s small =
      let io : io_write (file_stream (ended g out) gl) (chunk ++ tail) (pos (length chunk))
          ≡ (pos (length chunk), file_stream (ended g (out ++ chunk)) gl) =
        io_write-front (ended g out) gl chunk tail
        ∙ io_write-file (ended g out) gl chunk can_write (omega arith)
        ∙ ap (λ h. (pos (length chunk), file_stream h gl)) (written-ended g out chunk) in
      rw (to_int64-small (length chunk) (omega arith), io) refl

  -- One round, where the rounds after it are known.
  extract_loop-round :
      (fuel p remaining to_read size : ℕ) (old chunk tail post buffer buffer' out all : List ℕ)
      → size ≡ (if ltb remaining to_read then remaining else to_read)
      → chunk ++ tail ≡ all
      → 0 < length chunk
      → length old + length chunk < 2 ^ 62
      → (if ltb (length chunk + length tail) size then length chunk + length tail else size)
        ≡ length chunk
      → length chunk ≤ length buffer
      → drop p f.content ≡ chunk ++ post
      → extract_loop env fuel remaining size
          (overwrite buffer 0 chunk)
          (extracting (p + length chunk) (old ++ chunk) (length tail) (out ++ chunk))
        ≡ ok buffer' (
            extracting
              (p + length chunk + length tail)
              (old ++ chunk ++ tail)
              0
              (out ++ chunk ++ tail))
      → extract_loop env (suc fuel) remaining to_read buffer (extracting p old (length all) out)
        ≡ ok buffer' (extracting (p + length all) (old ++ all) 0 (out ++ all))
  unfolding extract_loop
  extract_loop-round fuel p remaining to_read size old chunk tail post buffer buffer' out all
        size_is split some_bytes small cut room there rest =
      let total : length all ≡ length chunk + length tail =
        sym (ap length split) ∙ length-append chunk tail in
      let far : p + length chunk + length tail ≡ p + (length chunk + length tail) = omega arith in
      let more : ltb 0 (length chunk + length tail) ≡ true =
        lt→ltb 0 (length chunk + length tail) (omega arith) in
      rw
        (
          total,
          more,
          ← size_is,
          kcf_read_added_data-chunk env laws k f fl can p old chunk post buffer (length tail) size
              some_bytes small cut room there,
          write_output-chunk chunk (drop (0 + length chunk) buffer) out
              (between env k f fl (p + length chunk) (old ++ chunk) (length tail)) (omega arith),
          rest,
          far,
          append_assoc,
          split,
        )
        (rw (append_assoc, split) refl)

  -- The inner loop copies what is left of the record's added data to the output.
  pub extract_loop-file :
      (fuel p remaining to_read : ℕ) (old added post buffer out : List ℕ)
      → length added < fuel
      → 0 < to_read
      → to_read ≤ length buffer
      → 0 < remaining
      → length added ≤ remaining
      → length old + length added < 2 ^ 62
      → drop p f.content ≡ added ++ post
      → (buffer' : List ℕ) × (extract_loop env fuel remaining to_read buffer
            (extracting p old (length added) out)
          ≡ ok buffer' (extracting (p + length added) (old ++ added) 0 (out ++ added)))
  unfolding extract_loop
  extract_loop-file zero p remaining to_read old added post buffer out enough some_room room
        some_left fits small there =
      absurd (omega arith)
  extract_loop-file (suc fuel) p remaining to_read old [] post buffer out enough some_room room
        some_left fits small there =
      let same : p + 0 ≡ p = omega arith in (buffer, rw (same, append-nil, append-nil) refl)
  extract_loop-file (suc fuel) p remaining to_read old (x ∷ added) post buffer out enough some_room
        room some_left fits small there =
      let all = x ∷ added in
      let size = if ltb remaining to_read then remaining else to_read in
      let size_fits : size ≤ to_read = ground arith in
      let some_size : 0 < size = ground arith in
      let chunk = take size all in
      let tail = drop size all in
      let count : length chunk ≡ min size (length all) = length-take size all in
      let split : chunk ++ tail ≡ all = take-append-drop size all in
      let total : length chunk + length tail ≡ length all =
        sym (length-append chunk tail) ∙ ap length split in
      let there' : drop p f.content ≡ chunk ++ (tail ++ post) =
        there ∙ ap (λ t. t ++ post) (sym split) ∙ append_assoc chunk tail post in
      let buffer1 = overwrite buffer 0 chunk in
      let same_room : length buffer1 ≡ length buffer =
        length-append chunk (drop (0 + length chunk) buffer)
        ∙ omega (arith, length-drop (0 + length chunk) buffer) in
      let (buffer', rest) =
        extract_loop-file fuel (p + length chunk) remaining size (old ++ chunk) tail post buffer1
          (out ++ chunk) (omega arith) some_size (omega arith) some_left (omega arith)
          (omega (arith, length-append old chunk))
          (drop-past p (length chunk) f.content chunk (tail ++ post) there' refl) in
      (
        buffer',
        extract_loop-round fuel p remaining to_read size old chunk tail (tail ++ post) buffer
            buffer' out all refl split (omega arith) (omega arith) (ground arith) (omega arith)
            there' rest,
      )
