-- ===== src/Kcf/Read/Chunks.antt =====
-- Reading the added data of a record with one call of `KCF_read_added_data` after another.
use kcf_old.Base.{
  min, ◌∷◌, ℕ, zero, suc, ◌+◌, ◌-◌, ◌%◌, ◌^◌, ◌≤◌, ◌<◌, ◌≡◌, refl, sym, ap, ◌∙◌, arith, true, List,
  [], ◌++◌, length,
}
use kcf_old.Base.{
  append_assoc, append-nil, length-append, length-take, take-append, take-append-drop, overwrite,
  le→ltb_false, ne→==_false, drop, take, ltb, lt→ltb, ◌==◌, to_int64-small, if◌then◌else◌, some,
}
use kcf_old.Env.{Env, CrcLaws}
use kcf_old.Action.{Action, ok, diverged, pure, ◌>>=◌, bind}
use kcf_old.Io.Stdio.{File}
use kcf_old.Io.OnFile.{io_read-file}
use kcf_old.Kcf.{Kcf, ParserState}
use kcf_old.Kcf.Read.{
  kcf_read_added_data, kcf_is_added_data_available, read_unless_done, read_available,
}
use kcf_old.Kcf.Read.Header.{at, drop-past}

-- What a client does to get all added data through a buffer: at most `fuel` calls.
unfoldable pub read_pieces : {S : Type 0} → Env → List ℕ → ℕ → ℕ → Action (Kcf S) (List ℕ)
read_pieces env buffer size zero k = diverged
read_pieces env buffer size (suc fuel) k =
    if kcf_is_added_data_available (some k)
    then bind (kcf_read_added_data env true buffer size k)
        (λ (n, buf). read_pieces env buffer size fuel >>= λ rest. pure (take n buf ++ rest))
    else ok [] k

-- The archive over `f` at `p` that has read `old` of a record's added data, and has `left` bytes of
-- it to read.
abbrev pub between : Env → Kcf File → File → ℕ → ℕ → List ℕ → ℕ → Kcf File
between env k f fl p old left =
    at
      (record k {
        added_data_total = left;
        added_data_done = length old;
        actual_added_data_crc32 = env.crc32c 0 old;
        parser_state =
            if left == 0 then ParserState.read_record_header else ParserState.read_added_data;
      })
      f fl p

abbrev started : Env → Kcf File → File → ℕ → ℕ → List ℕ → ℕ → Kcf File
started env k f fl p old left = record (between env k f fl p old left) {
  parser_state = ParserState.read_added_data;
}

module _ (env : Env) (laws : CrcLaws env) (k : Kcf File) (f : File) (fl : ℕ)
    (can : f.can_read ≡ true) where
  read_available-chunk :
      (p : ℕ) (old chunk post buffer : List ℕ) (left : ℕ)
      → length old + length chunk < 2 ^ 62
      → length chunk ≤ length buffer
      → drop p f.content ≡ chunk ++ post
      → read_available env buffer (length chunk) (started env k f fl p old (length chunk + left))
        ≡ ok
            (length chunk, overwrite buffer 0 chunk)
            (between env k f fl (p + length chunk) (old ++ chunk) left)
  unfolding read_available
  read_available-chunk p old chunk post buffer left small room there =
      let n = length chunk in
      let taken : take n (drop p f.content) ≡ chunk = rw (there, take-append) refl in
      let gone : n + left - n ≡ left = omega arith in
      let done : (length old + n) % 2 ^ 64 ≡ length (old ++ chunk) =
        omega (arith, length-append old chunk) in
      rw
        (
          to_int64-small n (omega arith),
          io_read-file (record f { position = p }) fl n can,
          taken,
          le→ltb_false (length buffer) n room,
          le→ltb_false n n (omega arith),
          gone,
          le→ltb_false (length (chunk ++ drop (0 + n) buffer)) n
              (omega (arith, length-append chunk (drop (0 + n) buffer))),
          take-append,
          laws.crc32c-append 0 old chunk,
          done,
        )
        (ground arith)

  pub kcf_read_added_data-chunk :
      (p : ℕ) (old chunk post buffer : List ℕ) (left size : ℕ)
      → 0 < length chunk
      → length old + length chunk < 2 ^ 62
      → (if ltb (length chunk + left) size then length chunk + left else size) ≡ length chunk
      → length chunk ≤ length buffer
      → drop p f.content ≡ chunk ++ post
      → kcf_read_added_data env true buffer size (between env k f fl p old (length chunk + left))
        ≡ ok
            (length chunk, overwrite buffer 0 chunk)
            (between env k f fl (p + length chunk) (old ++ chunk) left)
  unfolding kcf_read_added_data read_unless_done
  kcf_read_added_data-chunk p old chunk post buffer left size some_bytes small cut room there =
      rw
        (
          ne→==_false (length chunk + left) 0 (omega arith),
          cut,
          ne→==_false (length chunk + left) 0 (omega arith),
        )
        (read_available-chunk p old chunk post buffer left small room there)

  -- A client that calls `kcf_read_added_data` with a buffer of any size for as long as added data
  -- is available gets all that is left of the record's added data, in order, within one call more
  -- than there are bytes left, and the archive then expects the next record, has counted all
  -- bytes and holds the CRC of all of them. Conditions: the archive is reading added data, the
  -- CRC can be computed a chunk at a time, the file can be read and holds the bytes at its
  -- position, the size that is asked for is not 0 and fits the buffer, and the added data has
  -- less than 2^62 bytes.
  pub read_pieces-file :
      (fuel p : ℕ) (old added post buffer : List ℕ) (size : ℕ)
      → length added < fuel
      → 0 < size
      → size ≤ length buffer
      → length old + length added < 2 ^ 62
      → drop p f.content ≡ added ++ post
      → read_pieces env buffer size fuel (between env k f fl p old (length added))
        ≡ ok added (between env k f fl (p + length added) (old ++ added) 0)
  unfolding read_pieces
  read_pieces-file zero p old added post buffer size enough some_room room small there =
      absurd (omega arith)
  read_pieces-file (suc fuel) p old [] post buffer size enough some_room room small there =
      let same : p + 0 ≡ p = omega arith in rw (same, append-nil) refl
  read_pieces-file (suc fuel) p old (x ∷ added) post buffer size enough some_room room small there =
      let all = x ∷ added in
      let chunk = take size all in
      let tail = drop size all in
      let count : length chunk ≡ min size (length all) = length-take size all in
      let split : chunk ++ tail ≡ all = take-append-drop size all in
      let total : length chunk + length tail ≡ length all =
        sym (length-append chunk tail) ∙ ap length split in
      let there' : drop p f.content ≡ chunk ++ (tail ++ post) =
        there ∙ ap (λ t. t ++ post) (sym split) ∙ append_assoc chunk tail post in
      let first =
        kcf_read_added_data-chunk p old chunk (tail ++ post) buffer (length tail) size (omega arith)
          (omega arith) (ground arith) (omega arith) there' in
      let rest =
        read_pieces-file fuel (p + length chunk) (old ++ chunk) tail post buffer size (omega arith)
          some_room room (omega (arith, length-append old chunk))
          (drop-past p (length chunk) f.content chunk (tail ++ post) there' refl) in
      let far : p + length chunk + length tail ≡ p + length all = omega arith in
      let back : take (length chunk) (overwrite buffer 0 chunk) ≡ chunk =
        take-append chunk (drop (0 + length chunk) buffer) in
      let more : ltb 0 (length all) ≡ true = lt→ltb 0 (length all) (omega arith) in
      let whole : chunk ++ tail ≡ all = split in
      rw
        (
          more,
          ap (λ n. kcf_read_added_data env true buffer size (between env k f fl p old n))
                (sym total)
              ∙ first,
          rest,
          back,
          far,
          append_assoc,
          split,
        )
        refl
