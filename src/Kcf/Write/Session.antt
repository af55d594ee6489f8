-- ===== src/Kcf/Write/Session.antt =====
-- `KCF_write_added_data`, called for one chunk after another.
use kcf_old.Base.{
  ℕ, ◌+◌, ◌%◌, ◌^◌, ◌<◌, ◌≡◌, refl, ap, ◌∙◌, arith, true, List, [], ◌∷◌, ◌++◌, length,
}
use kcf_old.Base.{
  append_assoc, append-nil, length-append, take_all, le→ltb_false, pos, to_int64-small,
}
use kcf_old.Env.{Env, CrcLaws}
use kcf_old.Action.{Action, ok, pure, ◌>>◌}
use kcf_old.Io.{io_write}
use kcf_old.Io.Stdio.{File}
use kcf_old.Io.OnFile.{file_stream, io_write-file}
use kcf_old.Kcf.{Kcf, ParserState}
use kcf_old.Kcf.Write.{kcf_write_added_data, append_added_data}
use kcf_old.Io.OnFile.{ended, written-ended}

-- The archive that is writing added data of a size not known before: it has written `added`, and
-- keeps their CRC.
abbrev pub adding : Env → Kcf File → File → ℕ → List ℕ → List ℕ → Kcf File
adding env k f fl xs added = record k {
  stream = file_stream (ended f xs) fl;
  parser_state = ParserState.write_added_data;
  added_data_total = 0;
  added_data_done = length added;
  added_data_crc32 = env.crc32c 0 added;
  has_added_data_crc32 = true;
}

-- What a client does with the chunks of the added data.
unfoldable pub write_chunks : {S : Type 0} → Env → List (List ℕ) → Action (Kcf S) (Unit {0})
write_chunks env [] = pure tt
write_chunks env (chunk ∷ chunks) =
    kcf_write_added_data env chunk (length chunk) >> write_chunks env chunks

abbrev pub concat : List (List ℕ) → List ℕ
concat [] = []
concat (chunk ∷ chunks) = chunk ++ concat chunks

module _ (env : Env) (laws : CrcLaws env) (k : Kcf File) (f : File) (fl : ℕ)
    (can : f.can_write ≡ true) where
  kcf_write_added_data-chunk :
      (xs added chunk : List ℕ)
      → length added + length chunk < 2 ^ 63
      → kcf_write_added_data env chunk (length chunk) (adding env k f fl xs added)
        ≡ ok tt (adding env k f fl (xs ++ chunk) (added ++ chunk))
  unfolding kcf_write_added_data append_added_data
  kcf_write_added_data-chunk xs added chunk small =
      let io : io_write (file_stream (ended f xs) fl) chunk (pos (length chunk))
          ≡ (pos (length chunk), file_stream (ended f (xs ++ chunk)) fl) =
        io_write-file (ended f xs) fl chunk can (omega arith)
        ∙ ap (λ g. (pos (length chunk), file_stream g fl)) (written-ended f xs chunk) in
      let total : (length added + length chunk) % 2 ^ 64 ≡ length (added ++ chunk) =
        omega (arith, length-append added chunk) in
      rw
        (
          le→ltb_false (length chunk) (length chunk) (omega arith),
          to_int64-small (length chunk) (omega arith),
          io,
          take_all (length chunk) chunk (omega arith),
          laws.crc32c-append 0 added chunk,
          total,
        )
        refl

  -- Calls of `kcf_write_added_data` for one chunk after another append the chunks to the file in
  -- this order, count their bytes in WrittenAddedData and keep the CRC of all of them in
  -- AddedDataCRC32. Conditions: the archive is writing added data with a CRC and a size not known
  -- before, the file can be written and is positioned at its end, the CRC can be computed a chunk
  -- at a time, and all added data has less than 2^63 bytes.
  pub write_chunks_lem :
      (chunks : List (List ℕ)) (xs added : List ℕ)
      → length (added ++ concat chunks) < 2 ^ 63
      → write_chunks env chunks (adding env k f fl xs added)
        ≡ ok tt (adding env k f fl (xs ++ concat chunks) (added ++ concat chunks))
  unfolding write_chunks
  write_chunks_lem [] xs added small = rw (append-nil xs, append-nil added) refl
  write_chunks_lem (chunk ∷ chunks) xs added small =
      let fits : length added + length chunk < 2 ^ 63 = omega (
        arith,
        length-append added (chunk ++ concat chunks),
        length-append chunk (concat chunks),
      ) in
      let same : added ++ chunk ++ concat chunks ≡ added ++ (chunk ++ concat chunks) =
        append_assoc added chunk (concat chunks) in
      rw (kcf_write_added_data-chunk xs added chunk fits) (
        write_chunks_lem chunks (xs ++ chunk) (added ++ chunk) (omega (arith, ap length same))
        ∙ rw (append_assoc, append_assoc) refl)
