-- ===== src/Kcf/Read/AddedData.antt =====
-- Reading all of the added data with one call of `KCF_read_added_data`.
use kcf_old.Base.{ℕ, ◌+◌, ◌%◌, ◌^◌, ◌≤◌, ◌<◌, ◌≡◌, refl, arith, true, List, ◌++◌, length}
use kcf_old.Base.{
  length-append, take-append, overwrite, le→ltb_false, ne→==_false, ◌-◌, drop, take, ltb,
  to_int64-small, if◌then◌else◌,
}
use kcf_old.Env.{Env}
use kcf_old.Action.{ok}
use kcf_old.Io.Stdio.{File}
use kcf_old.Io.OnFile.{io_read-file}
use kcf_old.Record.{}
use kcf_old.Kcf.{Kcf, ParserState}
use kcf_old.Kcf.Read.{kcf_read_added_data, read_unless_done, read_available}
use kcf_old.Kcf.Read.Header.{at}

cut_down : (n size : ℕ) → n ≤ size → (if ltb n size then n else size) ≡ n
cut_down n size fits = ground arith

-- The archive over `f` at `p` that has `total` bytes of added data to read.
abbrev pub available : Kcf File → File → ℕ → ℕ → ℕ → Kcf File
available k f fl p total =
    at
      (record k {
        added_data_total = total;
        added_data_done = 0;
        actual_added_data_crc32 = 0;
        parser_state = ParserState.read_added_data;
      })
      f fl p

-- The archive when all of it has been read.
abbrev pub all_read : Env → Kcf File → File → ℕ → ℕ → List ℕ → Kcf File
all_read env k f fl p added =
    at
      (record k {
        added_data_total = 0;
        added_data_done = length added;
        actual_added_data_crc32 = env.crc32c 0 added;
        parser_state = ParserState.read_record_header;
      })
      f fl (p + length added)

module _ (env : Env) (k : Kcf File) (f : File) (fl : ℕ) (can : f.can_read ≡ true) where
  read_available-all :
      (p : ℕ) (added rest buffer : List ℕ)
      → length added < 2 ^ 62
      → length added ≤ length buffer
      → drop p f.content ≡ added ++ rest
      → read_available env buffer (length added) (available k f fl p (length added))
        ≡ ok (length added, overwrite buffer 0 added) (all_read env k f fl p added)
  unfolding read_available
  read_available-all p added rest buffer small room there =
      let n = length added in
      let taken : take n (drop p f.content) ≡ added = rw (there, take-append) refl in
      let gone : n - n ≡ 0 = omega arith in
      let short : (0 + n) % 2 ^ 64 ≡ n = omega arith in
      rw
        (
          to_int64-small n (omega arith),
          io_read-file (record f { position = p }) fl n can,
          taken,
          le→ltb_false (length buffer) n room,
          le→ltb_false n n (omega arith),
          gone,
          le→ltb_false (length (added ++ drop (0 + n) buffer)) n
              (omega (arith, length-append added (drop (0 + n) buffer))),
          take-append,
          short,
        )
        refl

  -- All of the added data in one call.
  pub kcf_read_added_data-all :
      (p : ℕ) (added rest buffer : List ℕ) (size : ℕ)
      → 0 < length added
      → length added < 2 ^ 62
      → length added ≤ size
      → size ≤ length buffer
      → drop p f.content ≡ added ++ rest
      → kcf_read_added_data env true buffer size (available k f fl p (length added))
        ≡ ok (length added, overwrite buffer 0 added) (all_read env k f fl p added)
  unfolding kcf_read_added_data read_unless_done
  kcf_read_added_data-all p added rest buffer size nonempty small fits room there =
      rw (ne→==_false (length added) 0 (omega arith), cut_down (length added) size fits)
        (read_available-all p added rest buffer small (omega arith) there)
