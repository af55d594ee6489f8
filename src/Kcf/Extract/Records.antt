-- ===== src/Kcf/Extract/Records.antt =====
-- The outer loop of `KCF_extract`, over the records of one file.
use kcf_old.Base.{
  ℕ, suc, ◌+◌, ◌^◌, ◌<◌, ◌≡◌, refl, ap, arith, true, false, List, [], ◌++◌, length, Option, drop,
  some, ◌==◌,
}
use kcf_old.Env.{Env, CrcLaws, AlwaysAllocates}
use kcf_old.Action.{ok}
use kcf_old.Io.{Io}
use kcf_old.Io.Stdio.{File}
use kcf_old.Io.OnFile.{file_stream, ended}
use kcf_old.Record.{KcfRecord, data_fragment_type}
use kcf_old.Record.Layout.{encode, payload}
use kcf_old.Kcf.{Kcf, ParserState}
use kcf_old.Kcf.Read.Header.{at, drop-past}
use kcf_old.Kcf.Read.RoundTrip.{IsReadable, after_record, kcf_read_record-encode}
use kcf_old.Kcf.Extract.{extract_records, continues}
use kcf_old.Kcf.Extract.Copying.{extracting, extract_loop-file}

module _ (env : Env) (laws : CrcLaws env) (k : Kcf File) (f : File) (fl : ℕ)
    (can : f.can_read ≡ true) (g : File) (gl : ℕ) (can_write : g.can_write ≡ true) where
  -- `KCF_extract` in the state in which the record `r` is LastRecord.
  abbrev pub copying : KcfRecord → ℕ → List ℕ → ℕ → List ℕ → Kcf File × Option (Io File)
  copying r p old left out =
      extracting env laws (record k { last_record = r }) f fl can g gl can_write p old left out

  -- For a file in one record the loops of `kcf_extract` append exactly the record's added data to
  -- the output through a buffer of 4096 bytes that no read and no write goes past, which would be
  -- undefined, leave the archive behind it and end after one record. Conditions: LastRecord is
  -- the record and its flags say that no other follows, AddedSize is the number of bytes that the
  -- archive's file holds at its position, which is not 0 and below 2^62, the buffer has 4096
  -- bytes, the inner loop has more rounds than there are bytes, the CRC can be computed a chunk
  -- at a time, the archive's file can be read, and the output can be written and is positioned at
  -- its end.
  pub extract_records-single :
      (inner fuel p : ℕ) (r : KcfRecord) (added post buffer out : List ℕ)
      → continues r ≡ false
      → r.added_size ≡ length added
      → 0 < length added
      → length added < inner
      → length added < 2 ^ 62
      → length buffer ≡ 4096
      → drop p f.content ≡ added ++ post
      → extract_records env inner (suc fuel) buffer (copying r p [] (length added) out)
        ≡ ok tt (copying r (p + length added) added 0 (out ++ added))
  unfolding extract_records
  extract_records-single inner fuel p r added post buffer out single known some_data enough small
        room there =
      let (buffer', copied) =
        extract_loop-file env laws (record k { last_record = r }) f fl can g gl can_write inner p
          r.added_size 4096 [] added post buffer out enough (omega arith) (omega arith)
          (omega arith) (omega arith) (omega arith) there in
      rw (copied, single, single) refl

  -- The archive once the data fragment `r2` has been read into LastRecord.
  abbrev pub at_fragment : KcfRecord → KcfRecord → List ℕ → ℕ → Kcf File
  at_fragment r r2 added p =
      record (at
        (after_record
          (record k {
            last_record = r;
            added_data_total = 0;
            added_data_done = length added;
            actual_added_data_crc32 = env.crc32c 0 added;
            parser_state = ParserState.read_record_header;
          })
          r2)
        f fl p) {
          last_record = record r2 {
            bytes = some (payload r2.bytes);
            data_size = length (payload r2.bytes);
          };
        }

  -- For a file in two records the loops of `kcf_extract` end with success without the last
  -- record's added data: the output gets the first record's added data only, and the archive is
  -- left at the last one's, which is not read. Conditions: LastRecord is the first record, its
  -- flags say that another follows, AddedSize is the number of bytes of its added data, which is
  -- not empty and has less than 2^62 bytes, behind it the file holds a data fragment that can be
  -- read and whose flags say that it is the last, the inner loop has more rounds than there are
  -- bytes, malloc never fails, the CRC can be computed a chunk at a time, the archive's file can
  -- be read, and the output can be written and is positioned at its end.
  pub extract_records-last_fragment :
      (inner fuel p : ℕ) (r r2 : KcfRecord) (added post buffer out : List ℕ)
      → AlwaysAllocates env
      → continues r ≡ true
      → r.added_size ≡ length added
      → 0 < length added
      → length added < inner
      → length added < 2 ^ 62
      → length buffer ≡ 4096
      → drop p f.content ≡ added ++ (encode r2 ++ post)
      → IsReadable r2
      → r2.head_type ≡ data_fragment_type
      → continues r2 ≡ false
      → extract_records env inner (suc fuel) buffer (copying r p [] (length added) out)
        ≡ ok tt (
          at_fragment r r2 added (p + length added + length (encode r2)),
          file_stream (ended g (out ++ added)) gl,
        )
  unfolding extract_records
  extract_records-last_fragment inner fuel p r r2 added post buffer out alloc more known some_data
        enough small room there good fragment last =
      let (buffer', copied) =
        extract_loop-file env laws (record k { last_record = r }) f fl can g gl can_write inner p
          r.added_size 4096 [] added (encode r2 ++ post) buffer out enough (omega arith)
          (omega arith) (omega arith) (omega arith) (omega arith) there in
      let (block, got, fit) = alloc k.mallocs (length (payload r2.bytes)) in
      let is_fragment : (r2.head_type == data_fragment_type) ≡ true =
        ap (λ t. t == data_fragment_type) fragment in
      let next = drop-past p (length added) f.content added (encode r2 ++ post) there refl in
      rw
        (
          copied,
          more,
          kcf_read_record-encode env
              (record k {
                last_record = r;
                added_data_total = 0;
                added_data_done = length added;
                actual_added_data_crc32 = env.crc32c 0 added;
              })
              f fl (p + length added) r2 r post block can good next got fit,
          is_fragment,
          last,
        )
        refl
