-- ===== src/Kcf/RoundTrip.antt =====
-- What the writer stores, the reader reads: kcf/write.c and kcf/read.c over one file.
pub mod Describing
pub mod WithData
pub mod Header
use kcf_old.Base.{
  ℕ, ◌+◌, ◌^◌, ◌≤◌, ◌<◌, ◌≡◌, refl, sym, ap, ◌∙◌, arith, true, List, [], ◌++◌, length,
}
use kcf_old.Base.{append-nil, drop-append, some, overwrite, drop, pos}
use kcf_old.Env.{Env, CrcLaws, AlwaysAllocates}
use kcf_old.Action.{Action, ok, beside, ◌>>=◌, ◌>>◌}
use kcf_old.Io.{seek_set, io_flush}
use kcf_old.Io.CFile.{cfile_method}
use kcf_old.Io.Stdio.{File, fflush}
use kcf_old.Io.OnFile.{file_stream, io_seek-file}
use kcf_old.Record.{
  KcfRecord, rec_fix, flags_size, flags_crc, added_size_field, added_data_crc32_field,
}
use kcf_old.Record.Layout.{encode, payload, head_length, length-encode}
use kcf_old.Record.Fixing.{rec_fix-head_size, rec_fix-refix, rec_fix-head_crc}
use kcf_old.Kcf.{Kcf, ParserState, stream_seek}
use kcf_old.Kcf.Archive.{kcf_start_reading, start_reading_from, stop_writing}
use kcf_old.Kcf.Read.{kcf_read_record, kcf_read_added_data}
use kcf_old.Kcf.Read.Header.{drop-past}
use kcf_old.Kcf.Read.RoundTrip.{IsReadable, after_record, kcf_read_record-encode}
use kcf_old.Kcf.Write.OnFile.{fixed_flags, head_size-small}
use kcf_old.Kcf.Write.Session.{concat}
use kcf_old.Io.OnFile.{ended}
use kcf_old.Kcf.Write.Finish.{stored_in, final_record}
use kcf_old.Kcf.Write.RoundTrip.{write_session, ready, stored_record, write_session-file}
use kcf_old.Kcf.Read.AddedData.{available, all_read, kcf_read_added_data-all}

-- An archive over a file that is ready for a record to be written is switched to reading.
pub kcf_start_reading-file :
    (env : Env) (k : Kcf File) (f : File) (fl : ℕ)
    → kcf_start_reading env
        (record k { stream = file_stream f fl; parser_state = ParserState.write_record })
      ≡ ok tt
          (record k { stream = file_stream f fl; parser_state = ParserState.read_record_header })
unfolding kcf_start_reading start_reading_from stop_writing io_flush cfile_method fflush
kcf_start_reading-file env k f fl = refl

-- What a client does to read back a record that begins at `p`, and up to `size` bytes of its added
-- data into a buffer.
abbrev pub read_back : {S : Type 0} → Env → ℕ → List ℕ → ℕ → Action (Kcf S × KcfRecord) (ℕ × List ℕ)
read_back env p buffer size = do
  beside (kcf_start_reading env)
  ret ← beside (stream_seek (pos p) seek_set)
  kcf_read_record env true
  beside (kcf_read_added_data env true buffer size)

-- A record that `rec_fix` has been over can be read where its fields fit.
pub fixed-IsReadable :
    (env : Env) (r : KcfRecord)
    → length (payload r.bytes) ≡ r.data_size
    → head_length r.head_flags + r.data_size < 2 ^ 16
    → r.head_type < 2 ^ 8
    → r.head_flags < 2 ^ 8
    → r.added_size < 256 ^ added_size_field r.head_flags
    → r.added_data_crc32 < 256 ^ added_data_crc32_field r.head_flags
    → IsReadable (rec_fix env r)
fixed-IsReadable env r full fits type flags size crc = record {
  crc_u16 = rec_fix-head_crc env r;
  type_u8 = unfold rec_fix in type;
  flags_u8 = unfold rec_fix in flags;
  size_u16 = head_size-small env r;
  added_size_fits = unfold rec_fix in size;
  added_data_crc32_fits = unfold rec_fix in crc;
  head_size_is = rec_fix-head_size env r full fits ∙ length-encode (rec_fix env r);
}

pub final-stored :
    (env : Env) (r : KcfRecord) (added : List ℕ)
    → final_record env (rec_fix env (record r { added_size = 0 })) added ≡ stored_record env r added
final-stored env r added = rec_fix-refix env r 0 (length added) (env.crc32c 0 added)

pub fixed_added_size : (env : Env) (r : KcfRecord) → (rec_fix env r).added_size ≡ r.added_size
unfolding rec_fix
fixed_added_size env r = refl

pub stored-IsReadable :
    (env : Env)
    → CrcLaws env
    → (r : KcfRecord) (added : List ℕ) → length (payload r.bytes) ≡ r.data_size
    → head_length r.head_flags + r.data_size < 2 ^ 16
    → r.head_type < 2 ^ 8
    → r.head_flags < 2 ^ 8
    → flags_crc r.head_flags ≡ true
    → length added < 256 ^ added_size_field r.head_flags
    → IsReadable (stored_record env r added)
stored-IsReadable env laws r added full fits type flags some_crc data_fits =
    fixed-IsReadable env
      (record r { added_size = length added; added_data_crc32 = env.crc32c 0 added }) full fits type
      flags data_fits (rw some_crc (laws.crc32c-lt 0 added (omega arith)))

module _ (env : Env) (k : Kcf File) (f : File) (fl : ℕ) (can : f.can_read ≡ true)
    (alloc : AlwaysAllocates env) (pre added : List ℕ) (r old : KcfRecord) where
  abbrev whole_file : File
  whole_file = ended f (pre ++ (encode r ++ added))

  -- Where a file holds the bytes of a record and of its added data, to its end, seeking to the
  -- record, `kcf_read_record` and one call of `kcf_read_added_data` give the record and all of
  -- its added data, with the CRC of the added data in ActualAddedDataCRC32 and the archive ready
  -- for the next record. Conditions: the file can be read, malloc never fails, the record's
  -- fields fit the bytes that its flags give them and HeadSize is the number of its bytes, its
  -- flags announce an AddedSize, which is the number of bytes of the added data and not 0, they
  -- fit the buffer, and the file's relevant part stays below 2^62 bytes.
  pub read_back-file :
      (buffer : List ℕ) (size : ℕ)
      → IsReadable r
      → flags_size r.head_flags ≡ true
      → r.added_size ≡ length added
      → 0 < length added
      → length pre + length added < 2 ^ 62
      → length added ≤ size
      → size ≤ length buffer
      → read_back env (length pre) buffer size (
        record k { stream = file_stream whole_file fl; parser_state = ParserState.write_record },
        old,
      )
        ≡ ok
            (length added, overwrite buffer 0 added)
            (
              all_read env (after_record k r) whole_file fl (length pre + length (encode r)) added,
              record r { bytes = some (payload r.bytes); data_size = length (payload r.bytes) },
            )
  read_back-file buffer size good some_size known nonempty small fits room =
      let (block, got, fit) = alloc k.mallocs (length (payload r.bytes)) in
      let there : drop (length pre) (pre ++ (encode r ++ added)) ≡ encode r ++ added =
        drop-append pre (encode r ++ added) in
      let behind : drop (length pre + length (encode r)) (pre ++ (encode r ++ added))
          ≡ added ++ [] =
        drop-past (length pre) (length (encode r)) (pre ++ (encode r ++ added)) (encode r) added
          there refl
        ∙ sym (append-nil added) in
      rw
        (
          kcf_start_reading-file env k whole_file fl,
          io_seek-file whole_file fl (length pre),
          kcf_read_record-encode env k whole_file fl (length pre) r old added block can good there
              got fit,
          some_size,
          ap
                (λ n.
                  kcf_read_added_data env true buffer size
                    (available (after_record k r) whole_file fl (length pre + length (encode r)) n))
                known
              ∙ kcf_read_added_data-all env (after_record k r) whole_file fl can
                  (length pre + length (encode r)) added [] buffer size nonempty (omega arith) fits
                  room behind,
        )
        refl

module _ (env : Env) (k : Kcf File) (f : File) (fl : ℕ) where
  -- The archive when the session has been read back.
  abbrev pub read_through : List ℕ → KcfRecord → List ℕ → Kcf File
  read_through pre r added =
      all_read env
        (after_record
          (stored_in (record k { mallocs = k.mallocs + 2 }) f fl pre (stored_record env r added)
            added)
          (stored_record env r added))
        (ended f (pre ++ (encode (stored_record env r added) ++ added))) fl
        (length pre + length (encode (stored_record env r added))) added

module _ (env : Env) (laws : CrcLaws env) (alloc : AlwaysAllocates env) (k : Kcf File) (f : File)
    (fl : ℕ) where
  -- A session that writes a record, the chunks of its added data and the end of it, followed by
  -- `kcf_start_reading`, a seek to the record's offset, `kcf_read_record` and
  -- `kcf_read_added_data`, gives the concatenated chunks in the buffer with their length; the
  -- record that is read is the one that was written with the size and the CRC32C of the added
  -- data in it, the archive ends between records, and the CRC that it computed while reading is
  -- the one that the record announces. Conditions: the archive is ready for a record, with 0 in
  -- WrittenAddedData and AddedDataCRC32, as in a new archive and after `kcf_finish_added_data`
  -- but not after reading added data, the file can be read and written and is positioned at its
  -- end, malloc never fails, the CRC can be computed a chunk at a time, the record's fields are
  -- in range, its data has DataSize bytes and the whole record less than 65536, its flags ask for
  -- AddedSize and AddedDataCRC32 and its AddedSize is 0 at first, there is at least one byte of
  -- added data, their number fits the AddedSize field and the buffer, and the file stays below
  -- 2^61 bytes.
  pub read_back-write_session :
      (pre : List ℕ) (r : KcfRecord) (chunks : List (List ℕ)) (buffer : List ℕ) (size : ℕ)
      → f.can_write ≡ true
      → f.can_read ≡ true
      → length (payload r.bytes) ≡ r.data_size
      → head_length r.head_flags + r.data_size < 2 ^ 16
      → r.head_type < 2 ^ 8
      → r.head_flags < 2 ^ 8
      → flags_size r.head_flags ≡ true
      → flags_crc r.head_flags ≡ true
      → 0 < length (concat chunks)
      → length (concat chunks) < 256 ^ added_size_field r.head_flags
      → length pre + length (concat chunks) < 2 ^ 61
      → length (concat chunks) ≤ size
      → size ≤ length buffer
      → (write_session env chunks >> read_back env (length pre) buffer size)
          (ready k f fl pre, record r { added_size = 0 })
        ≡ ok
            (length (concat chunks), overwrite buffer 0 (concat chunks))
            (
              read_through env k f fl pre r (concat chunks),
              record (stored_record env r (concat chunks)) {
                bytes = some (payload r.bytes);
                data_size = length (payload r.bytes);
              },
            )
  read_back-write_session pre r chunks buffer size can_write can_read full fits type flags some_size
        some_crc some_data data_fits small fits_size room =
      let added = concat chunks in
      let new = stored_record env r added in
      let r1 = record r { added_size = length added; added_data_crc32 = env.crc32c 0 added } in
      let r0 = rec_fix env (record r { added_size = 0 }) in
      let k' = record k { mallocs = k.mallocs + 2 } in
      rw
        (write_session-file env laws alloc k f fl can_write pre r chunks full fits some_size
          some_crc (omega arith))
        (ap (λ x. read_back env (length pre) buffer size (stored_in k' f fl pre x added, r0))
            (final-stored env r added)
          ∙ (read_back-file env (stored_in k' f fl pre new added) f fl can_read alloc pre added new
              r0 buffer size
              (stored-IsReadable env laws r added full fits type flags some_crc data_fits)
              (ap flags_size (fixed_flags env r1) ∙ some_size) (fixed_added_size env r1) some_data
              (omega arith) fits_size room)
          ∙ unfold rec_fix in refl)
