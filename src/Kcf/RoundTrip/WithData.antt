-- ===== src/Kcf/RoundTrip/WithData.antt =====
-- What `KCF_write_record_with_added_data` stores, the reader reads.
use kcf_old.Base.{
  ℕ, ◌+◌, ◌^◌, ◌≤◌, ◌<◌, ◌≡◌, ap, ◌∙◌, arith, true, List, ◌++◌, length, some, overwrite,
}
use kcf_old.Env.{Env, CrcLaws, AlwaysAllocates}
use kcf_old.Action.{ok, ◌>>◌}
use kcf_old.Io.Stdio.{File}
use kcf_old.Io.OnFile.{ended}
use kcf_old.Record.{
  KcfRecord, rec_fix, flags_size, flags_crc, added_size_field, added_data_crc32_field,
}
use kcf_old.Record.Layout.{encode, payload, head_length}
use kcf_old.Kcf.{Kcf, ParserState}
use kcf_old.Kcf.Write.{kcf_write_record_with_added_data}
use kcf_old.Kcf.Write.OnFile.{over, fixed_flags}
use kcf_old.Kcf.Write.WithData.{described, described_full, kcf_write_record_with_added_data-file}
use kcf_old.Kcf.Read.RoundTrip.{after_record}
use kcf_old.Kcf.Read.AddedData.{all_read}
use kcf_old.Kcf.RoundTrip.{read_back, read_back-file, fixed-IsReadable, fixed_added_size}
use kcf_old.Kcf.RoundTrip.Describing.{Announces-described, Describes, Describes-fixed}

module _ (env : Env) (laws : CrcLaws env) (alloc : AlwaysAllocates env) (k : Kcf File) (f : File)
    (fl : ℕ) (pre added : List ℕ) (r : KcfRecord) where
  abbrev pub written_record : KcfRecord
  written_record = rec_fix env (described env added r)

  -- The archive when the record and its added data have been written and read back.
  abbrev pub read_again : Kcf File
  read_again =
      all_read env
        (after_record
          (record k { parser_state = ParserState.write_record; mallocs = k.mallocs + 1 })
          written_record)
        (ended f (pre ++ (encode written_record ++ added))) fl
        (length pre + length (encode written_record)) added

  -- `kcf_write_record_with_added_data`, followed by `kcf_start_reading`, a seek to the record's
  -- offset, `kcf_read_record` and `kcf_read_added_data`, gives all of the added data and the
  -- record that was written; this has the type and the data of the given one, the number of the
  -- added bytes in AddedSize, their CRC32C in AddedDataCRC32, and flags that announce a CRC and
  -- an AddedSize with room for the number, whatever size flags it had. Conditions: the file can
  -- be read and written and is positioned at its end, the archive is ready for a record, malloc
  -- never fails, the CRC can be computed a chunk at a time, the record's fields are in range, its
  -- data has DataSize bytes and the whole record less than 65536, its flags ask for the CRC,
  -- there is at least one byte of added data, it fits the buffer, and the file's relevant part
  -- stays below 2^62 bytes.
  pub read_back-with_added_data :
      (buffer : List ℕ) (size : ℕ)
      → f.can_write ≡ true
      → f.can_read ≡ true
      → 0 < length added
      → length pre + length added < 2 ^ 62
      → length (payload r.bytes) ≡ r.data_size
      → head_length (described env added r).head_flags + (described env added r).data_size < 2 ^ 16
      → r.head_type < 2 ^ 8
      → r.head_flags < 2 ^ 8
      → flags_crc r.head_flags ≡ true
      → length added ≤ size
      → size ≤ length buffer
      → ((kcf_write_record_with_added_data env (some added) (length added)
              >> read_back env (length pre) buffer size)
            (over (record k { parser_state = ParserState.write_record }) (ended f pre) fl, r)
          ≡ ok
              (length added, overwrite buffer 0 added)
              (
                read_again,
                record written_record {
                  bytes = some (payload written_record.bytes);
                  data_size = length (payload written_record.bytes);
                },
              ))
        × Describes env added r written_record
  read_back-with_added_data buffer size can_write can_read some_data small full fits type flags
        some_crc fits_size room =
      let d = described env added r in
      let a = Announces-described env added r some_data (omega arith) flags some_crc in
      let (block, got, whole) = alloc k.mallocs written_record.head_size in
      let crc_fits : d.added_data_crc32 < 256 ^ added_data_crc32_field d.head_flags =
        rw (a.crc_is, a.some_crc) (laws.crc32c-lt 0 added (omega arith)) in
      let size_fits : d.added_size < 256 ^ added_size_field d.head_flags = rw a.size_is a.room in
      (
        rw
            (kcf_write_record_with_added_data-file env k f fl can_write pre added r block some_data
              (omega arith) full fits got whole)
            (read_back-file env
              (record k { parser_state = ParserState.write_record; mallocs = k.mallocs + 1 }) f fl
              can_read alloc pre added written_record written_record buffer size
              (fixed-IsReadable env d (described_full env added r some_data full) fits
                (rw a.same_type type) a.flags_u8 size_fits crc_fits)
              (ap flags_size (fixed_flags env d) ∙ a.some_size) (fixed_added_size env d ∙ a.size_is)
              some_data small fits_size room),
        Describes-fixed env added r a,
      )
