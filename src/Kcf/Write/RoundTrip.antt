-- ===== src/Kcf/Write/RoundTrip.antt =====
-- A whole session of the writer: a record with added data of a size that is not known before.
use kcf_old.Base.{ℕ, ◌+◌, ◌^◌, ◌<◌, ◌≡◌, refl, ap, ◌∙◌, arith, true, List, [], ◌++◌, length}
use kcf_old.Base.{append_assoc, length-append}
use kcf_old.Env.{Env, CrcLaws, AlwaysAllocates}
use kcf_old.Action.{Action, ok, beside, ◌>>◌}
use kcf_old.Io.Stdio.{File}
use kcf_old.Record.{KcfRecord, rec_fix, flags_size, flags_crc}
use kcf_old.Record.Layout.{encode, payload, head_length}
use kcf_old.Record.Fixing.{rec_fix-head_size}
use kcf_old.Record.Copying.{rec_copy_lem}
use kcf_old.Kcf.{Kcf, ParserState}
use kcf_old.Kcf.Write.{kcf_write_record, kcf_finish_added_data, begin_added_data}
use kcf_old.Kcf.Write.OnFile.{over, fixed_full, head_size-small, kcf_write_record-file}
use kcf_old.Kcf.Write.Session.{adding, write_chunks, write_chunks_lem, concat}
use kcf_old.Io.OnFile.{ended, written-ended}
use kcf_old.Kcf.Write.Finish.{final_record, finished, kcf_finish_added_data_lem}

-- What a client does to store a record and the chunks of its added data.
abbrev pub write_session :
    {S : Type 0} → Env → List (List ℕ) → Action (Kcf S × KcfRecord) (Unit {0})
write_session env chunks =
    kcf_write_record env >> beside (write_chunks env chunks) >> beside (kcf_finish_added_data env)

-- The archive between two records.
abbrev pub ready : Kcf File → File → ℕ → List ℕ → Kcf File
ready k f fl pre =
    over
      (record k {
        parser_state = ParserState.write_record;
        added_data_done = 0;
        added_data_crc32 = 0;
      })
      (ended f pre) fl

-- The record that the session leaves in the file.
abbrev pub stored_record : Env → KcfRecord → List ℕ → KcfRecord
stored_record env r added =
    rec_fix env (record r { added_size = length added; added_data_crc32 = env.crc32c 0 added })

fixed_fits :
    (env : Env) (r : KcfRecord)
    → head_length r.head_flags + r.data_size < 2 ^ 16
    → head_length (rec_fix env (record r { added_size = 0 })).head_flags
        + (rec_fix env (record r { added_size = 0 })).data_size
      < 2 ^ 16
unfolding rec_fix
fixed_fits env r fits = fits

module _ (env : Env) (laws : CrcLaws env) (alloc : AlwaysAllocates env) (k : Kcf File) (f : File)
    (fl : ℕ) (can : f.can_write ≡ true) (pre : List ℕ) where
  -- `kcf_write_record` starts the added data.
  kcf_write_record-adding :
      (r : KcfRecord)
      → length (payload r.bytes) ≡ r.data_size
      → head_length r.head_flags + r.data_size < 2 ^ 16
      → flags_size r.head_flags ≡ true
      → flags_crc r.head_flags ≡ true
      → kcf_write_record env (ready k f fl pre, record r { added_size = 0 })
        ≡ ok tt (
          adding env
              (record k {
                record_offset = length pre;
                last_record = rec_fix env (record r { added_size = 0 });
                has_added_size = true;
                mallocs = k.mallocs + 2;
              })
              f
              fl
              (pre ++ encode (rec_fix env (record r { added_size = 0 })))
              [],
          rec_fix env (record r { added_size = 0 }),
        )
  unfolding begin_added_data
  kcf_write_record-adding r full fits some_size some_crc =
      let r0 = record r { added_size = 0 } in
      let (buffer, got, room) = alloc k.mallocs (rec_fix env r0).head_size in
      let (copy, got', room') = alloc (k.mallocs + 1) (rec_fix env r0).data_size in
      let two : k.mallocs + 1 + 1 ≡ k.mallocs + 2 = omega arith in
      kcf_write_record-file (record k { added_data_done = 0; added_data_crc32 = 0 }) (ended f pre)
        fl can (omega arith) env r0 buffer full fits got room
      ∙ rw
          (
            some_size,
            some_crc,
            rec_copy_lem env (k.mallocs + 1) (rec_fix env r0) copy (fixed_full env r0 full) got'
                room',
            written-ended f pre (encode (rec_fix env r0)),
            laws.crc32c-nil,
            two,
          )
          (unfold rec_fix in refl)

  -- Writing a record whose AddedSize is 0, the chunks of its added data and the end of it appends
  -- to the file the bytes of the record with the number of bytes of all chunks in AddedSize and
  -- their CRC32C in AddedDataCRC32, followed by the chunks; the archive's counters are reset and
  -- it is ready for the next record. Conditions: the archive is ready for a record, with 0 in
  -- WrittenAddedData and AddedDataCRC32, as in a new archive and after `kcf_finish_added_data`
  -- but not after reading added data, the file can be written and is positioned at its end,
  -- malloc never fails, the CRC can be computed a chunk at a time, the record's data has DataSize
  -- bytes, the record has less than 65536 bytes, its flags ask for AddedSize and AddedDataCRC32,
  -- and the file stays below 2^62 bytes.
  pub write_session-file :
      (r : KcfRecord) (chunks : List (List ℕ))
      → length (payload r.bytes) ≡ r.data_size
      → head_length r.head_flags + r.data_size < 2 ^ 16
      → flags_size r.head_flags ≡ true
      → flags_crc r.head_flags ≡ true
      → length pre + length (concat chunks) < 2 ^ 62
      → write_session env chunks (ready k f fl pre, record r { added_size = 0 })
        ≡ ok tt (
          finished env
              (record k { mallocs = k.mallocs + 2 })
              f
              fl
              pre
              (rec_fix env (record r { added_size = 0 }))
              (concat chunks),
          rec_fix env (record r { added_size = 0 }),
        )
  write_session-file r chunks full fits some_size some_crc small =
      let r0 = record r { added_size = 0 } in
      let last = rec_fix env r0 in
      let added = concat chunks in
      let (block, got, room) = alloc (k.mallocs + 2) (final_record env last added).head_size in
      let total : length (pre ++ (encode last ++ added))
          ≡ length pre + (length (encode last) + length added) =
        length-append pre (encode last ++ added)
        ∙ ap (λ n. length pre + n) (length-append (encode last) added) in
      let head : length (encode last) < 2 ^ 16 =
        omega (arith, rec_fix-head_size env r0 full fits, head_size-small env r0) in
      rw
        (
          kcf_write_record-adding r full fits some_size some_crc,
          write_chunks_lem env laws
              (record k {
                record_offset = length pre;
                last_record = last;
                has_added_size = true;
                mallocs = k.mallocs + 2;
              })
              f fl can chunks (pre ++ encode last) [] (omega arith),
          append_assoc,
          kcf_finish_added_data_lem env
              (record k { has_added_size = true; mallocs = k.mallocs + 2 }) f fl can pre added last
              block (fixed_full env r0 full) (fixed_fits env r fits) (omega (arith, total)) got
              room,
        )
        refl
