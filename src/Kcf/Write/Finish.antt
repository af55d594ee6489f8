-- ===== src/Kcf/Write/Finish.antt =====
-- `KCF_finish_added_data`: the head of the record is written once more, with the size and the CRC of
-- the added data.
use kcf_old.Base.{ℕ, ◌+◌, ◌^◌, ◌≤◌, ◌<◌, ◌≡◌, refl, sym, ◌∙◌, arith, true, List, ◌++◌, length}
use kcf_old.Base.{length-append, drop-append, overwrite, overwrite-append, some, to_int64-small}
use kcf_old.Base.{false}
use kcf_old.Env.{Env}
use kcf_old.Action.{ok}
use kcf_old.Io.Stdio.{File}
use kcf_old.Io.OnFile.{file_stream, io_tell-file, io_seek-file}
use kcf_old.Record.{KcfRecord, rec_fix}
use kcf_old.Record.Layout.{encode, payload, head_length, length-encode}
use kcf_old.Record.Fixing.{rec_fix-head_size}
use kcf_old.Kcf.{Kcf, ParserState, blank_record}
use kcf_old.Kcf.Write.{kcf_finish_added_data, patch_record, reset_added_data}
use kcf_old.Record.{rec_clear}
use kcf_old.Kcf.Write.OnFile.{write_bytes-file, fixed_full, head_size-small}
use kcf_old.Kcf.Write.Session.{adding}
use kcf_old.Io.OnFile.{written, ended}

-- LastRecord with what is known by the end.
abbrev pub final_record : Env → KcfRecord → List ℕ → KcfRecord
final_record env last added =
    rec_fix env (record last { added_size = length added; added_data_crc32 = env.crc32c 0 added })

-- The archive between two records, over the file that holds `x` and `added` behind `pre`.
abbrev pub stored_in : Kcf File → File → ℕ → List ℕ → KcfRecord → List ℕ → Kcf File
stored_in k f fl pre x added = record k {
  stream = file_stream (ended f (pre ++ (encode x ++ added))) fl;
  parser_state = ParserState.write_record;
  last_record = blank_record;
  record_offset = 0;
  record_end_offset = 0;
  added_data_total = 0;
  added_data_done = 0;
  added_data_crc32 = 0;
  has_added_data_crc32 = false;
  has_added_size = false;
  mallocs = k.mallocs + 1;
}

-- The archive after the added data of `last`.
abbrev pub finished : Env → Kcf File → File → ℕ → List ℕ → KcfRecord → List ℕ → Kcf File
finished env k f fl pre last added = stored_in k f fl pre (final_record env last added) added

final_record-length :
    (env : Env) (last : KcfRecord) (added : List ℕ)
    → length (encode (final_record env last added)) ≡ length (encode last)
final_record-length env last added =
    length-encode (final_record env last added) ∙ unfold rec_fix in sym (length-encode last)

patched :
    (f : File) (pre old new added : List ℕ)
    → length new ≡ length old
    → record (written (record f { content = pre ++ (old ++ added); position = length pre }) new) {
      position = length (pre ++ (old ++ added));
    }
      ≡ ended f (pre ++ (new ++ added))
patched f pre old new added same =
    let content : overwrite (pre ++ (old ++ added)) (length pre) new ≡ pre ++ (new ++ added) =
      overwrite-append pre (old ++ added) new ∙ rw (same, drop-append) refl in
    let total : length (pre ++ (old ++ added)) ≡ length (pre ++ (new ++ added)) = omega (
      arith,
      length-append pre (old ++ added),
      length-append pre (new ++ added),
      length-append old added,
      length-append new added,
    ) in
    rw (content, total) refl

module _ (env : Env) (k : Kcf File) (f : File) (fl : ℕ) (can : f.can_write ≡ true) where
  -- `kcf_finish_added_data` replaces the bytes of LastRecord in the file, in place, by those of
  -- the same record with the number of added bytes in AddedSize, their CRC in AddedDataCRC32 and
  -- a new HeadCRC; everything before and behind is kept, the file is positioned at its end again,
  -- and the archive's counters are reset. Conditions: the archive is writing added data of a size
  -- not known before, the file holds something, the record and the added data and is positioned
  -- at its end, it can be written, malloc gives a block of HeadSize bytes, the record's data has
  -- DataSize bytes, the record has less than 65536 bytes and the file less than 2^63.
  pub kcf_finish_added_data_lem :
      (pre added : List ℕ) (last : KcfRecord) (block : List ℕ)
      → length (payload last.bytes) ≡ last.data_size
      → head_length last.head_flags + last.data_size < 2 ^ 16
      → length (pre ++ (encode last ++ added)) < 2 ^ 63
      → env.malloc k.mallocs (final_record env last added).head_size ≡ some block
      → length block ≡ (final_record env last added).head_size
      → kcf_finish_added_data env (
          adding env
            (record k { record_offset = length pre; last_record = last })
            f
            fl
            (pre ++ (encode last ++ added))
            added)
        ≡ ok tt (finished env k f fl pre last added)
  unfolding kcf_finish_added_data patch_record reset_added_data rec_clear
  kcf_finish_added_data_lem pre added last block full fits small got room =
      let xs = pre ++ (encode last ++ added) in
      let inside : length pre ≤ length xs =
        omega (arith, length-append pre (encode last ++ added)) in
      let end_known = record last {
        added_size = length added;
        added_data_crc32 = env.crc32c 0 added;
      } in
      let new = final_record env last added in
      let before = record k {
        added_data_total = 0;
        added_data_done = length added;
        added_data_crc32 = env.crc32c 0 added;
        record_offset = length pre;
        record_end_offset = length xs;
        last_record = new;
        has_added_data_crc32 = true;
        parser_state = ParserState.write_added_data;
        mallocs = k.mallocs + 1;
      } in
      rw
        (
          io_tell-file (ended f xs) fl,
          to_int64-small (length pre) (omega arith),
          io_seek-file (ended f xs) fl (length pre),
          got,
          write_bytes-file before (record f { content = xs; position = length pre }) fl can inside
              new block (fixed_full env end_known full) (rec_fix-head_size env end_known full fits)
              (head_size-small env end_known) room,
          to_int64-small (length xs) small,
          io_seek-file (written (record f { content = xs; position = length pre }) (encode new)) fl
              (length xs),
          patched f pre (encode last) (encode new) added (final_record-length env last added),
        )
        refl
