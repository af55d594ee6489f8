-- ===== src/Kcf/Write/WithData.antt =====
-- `KCF_write_record_with_added_data` over a file.
use kcf_old.Base.{
  ℕ, ◌+◌, ◌^◌, ◌<◌, ◌≡◌, refl, ap, ◌∙◌, arith, true, List, ◌++◌, length, append_assoc, some, pos,
  ne→==_false, to_int64-small, le→ltb_false,
}
use kcf_old.Env.{Env}
use kcf_old.Action.{ok}
use kcf_old.Io.{io_write}
use kcf_old.Io.Stdio.{File}
use kcf_old.Io.OnFile.{file_stream, io_write-file, ended, written-ended}
use kcf_old.Record.{KcfRecord, rec_fix}
use kcf_old.Record.Layout.{encode, payload, head_length}
use kcf_old.Record.Fixing.{rec_fix-head_size}
use kcf_old.Kcf.{Kcf, ParserState}
use kcf_old.Kcf.Write.{kcf_write_record_with_added_data, describe_added_data, begin_record}
use kcf_old.Kcf.Write.OnFile.{over, write_bytes-file, fixed_full, head_size-small}

-- The record that is written.
abbrev pub described : Env → List ℕ → KcfRecord → KcfRecord
described env added r = describe_added_data env (some added) (length added) r

pub described_full :
    (env : Env) (added : List ℕ) (r : KcfRecord)
    → 0 < length added
    → length (payload r.bytes) ≡ r.data_size
    → length (payload (described env added r).bytes) ≡ (described env added r).data_size
unfolding describe_added_data
described_full env added r some_data full = rw (ne→==_false (length added) 0 (omega arith)) full

module _ (env : Env) (k : Kcf File) (f : File) (fl : ℕ) (can : f.can_write ≡ true) where
  pub kcf_write_record_with_added_data-file :
      (pre added : List ℕ) (r : KcfRecord) (block : List ℕ)
      → 0 < length added
      → length added < 2 ^ 62
      → length (payload r.bytes) ≡ r.data_size
      → head_length (described env added r).head_flags + (described env added r).data_size < 2 ^ 16
      → env.malloc k.mallocs (rec_fix env (described env added r)).head_size ≡ some block
      → length block ≡ (rec_fix env (described env added r)).head_size
      → kcf_write_record_with_added_data env
          (some added)
          (length added)
          (over (record k { parser_state = ParserState.write_record }) (ended f pre) fl, r)
        ≡ ok tt (
          over
              (record k { parser_state = ParserState.write_record; mallocs = k.mallocs + 1 })
              (ended f (pre ++ (encode (rec_fix env (described env added r)) ++ added)))
              fl,
          rec_fix env (described env added r),
        )
  unfolding kcf_write_record_with_added_data begin_record
  kcf_write_record_with_added_data-file pre added r block some_data small full fits got room =
      let d = described env added r in
      let x = rec_fix env d in
      let full' = described_full env added r some_data full in
      let io : io_write (file_stream (ended f (pre ++ encode x)) fl) added (pos (length added))
          ≡ (pos (length added), file_stream (ended f (pre ++ encode x ++ added)) fl) =
        io_write-file (ended f (pre ++ encode x)) fl added can (omega arith)
        ∙ ap (λ g. (pos (length added), file_stream g fl))
            (written-ended f (pre ++ encode x) added) in
      rw
        (
          got,
          write_bytes-file
              (record k { parser_state = ParserState.write_record; mallocs = k.mallocs + 1 })
              (ended f pre) fl can (omega arith) x block (fixed_full env d full')
              (rec_fix-head_size env d full' fits) (head_size-small env d) room,
          written-ended f pre (encode x),
          le→ltb_false (length added) (length added) (omega arith),
          to_int64-small (length added) (omega arith),
          io,
          append_assoc,
        )
        refl
