-- ===== src/Kcf/Write/OnFile.antt =====
-- `KCF_write_record` on an archive over a file.
use kcf_old.Base.{ℕ, ◌+◌, ◌^◌, ◌≤◌, ◌<◌, ◌≡◌, refl, ap, ◌∙◌, arith, true, List, length}
use kcf_old.Base.{some, pos, to_int64-small}
use kcf_old.Env.{Env}
use kcf_old.Action.{ok, when, beside}
use kcf_old.Io.{io_write}
use kcf_old.Io.Stdio.{File}
use kcf_old.Io.OnFile.{written, file_stream, io_write-file, io_tell-file}
use kcf_old.Record.{KcfRecord, rec_fix, fixed_head_size, flags_size, flags_crc}
use kcf_old.Record.Layout.{encode, payload, head_length}
use kcf_old.Record.Buffers.{rec_to_buffer_lem}
use kcf_old.Record.Fixing.{rec_fix-head_size}
use kcf_old.Kcf.{Kcf, ParserState}
use kcf_old.Kcf.Write.{write_bytes, kcf_write_record, begin_record, begin_added_data}

-- The archive `k` over the file `f`.
abbrev pub over : Kcf File → File → ℕ → Kcf File
over k f fl = record k { stream = file_stream f fl }

pub head_size-small : (env : Env) (r : KcfRecord) → (rec_fix env r).head_size < 2 ^ 16
unfolding rec_fix fixed_head_size
head_size-small env r = omega arith

pub fixed_full :
    (env : Env) (r : KcfRecord)
    → length (payload r.bytes) ≡ r.data_size
    → length (payload (rec_fix env r).bytes) ≡ (rec_fix env r).data_size
unfolding rec_fix
fixed_full env r full = full

pub fixed_flags : (env : Env) (r : KcfRecord) → (rec_fix env r).head_flags ≡ r.head_flags
unfolding rec_fix
fixed_flags env r = refl

-- The archive over `f` once `kcf_write_record` has written `r`.
abbrev pub after_write : Kcf File → File → ℕ → Env → KcfRecord → Kcf File
after_write k f fl env r =
    over
      (record k {
        parser_state = ParserState.write_record;
        record_offset = f.position;
        has_added_size = flags_size r.head_flags;
        has_added_data_crc32 = flags_crc r.head_flags;
        mallocs = k.mallocs + 1;
      })
      (written f (encode (rec_fix env r))) fl

module _ (k : Kcf File) (f : File) (fl : ℕ) (can : f.can_write ≡ true)
    (inside : f.position ≤ length f.content) where
  -- `rec_to_buffer` and `IO_write` put the bytes of a record whose HeadSize is right into the file.
  pub write_bytes-file :
      (r : KcfRecord) (block : List ℕ)
      → length (payload r.bytes) ≡ r.data_size
      → r.head_size ≡ length (encode r)
      → r.head_size < 2 ^ 16
      → length block ≡ r.head_size
      → write_bytes r block (over k f fl) ≡ ok tt (over k (written f (encode r)) fl)
  unfolding write_bytes
  write_bytes-file r block full whole small room =
      rw
        (
          rec_to_buffer_lem r block full whole room,
          to_int64-small r.head_size (omega arith),
          ap (λ n. io_write (file_stream f fl) (encode r) (pos n)) whole
              ∙ io_write-file f fl (encode r) can inside,
        )
        refl

module _ (k : Kcf File) (f : File) (fl : ℕ) (can : f.can_write ≡ true)
    (inside : f.position ≤ length f.content) where
  -- `kcf_write_record` fixes the record, puts its bytes into the file at its position, keeps this
  -- position in RecordOffset and the record's flags in HasAddedSize and HasAddedDataCRC32, and
  -- starts the added data exactly if the flags announce an AddedSize. Conditions: the archive is
  -- ready for a record, the file can be written and its position is not behind its end, malloc
  -- gives a block of HeadSize bytes, the record's data has DataSize bytes and the record less
  -- than 65536.
  pub kcf_write_record-file :
      (env : Env) (r : KcfRecord) (block : List ℕ)
      → length (payload r.bytes) ≡ r.data_size
      → head_length r.head_flags + r.data_size < 2 ^ 16
      → env.malloc k.mallocs (rec_fix env r).head_size ≡ some block
      → length block ≡ (rec_fix env r).head_size
      → kcf_write_record env (over (record k { parser_state = ParserState.write_record }) f fl, r)
        ≡ when
            (flags_size r.head_flags)
            (beside (begin_added_data env (rec_fix env r)))
            (after_write k f fl env r, rec_fix env r)
  unfolding kcf_write_record begin_record
  kcf_write_record-file env r block full fits got room =
      let whole = rec_fix-head_size env r full fits in
      let small : (rec_fix env r).head_size < 2 ^ 16 = head_size-small env r in
      rw
        (
          got,
          io_tell-file f fl,
          write_bytes-file
              (record k {
                parser_state = ParserState.write_record;
                record_offset = f.position;
                mallocs = k.mallocs + 1;
              })
              f fl can inside (rec_fix env r) block (fixed_full env r full) whole small room,
        )
        (rw (fixed_flags env r) refl)
