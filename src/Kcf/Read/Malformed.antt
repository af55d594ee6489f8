-- ===== src/Kcf/Read/Malformed.antt =====
-- `KCF_read_record` on a head whose HeadSize is smaller than the head, on a record that the file's
-- end cuts short, and at the file's end.
use kcf_old.Base.{
  ℕ, ◌+◌, ◌-◌, ◌%◌, ◌^◌, ◌≤◌, ◌<◌, ◌≡◌, refl, arith, true, List, [], ◌++◌, length, take, drop, none,
  some, take_all, drop_all, to_int64-small, overwrite-append,
}
use kcf_old.Env.{Env}
use kcf_old.Errors.{out_of_memory}
use kcf_old.Action.{ok, fail}
use kcf_old.Io.Stdio.{File}
use kcf_old.Io.OnFile.{io_read-file}
use kcf_old.Record.{KcfRecord}
use kcf_old.Record.Layout.{added_size_bytes, added_data_crc32_bytes, head_length}
use kcf_old.Kcf.{Kcf, ParserState}
use kcf_old.Kcf.Read.{
  kcf_read_record, read_record_header, read_fixed_fields, read_added_size, read_added_data_crc32,
}
use kcf_old.Bytes.{read_u8, read_u16}
use kcf_old.Kcf.Read.Header.{at, fixed_bytes}
use kcf_old.Kcf.Read.WholeHead.{FieldsFit, with_head, read_record_header-file}
use kcf_old.Kcf.Read.RoundTrip.{after_record, behind_head}

-- What is left of the size_t when the head does not fit into HeadSize.
abbrev pub wrapped_size : KcfRecord → ℕ
wrapped_size r = 2 ^ 64 - (head_length r.head_flags - r.head_size)

-- On a head whose HeadSize is smaller than the head itself, `kcf_read_record` does not refuse the
-- format: DataSize becomes the difference modulo 2^64, a block of nearly 2^64 bytes is asked for,
-- and when malloc refuses it the result is KCF_ERROR_OUT_OF_MEMORY with the archive left behind
-- the head, expecting a record's data. Conditions: the archive expects a record, the file can be
-- read and holds the head at its position, and the fields fit the bytes that the flags give them.
pub kcf_read_record-short_head :
    (env : Env) (k : Kcf File) (f : File) (fl p : ℕ) (r old : KcfRecord) (rest : List ℕ)
    → f.can_read ≡ true
    → FieldsFit r
    → r.head_size < head_length r.head_flags
    → drop p f.content
      ≡ fixed_bytes r
        ++ (added_size_bytes r.head_flags r.added_size
            ++ (added_data_crc32_bytes r.head_flags r.added_data_crc32 ++ rest))
    → env.malloc k.mallocs (wrapped_size r) ≡ none
    → kcf_read_record env true
        (at (record k { parser_state = ParserState.read_record_header }) f fl p, old)
      ≡ fail out_of_memory (
        at
            (record k {
              parser_state = ParserState.read_record_data;
              added_data_total = 0;
              added_data_done = 0;
              added_data_crc32 = r.added_data_crc32;
              actual_added_data_crc32 = 0;
              mallocs = k.mallocs + 1;
            })
            f
            fl
            (p + head_length r.head_flags),
        record (with_head r old) { data_size = wrapped_size r; bytes = none },
      )
unfolding kcf_read_record
kcf_read_record-short_head env k f fl p r old rest can good short there refused =
    let small : head_length r.head_flags ≤ 18 = ground arith in
    let size : (r.head_size + 2 ^ 64 - head_length r.head_flags) % 2 ^ 64 ≡ wrapped_size r =
      omega arith in
    rw
      (
        read_record_header-file
            (record k {
              parser_state = ParserState.read_record_header;
              added_data_total = 0;
              added_data_done = 0;
              added_data_crc32 = 0;
              actual_added_data_crc32 = 0;
            })
            f fl can rest p r old good there,
        size,
        refused,
      )
      refl

-- A record that the file's end cuts short behind its head is read as if it were whole:
-- `kcf_read_record` returns KCF_ERROR_OK with DataSize as HeadSize says, and the data is what
-- there was of it followed by whatever the new block held. Conditions: the archive expects a
-- record, the file can be read and holds the head and fewer bytes behind it than HeadSize counts,
-- the fields fit the bytes that the flags give them, and malloc gives the block.
pub kcf_read_record-cut_short :
    (env : Env) (k : Kcf File) (f : File) (fl p : ℕ) (r old : KcfRecord) (rest block : List ℕ)
    → f.can_read ≡ true
    → FieldsFit r
    → head_length r.head_flags + length rest < r.head_size
    → drop p f.content
      ≡ fixed_bytes r
        ++ (added_size_bytes r.head_flags r.added_size
            ++ (added_data_crc32_bytes r.head_flags r.added_data_crc32 ++ rest))
    → env.malloc k.mallocs (r.head_size - head_length r.head_flags) ≡ some block
    → kcf_read_record env true
        (at (record k { parser_state = ParserState.read_record_header }) f fl p, old)
      ≡ ok tt (
        at (after_record k r) f fl (p + head_length r.head_flags + length rest),
        record (with_head r old) {
          data_size = r.head_size - head_length r.head_flags;
          bytes = some (rest ++ drop (length rest) block);
        },
      )
unfolding kcf_read_record
kcf_read_record-cut_short env k f fl p r old rest block can good cut there got =
    let n = r.head_size - head_length r.head_flags in
    let size : (r.head_size + 2 ^ 64 - head_length r.head_flags) % 2 ^ 64 ≡ n =
      omega (arith, good.size_u16) in
    let behind : drop (p + head_length r.head_flags) f.content ≡ rest =
      behind_head p r rest f.content there in
    let taken : take n (drop (p + head_length r.head_flags) f.content) ≡ rest =
      rw behind (take_all n rest (omega arith)) in
    rw
      (
        read_record_header-file
            (record k {
              parser_state = ParserState.read_record_header;
              added_data_total = 0;
              added_data_done = 0;
              added_data_crc32 = 0;
              actual_added_data_crc32 = 0;
            })
            f fl can rest p r old good there,
        size,
        got,
        to_int64-small n (omega (arith, good.size_u16)),
        io_read-file (record f { position = p + head_length r.head_flags }) fl n can,
        taken,
        overwrite-append [] block rest,
      )
      refl

-- At the end of a file `kcf_read_record` does not say that the archive has ended: the head is
-- taken to be zeros, its HeadSize of 0 makes DataSize 2^64 - 6, and when malloc refuses a block
-- of this size the result is KCF_ERROR_OUT_OF_MEMORY. Conditions: the archive expects a record,
-- and the file can be read and has been read to its end.
pub kcf_read_record-at_end :
    (env : Env) (k : Kcf File) (f : File) (fl p : ℕ) (old : KcfRecord)
    → f.can_read ≡ true
    → length f.content ≤ p
    → env.malloc k.mallocs (2 ^ 64 - 6) ≡ none
    → kcf_read_record env true
        (at (record k { parser_state = ParserState.read_record_header }) f fl p, old)
      ≡ fail out_of_memory (
        at
            (record k {
              parser_state = ParserState.read_record_data;
              added_data_total = 0;
              added_data_done = 0;
              added_data_crc32 = 0;
              actual_added_data_crc32 = 0;
              mallocs = k.mallocs + 1;
            })
            f
            fl
            p,
        record old {
          head_crc = 0;
          head_type = 0;
          head_flags = 0;
          head_size = 0;
          added_size = 0;
          added_data_crc32 = 0;
          data_size = 2 ^ 64 - 6;
          bytes = none;
        },
      )
unfolding kcf_read_record read_record_header read_fixed_fields read_added_size read_added_data_crc32
    read_u16 read_u8
kcf_read_record-at_end env k f fl p old can ended refused =
    let nothing : drop p f.content ≡ [] = drop_all p f.content ended in
    let same : p + 0 ≡ p = omega arith in
    rw (io_read-file (record f { position = p }) fl 6 can, nothing, refused, same) refl
