-- ===== src/Kcf/Read/RoundTrip.antt =====
-- `KCF_read_record` over a file that holds the encoding of a record.
use kcf_old.Base.{ℕ, ◌+◌, ◌-◌, ◌%◌, ◌^◌, ◌<◌, ◌≡◌, refl, sym, ap, ◌∙◌, arith, true}
use kcf_old.Base.{
  List, [], ◌++◌, append_assoc, append-nil, length, drop, drop_all, take, take-append,
  to_int64-small, overwrite, overwrite-append, some, if◌then◌else◌,
}
use kcf_old.Action.{ok}
use kcf_old.Env.{Env}
use kcf_old.Io.Stdio.{File}
use kcf_old.Io.OnFile.{io_read-file}
use kcf_old.Record.{KcfRecord, added_size_field, added_data_crc32_field, flags_size}
use kcf_old.Record.Layout.{
  added_size_bytes, added_data_crc32_bytes, length-added_size_bytes, length-added_data_crc32_bytes,
  head_length,
}
use kcf_old.Record.Layout.{encode, head_tail, payload, length-encode}
use kcf_old.Kcf.{Kcf, ParserState}
use kcf_old.Kcf.Read.{kcf_read_record}
use kcf_old.Kcf.Read.Header.{at, fixed_bytes, drop-past}
use kcf_old.Kcf.Read.WholeHead.{FieldsFit, length-fixed_bytes, read_record_header-file}

-- The fields of the head fit where the flags put them, and HeadSize is at least the size of the head.
pub record IsReadable (r : KcfRecord) : Type 0 where
  pub crc_u16 : r.head_crc < 2 ^ 16
  pub type_u8 : r.head_type < 2 ^ 8
  pub flags_u8 : r.head_flags < 2 ^ 8
  pub size_u16 : r.head_size < 2 ^ 16
  pub added_size_fits : r.added_size < 256 ^ added_size_field r.head_flags
  pub added_data_crc32_fits : r.added_data_crc32 < 256 ^ added_data_crc32_field r.head_flags
  pub head_size_is : r.head_size ≡ head_length r.head_flags + length (payload r.bytes)

pub IsReadable-FieldsFit : (r : KcfRecord) → IsReadable r → FieldsFit r
IsReadable-FieldsFit r good = record {
  crc_u16 = good.crc_u16;
  type_u8 = good.type_u8;
  flags_u8 = good.flags_u8;
  size_u16 = good.size_u16;
  added_size_fits = good.added_size_fits;
  added_data_crc32_fits = good.added_data_crc32_fits;
}

pub encode-parts :
    (r : KcfRecord) (post : List ℕ)
    → encode r ++ post
      ≡ fixed_bytes r
        ++ (added_size_bytes r.head_flags r.added_size
            ++ (added_data_crc32_bytes r.head_flags r.added_data_crc32
                ++ (payload r.bytes ++ post)))
unfolding encode head_tail
encode-parts r post = simp append_assoc refl

pub behind_head :
    (p : ℕ) (r : KcfRecord) (rest c : List ℕ)
    → drop p c
      ≡ fixed_bytes r
        ++ (added_size_bytes r.head_flags r.added_size
            ++ (added_data_crc32_bytes r.head_flags r.added_data_crc32 ++ rest))
    → drop (p + head_length r.head_flags) c ≡ rest
behind_head p r rest c there =
    let size_bytes = added_size_bytes r.head_flags r.added_size in
    let crc_bytes = added_data_crc32_bytes r.head_flags r.added_data_crc32 in
    let far : p + 6 + added_size_field r.head_flags + added_data_crc32_field r.head_flags
        ≡ p + head_length r.head_flags =
      omega arith in
    ap (λ m. drop m c) (sym far)
    ∙ drop-past (p + 6 + added_size_field r.head_flags) (added_data_crc32_field r.head_flags) c
        crc_bytes rest
        (drop-past (p + 6) (added_size_field r.head_flags) c size_bytes (crc_bytes ++ rest)
          (drop-past p 6 c (fixed_bytes r) (size_bytes ++ (crc_bytes ++ rest)) there
            (length-fixed_bytes r))
          (length-added_size_bytes r.head_flags r.added_size))
        (length-added_data_crc32_bytes r.head_flags r.added_data_crc32)

overwrite_all : (block bs : List ℕ) → length block ≡ length bs → overwrite block 0 bs ≡ bs
overwrite_all block bs size =
    overwrite-append [] block bs
    ∙ rw (← size, drop_all (length block) block (omega arith), append-nil) refl

-- The archive after `kcf_read_record` has read `r`.
abbrev pub after_record : Kcf File → KcfRecord → Kcf File
after_record k r = record k {
  added_data_total = r.added_size;
  added_data_done = 0;
  added_data_crc32 = r.added_data_crc32;
  actual_added_data_crc32 = 0;
  parser_state =
      if flags_size r.head_flags
      then ParserState.read_added_data
      else ParserState.read_record_header;
  mallocs = k.mallocs + 1;
}

-- Where the file holds the bytes of a record as spec.md lays them out, `kcf_read_record` returns
-- this record with its data in a new block, moves exactly past its bytes, and expects added data
-- next if the flags announce an AddedSize and a record otherwise; AvailableAddedData is the
-- record's AddedSize. Conditions: the archive expects a record, the file can be read, malloc
-- gives a block of the data's size, the fields fit the bytes that the flags give them, and
-- HeadSize is the number of the record's bytes.
pub kcf_read_record-encode :
    (env : Env) (k : Kcf File) (f : File) (fl p : ℕ) (r old : KcfRecord) (post block : List ℕ)
    → f.can_read ≡ true
    → IsReadable r
    → drop p f.content ≡ encode r ++ post
    → env.malloc k.mallocs (length (payload r.bytes)) ≡ some block
    → length block ≡ length (payload r.bytes)
    → kcf_read_record env true
        (at (record k { parser_state = ParserState.read_record_header }) f fl p, old)
      ≡ ok tt (
        at (after_record k r) f fl (p + length (encode r)),
        record r { bytes = some (payload r.bytes); data_size = length (payload r.bytes) },
      )
unfolding kcf_read_record
kcf_read_record-encode env k f fl p r old post block can good there got size =
    let bs = payload r.bytes in
    let n = length bs in
    let head = head_length r.head_flags in
    let there' = there ∙ encode-parts r post in
    let data_size : (r.head_size + 2 ^ 64 - head) % 2 ^ 64 ≡ n =
      omega (arith, good.size_u16, good.head_size_is) in
    let behind : drop (p + head) f.content ≡ bs ++ post =
      behind_head p r (bs ++ post) f.content there' in
    let taken : take n (drop (p + head) f.content) ≡ bs = rw (behind, take-append) refl in
    let far : p + head + n ≡ p + length (encode r) = omega (arith, length-encode r) in
    rw
      (
        read_record_header-file
            (record k {
              parser_state = ParserState.read_record_header;
              added_data_total = 0;
              added_data_done = 0;
              added_data_crc32 = 0;
              actual_added_data_crc32 = 0;
            })
            f fl can (bs ++ post) p r old (IsReadable-FieldsFit r good) there',
        data_size,
        got,
        to_int64-small n (omega (arith, good.size_u16, good.head_size_is)),
        io_read-file (record f { position = p + head }) fl n can,
        taken,
        overwrite_all block bs size,
        far,
      )
      refl
