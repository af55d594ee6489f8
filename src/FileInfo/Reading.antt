-- ===== src/FileInfo/Reading.antt =====
-- `file_info_to_record`, which reads a record, on any record that begins as a file header.
use kcf_old.Base.{ℕ, ◌+◌, ◌^◌, ◌<◌, ◌≡◌, refl, ◌∙◌, true, List, [], ◌++◌, length, if◌then◌else◌}
use kcf_old.Base.{some, done}
use kcf_old.Env.{Env}
use kcf_old.Errors.{KcfError}
use kcf_old.Bytes.{read_u8, read_u16, read_u32, read_u64}
use kcf_old.Bytes.Encoding.{le}
use kcf_old.Bytes.Reading.{read_u8_lem, read_u16_lem, read_u32_lem, read_u64_lem}
use kcf_old.FileInfo.{KcfFileInfo, file_flags, read_info}
use kcf_old.FileInfo.{get_name, c_string}
use kcf_old.Base.{arith, ltb, take, drop-append, length-append, Outcome}
use kcf_old.FileInfo.{file_info_to_record}
use kcf_old.Record.{KcfRecord, rec_validate, file_header_type}
use kcf_old.FileInfo.Layout.{unpacked_size_bytes, info_head}
use kcf_old.FileInfo.Fields.{
  flags-timestamp, flags-file_crc32, flags-small, flags-unpacked_8, flags-unpacked, get-split,
  get_if-split, get_unpacked_size-split,
}
use kcf_old.FileInfo.Fields.{
  split_1, split_2, split_3, split_4, split_5, split_6, read_over, IsStorable,
}

-- The copy of the name is inside the data exactly if there are as many bytes as it wants.
get_name-any :
    (block pre rest : List ℕ) (size : ℕ) (info : KcfFileInfo)
    → get_name (some block) (pre ++ rest) (length pre) size info ≡ (
        if ltb (length rest) size
        then Outcome.undefined
        else done (KcfError.ok, record info { file_name = some (c_string (take size rest)) }))
get_name-any block pre rest size info =
    let same : ltb (length (pre ++ rest)) (length pre + size) ≡ ltb (length rest) size =
      ground (arith, length-append pre rest) in
    rw (same, drop-append) refl

-- The fields in front of the name are read, whatever the name's size says.
pub read_info_lem :
    (env : Env) (t : ℕ) (info old : KcfFileInfo) (size : ℕ) (name block : List ℕ)
    → IsStorable info
    → size < 2 ^ 16
    → env.malloc t (size + 1) ≡ some block
    → read_info env t (info_head info size ++ name) (length (info_head info size ++ name)) old
      ≡ get_name
          (some block)
          (info_head info size ++ name)
          (length (info_head info size))
          size
          (read_over info old name)
unfolding read_info info_head
read_info_lem env t info old size name block good short got =
    let b1 = le 1 (file_flags info) in
    let b2 = le 1 info.file_type in
    let b3 = unpacked_size_bytes info in
    let b4 = if info.has_file_crc32 then le 4 info.file_crc32 else [] in
    let b5 = le 4 info.compression_info in
    let b6 = if info.has_time_stamp then le 8 info.time_stamp else [] in
    let b7 = le 2 size in
    let buf = b1 ++ b2 ++ b3 ++ b4 ++ b5 ++ b6 ++ b7 ++ name in
    rw
      (
        get-split 1 read_u8 buf [] (b2 ++ b3 ++ b4 ++ b5 ++ b6 ++ b7 ++ name) (file_flags info)
            read_u8_lem (flags-small info) (split_1 b1 b2 b3 b4 b5 b6 b7 name),
        get-split 1 read_u8 buf b1 (b3 ++ b4 ++ b5 ++ b6 ++ b7 ++ name) info.file_type read_u8_lem
            good.file_type_u8 (split_2 b1 b2 b3 b4 b5 b6 b7 name),
        get_unpacked_size-split info buf (b1 ++ b2) (b4 ++ b5 ++ b6 ++ b7 ++ name) old.unpacked_size
            good (split_3 b1 b2 b3 b4 b5 b6 b7 name),
        flags-file_crc32 info,
        get_if-split info.has_file_crc32 4 read_u32 buf (b1 ++ b2 ++ b3) (b5 ++ b6 ++ b7 ++ name)
            info.file_crc32 old.file_crc32 read_u32_lem good.file_crc32_u32
            (split_4 b1 b2 b3 b4 b5 b6 b7 name),
        get-split 4 read_u32 buf (b1 ++ b2 ++ b3 ++ b4) (b6 ++ b7 ++ name) info.compression_info
            read_u32_lem good.compression_info_u32 (split_5 b1 b2 b3 b4 b5 b6 b7 name),
        flags-timestamp info,
        get_if-split info.has_time_stamp 8 read_u64 buf (b1 ++ b2 ++ b3 ++ b4 ++ b5) (b7 ++ name)
            info.time_stamp old.time_stamp read_u64_lem good.time_stamp_u64
            (split_6 b1 b2 b3 b4 b5 b6 b7 name),
        get-split 2 read_u16 buf (b1 ++ b2 ++ b3 ++ b4 ++ b5 ++ b6) name size read_u16_lem short
            refl,
        got,
        flags-unpacked info good.size8_is_size,
        flags-unpacked_8 info,
      )
      refl

pub read_valid :
    (env : Env) (t : ℕ) (old : KcfFileInfo) (r : KcfRecord) (buf : List ℕ)
    → rec_validate env (some r) ≡ true
    → r.head_type ≡ file_header_type
    → r.bytes ≡ some buf
    → r.data_size ≡ length buf
    → file_info_to_record env t old r ≡ read_info env t buf (length buf) old
unfolding file_info_to_record
read_valid env t old r buf valid type bytes size = rw (valid, type, bytes, size) refl

-- What `file_info_to_record` does with the name is fixed by the record's FileNameSize alone: on a
-- valid file header record whose data is the fields of a file information followed by any bytes
-- it reads every field and as many bytes as FileNameSize says, up to the first zero byte, if the
-- data has so many left, and its behaviour is undefined if it has fewer, since it copies past the
-- data without a test. Conditions: the fields are in the range of their types, FileNameSize has
-- 16 bits, DataSize is the size of the data, and malloc gives the block for the name.
pub file_info_to_record-any_name :
    (env : Env) (t : ℕ) (old info : KcfFileInfo) (r : KcfRecord) (size : ℕ) (rest block : List ℕ)
    → rec_validate env (some r) ≡ true
    → r.head_type ≡ file_header_type
    → r.bytes ≡ some (info_head info size ++ rest)
    → r.data_size ≡ length (info_head info size ++ rest)
    → IsStorable info
    → size < 2 ^ 16
    → env.malloc t (size + 1) ≡ some block
    → file_info_to_record env t old r ≡ (
        if ltb (length rest) size
        then Outcome.undefined
        else done (KcfError.ok, read_over info old (take size rest)))
file_info_to_record-any_name env t old info r size rest block valid type bytes full good short got =
    read_valid env t old r (info_head info size ++ rest) valid type bytes full
    ∙ read_info_lem env t info old size rest block good short got
    ∙ get_name-any block (info_head info size) rest size (read_over info old rest)
