-- ===== src/FileInfo.antt =====
-- kcf/files.c: the file information and the record that holds it. The source has the bodies of
-- `file_info_to_record` and `record_to_file_info` the wrong way round: the first one reads the record,
-- the second one writes it. The model keeps the names.
pub mod Layout
pub mod Fields
pub mod Reading
pub mod RoundTrip
use kcf_old.Base.{
  ℕ, zero, suc, ◌+◌, bit_and, bit_or, Bool, true, false, not, ◌&&◌, Option, none, some,
}
use kcf_old.Base.{List, [], ◌∷◌, length, take, drop, ltb, ◌==◌, if◌then◌else◌, Outcome, done, ◌>>=◌}
use kcf_old.Env.{Env}
use kcf_old.Errors.{KcfError, ok, invalid_data, out_of_memory}
use kcf_old.Bytes.{Reader, Writer, write_u8, write_u16, write_u32, write_u64}
use kcf_old.Bytes.{read_u8, read_u16, read_u32, read_u64}
use kcf_old.Record.{KcfRecord, rec_validate, rec_fix, put, memcpy, file_header_type}

-- struct KcfFileInfo. FileName is the bytes before its terminating zero, `none` for a null pointer.
pub record KcfFileInfo : Type 0 where
  pub time_stamp : ℕ
  pub unpacked_size : ℕ
  pub file_name : Option (List ℕ)
  pub file_crc32 : ℕ
  pub compression_info : ℕ
  pub file_type : ℕ
  pub has_time_stamp : Bool
  pub has_file_crc32 : Bool
  pub has_unpacked_size : Bool
  pub has_unpacked_size8 : Bool

abbrev pub blank_file_info : KcfFileInfo
blank_file_info = record {
  time_stamp = 0;
  unpacked_size = 0;
  file_name = none;
  file_crc32 = 0;
  compression_info = 0;
  file_type = 0;
  has_time_stamp = false;
  has_file_crc32 = false;
  has_unpacked_size = false;
  has_unpacked_size8 = false;
}

-- KCF_FILE_HAS_TIMESTAMP, KCF_FILE_HAS_FILE_CRC32, KCF_FILE_HAS_UNPACKED_4, KCF_FILE_HAS_UNPACKED_8
abbrev pub has_timestamp_flag : ℕ
has_timestamp_flag = 0x01

abbrev pub has_file_crc32_flag : ℕ
has_file_crc32_flag = 0x02

abbrev pub has_unpacked_4_flag : ℕ
has_unpacked_4_flag = 0x04

abbrev pub has_unpacked_8_flag : ℕ
has_unpacked_8_flag = 0x0C

-- enum KcfFileType
abbrev pub file_regular : ℕ
file_regular = b'R'

abbrev pub file_directory : ℕ
file_directory = b'd'

abbrev pub name_length : Option (List ℕ) → ℕ
name_length none = 0
name_length (some name) = length name

-- `get_file_info_data_size`
unfoldable pub get_file_info_data_size : KcfFileInfo → ℕ
get_file_info_data_size info =
    2
    + (if info.has_unpacked_size && info.has_unpacked_size8
        then 8
        else if info.has_unpacked_size && not info.has_unpacked_size8
        then 4
        else 0)
    + (if info.has_file_crc32 then 4 else 0)
    + (if info.has_time_stamp then 8 else 0)
    + 4
    + 2
    + name_length info.file_name

-- The string that a block holds: the bytes before its first zero.
unfoldable pub c_string : List ℕ → List ℕ
c_string [] = []
c_string (zero ∷ bs) = []
c_string (suc b ∷ bs) = suc b ∷ c_string bs

abbrev pub has_flag : ℕ → ℕ → Bool
has_flag flags flag = not (bit_and flags flag == 0)

-- A read whose result is not looked at. One that fails leaves an indeterminate value and the offset
-- at the end of the data: the read of the name's size fails too, and its value is used.
abbrev stored : Bool × ℕ × Option ℕ → Outcome (ℕ × ℕ)
stored (success, off, none) = Outcome.undefined
stored (success, off, some v) = done (v, off)

abbrev pub get : Reader → List ℕ → ℕ → ℕ → Outcome (ℕ × ℕ)
get r buf size off = stored (r buf size off)

abbrev pub get_if : Bool → Reader → List ℕ → ℕ → ℕ → ℕ → Outcome (ℕ × ℕ)
get_if true r buf size off old = get r buf size off
get_if false r buf size off old = done (old, off)

-- `switch (flags & KCF_FILE_HAS_UNPACKED_8)`
abbrev pub get_unpacked_size : ℕ → List ℕ → ℕ → ℕ → ℕ → Outcome (ℕ × ℕ)
get_unpacked_size flags buf size off old =
    if bit_and flags has_unpacked_8_flag == has_unpacked_8_flag
    then get read_u64 buf size off
    else if bit_and flags has_unpacked_8_flag == has_unpacked_4_flag
    then get read_u32 buf size off
    else done (old, off)

-- The allocation of the name and its copy out of the record's data.
abbrev pub get_name :
    Option (List ℕ) → List ℕ → ℕ → ℕ → KcfFileInfo → Outcome (KcfError × KcfFileInfo)
get_name none buf off name_size info = done (out_of_memory, record info { file_name = none })
get_name (some block) buf off name_size info =
    if ltb (length buf) (off + name_size)
    then Outcome.undefined
    else done (ok, record info { file_name = some (c_string (take name_size (drop off buf))) })

-- The fields behind the two tests of `file_info_to_record`. FileType is read and not stored.
unfoldable pub read_info : Env → ℕ → List ℕ → ℕ → KcfFileInfo → Outcome (KcfError × KcfFileInfo)
read_info env t buf size info = do
  (flags, off) ← get read_u8 buf size 0
  (type, off2) ← get read_u8 buf size off
  (unpacked_size, off3) ← get_unpacked_size flags buf size off2 info.unpacked_size
  (file_crc32, off4) ←
      get_if (has_flag flags has_file_crc32_flag) read_u32 buf size off3 info.file_crc32
  (compression_info, off5) ← get read_u32 buf size off4
  (time_stamp, off6) ←
      get_if (has_flag flags has_timestamp_flag) read_u64 buf size off5 info.time_stamp
  (name_size, off7) ← get read_u16 buf size off6
  get_name (env.malloc t (name_size + 1)) buf off7 name_size (record info {
    time_stamp = time_stamp;
    unpacked_size = unpacked_size;
    file_crc32 = file_crc32;
    compression_info = compression_info;
    has_time_stamp = has_flag flags has_timestamp_flag;
    has_file_crc32 = has_flag flags has_file_crc32_flag;
    has_unpacked_size = has_flag flags has_unpacked_4_flag;
    has_unpacked_size8 = bit_and flags has_unpacked_8_flag == has_unpacked_8_flag;
  })

-- The readers assert that Data is not null.
abbrev read_info_data :
    Env → ℕ → Option (List ℕ) → ℕ → KcfFileInfo → Outcome (KcfError × KcfFileInfo)
read_info_data env t none size info = Outcome.undefined
read_info_data env t (some buf) size info = read_info env t buf size info

-- `file_info_to_record`, on pointers that are not null: the error and the new Info.
unfoldable pub file_info_to_record :
    Env → ℕ → KcfFileInfo → KcfRecord → Outcome (KcfError × KcfFileInfo)
unfolding read_info
file_info_to_record env t info r =
    if not (rec_validate env (some r))
    then done (invalid_data, info)
    else if not (r.head_type == file_header_type)
    then done (invalid_data, info)
    else read_info_data env t r.bytes r.data_size info

-- `file_flags`
unfoldable pub file_flags : KcfFileInfo → ℕ
file_flags info =
    let f1 = if info.has_time_stamp then bit_or 0 has_timestamp_flag else 0 in
    let f2 = if info.has_file_crc32 then bit_or f1 has_file_crc32_flag else f1 in
    let f3 = if info.has_unpacked_size then bit_or f2 has_unpacked_4_flag else f2 in
    if info.has_unpacked_size8 then bit_or f3 has_unpacked_8_flag else f3

abbrev put_unpacked_size : KcfFileInfo → ℕ → List ℕ × ℕ → List ℕ × ℕ
put_unpacked_size info size cursor =
    if info.has_unpacked_size && info.has_unpacked_size8
    then put write_u64 size info.unpacked_size cursor
    else if info.has_unpacked_size
    then put write_u32 size info.unpacked_size cursor
    else cursor

abbrev put_if : Bool → Writer → ℕ → ℕ → List ℕ × ℕ → List ℕ × ℕ
put_if b w size v cursor = if b then put w size v cursor else cursor

-- The fields up to the name's size.
unfoldable pub put_fields : KcfFileInfo → ℕ → ℕ → List ℕ → List ℕ × ℕ
unfolding file_flags
put_fields info size name_size block = put write_u16 size name_size (
    put_if info.has_time_stamp write_u64 size info.time_stamp (
      put write_u32 size info.compression_info (
        put_if info.has_file_crc32 write_u32 size info.file_crc32 (
          put_unpacked_size info size
            (put write_u8 size info.file_type (put write_u8 size (file_flags info) (block, 0)))))))

-- `strlen(Info->FileName)` is undefined on a null pointer.
abbrev pub write_info_data : KcfFileInfo → Option (List ℕ) → ℕ → List ℕ → Outcome (List ℕ)
write_info_data info none size block = Outcome.undefined
write_info_data info (some name) size block =
    let (buf, off) = put_fields info size (length name) block in
    memcpy buf off (some name) (length name)

abbrev write_info :
    Env → KcfFileInfo → KcfRecord → ℕ → Option (List ℕ) → Outcome (KcfError × KcfRecord)
write_info env info r size none = done (out_of_memory, record r { bytes = none })
write_info env info r size (some block) = do
  buf ← write_info_data info info.file_name size block
  done (ok, rec_fix env (record r { bytes = some buf; data_size = size }))

-- `record_to_file_info`, on pointers that are not null: the error and the new Record.
unfoldable pub record_to_file_info :
    Env → ℕ → KcfRecord → KcfFileInfo → Outcome (KcfError × KcfRecord)
unfolding get_file_info_data_size put_fields
record_to_file_info env t r info =
    let size = get_file_info_data_size info in
    write_info env info (record r { head_type = file_header_type }) size (env.malloc t size)

-- `file_info_clear`
unfoldable pub file_info_clear : KcfFileInfo → KcfFileInfo
file_info_clear info = blank_file_info

abbrev copy_rest : KcfFileInfo → KcfFileInfo → Bool × KcfFileInfo
copy_rest dest src = (
  true,
  record dest {
    file_crc32 = src.file_crc32;
    compression_info = src.compression_info;
    file_type = src.file_type;
    has_time_stamp = src.has_time_stamp;
    has_file_crc32 = src.has_file_crc32;
    has_unpacked_size = src.has_unpacked_size;
    has_unpacked_size8 = src.has_unpacked_size8;
  },
)

abbrev copy_name : KcfFileInfo → KcfFileInfo → List ℕ → Option (List ℕ) → Bool × KcfFileInfo
copy_name dest src name none = (false, record dest { file_name = none })
copy_name dest src name (some block) = copy_rest (record dest { file_name = some name }) src

abbrev pub copy_with_name :
    Env → ℕ → KcfFileInfo → KcfFileInfo → Option (List ℕ) → Bool × KcfFileInfo
copy_with_name env t dest src none = copy_rest dest src
copy_with_name env t dest src (some name) = copy_name dest src name (env.malloc t (length name + 1))

-- `file_info_copy`, on pointers that are not null: its result and the new Dest. Without a name in
-- Src, Dest keeps its own.
unfoldable pub file_info_copy : Env → ℕ → KcfFileInfo → KcfFileInfo → Bool × KcfFileInfo
file_info_copy env t dest src =
    copy_with_name env t
      (record dest { time_stamp = src.time_stamp; unpacked_size = src.unpacked_size }) src
      src.file_name
