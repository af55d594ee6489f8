-- ===== src/Record.antt =====
-- kcf/record.h and kcf/record.c: an archive record, its CRC, its size and its bytes.
pub mod Decoding
pub mod Layout
pub mod Fixing
pub mod Buffers
pub mod Overflow
pub mod Copying
use kcf_old.Base.{ℕ, ◌+◌, ◌%◌, ◌^◌, bit_and, Bool, true, false, not, ◌&&◌, ◌||◌, Option, none, some}
use kcf_old.Base.{
  List, ◌++◌, length, take, drop, replicate, ltb, leb, ◌==◌, if◌then◌else◌, Outcome, done,
}
use kcf_old.Base.{undefined, ◌>>=◌, overwrite}
use kcf_old.Env.{Env}
use kcf_old.Errors.{KcfError, ok, out_of_memory}
use kcf_old.Bytes.{Writer, write_u8, write_u16, write_u32, write_u64}

-- KCF_HAS_ADDED_DATA_CRC32, KCF_HAS_ADDED_SIZE_4, KCF_HAS_ADDED_SIZE_8
abbrev pub has_added_data_crc32_flag : ℕ
has_added_data_crc32_flag = 0x20

abbrev pub has_added_size_4_flag : ℕ
has_added_size_4_flag = 0x80

abbrev pub has_added_size_8_flag : ℕ
has_added_size_8_flag = 0xC0

-- enum KcfRecordType
abbrev pub marker_type : ℕ
marker_type = b'!'

abbrev pub archive_header_type : ℕ
archive_header_type = b'A'

abbrev pub file_header_type : ℕ
file_header_type = b'F'

abbrev pub data_fragment_type : ℕ
data_fragment_type = b'D'

-- struct KcfRecord. `bytes` is the block that Data points to, `none` for a null pointer.
pub record KcfRecord : Type 0 where
  pub head_crc : ℕ
  pub head_type : ℕ
  pub head_flags : ℕ
  pub head_size : ℕ
  pub added_size : ℕ
  pub added_data_crc32 : ℕ
  pub bytes : Option (List ℕ)
  pub data_size : ℕ

-- struct KcfArchiveHeader
pub record KcfArchiveHeader : Type 0 where
  pub archive_version : ℕ

-- `rec_clear`
unfoldable pub rec_clear : KcfRecord → KcfRecord
rec_clear r = record {
  head_crc = 0;
  head_type = 0;
  head_flags = 0;
  head_size = 0;
  added_size = 0;
  added_data_crc32 = 0;
  bytes = none;
  data_size = 0;
}

-- The tests of HeadFlags that the switches and flag functions make.
abbrev pub flags_size_8 : ℕ → Bool
flags_size_8 flags = bit_and flags has_added_size_8_flag == has_added_size_8_flag

abbrev pub flags_size_4 : ℕ → Bool
flags_size_4 flags = bit_and flags has_added_size_8_flag == has_added_size_4_flag

abbrev pub flags_size : ℕ → Bool
flags_size flags = not (bit_and flags has_added_size_4_flag == 0)

abbrev pub flags_crc : ℕ → Bool
flags_crc flags = not (bit_and flags has_added_data_crc32_flag == 0)

-- `rec_has_added_size`, `rec_has_added_data_CRC`, `rec_has_added_size_8`, `rec_has_added_size_4`;
-- `none` is a null pointer.
abbrev pub rec_has_added_size : Option KcfRecord → Bool
rec_has_added_size none = false
rec_has_added_size (some r) = flags_size r.head_flags

abbrev pub rec_has_added_data_crc : Option KcfRecord → Bool
rec_has_added_data_crc none = false
rec_has_added_data_crc (some r) = flags_crc r.head_flags

abbrev pub rec_has_added_size_8 : Option KcfRecord → Bool
rec_has_added_size_8 none = false
rec_has_added_size_8 (some r) = flags_size_8 r.head_flags

abbrev pub rec_has_added_size_4 : Option KcfRecord → Bool
rec_has_added_size_4 none = false
rec_has_added_size_4 (some r) = flags_size_4 r.head_flags

-- A write whose result is not looked at: buffer and offset, before and after.
abbrev pub put : Writer → ℕ → ℕ → List ℕ × ℕ → List ℕ × ℕ
put w size v (buf, off) = let (written, buf', off') = w buf size off v in (buf', off')

-- The head that the CRC covers, in `Buffer[16]`.
abbrev crc_added_size : KcfRecord → List ℕ × ℕ → List ℕ × ℕ
crc_added_size r cursor =
    if flags_size_4 r.head_flags
    then put write_u32 16 r.added_size cursor
    else if flags_size_8 r.head_flags
    then put write_u64 16 r.added_size cursor
    else cursor

abbrev crc_added_data_crc32 : KcfRecord → List ℕ × ℕ → List ℕ × ℕ
crc_added_data_crc32 r cursor =
    if flags_crc r.head_flags then put write_u32 16 r.added_data_crc32 cursor else cursor

crc_head : KcfRecord → List ℕ × ℕ
crc_head r = crc_added_data_crc32 r (
    crc_added_size r (
      put write_u16 16 r.head_size
        (put write_u8 16 r.head_flags (put write_u8 16 r.head_type (replicate 16 0, 0)))))

-- `if (Record->Data && Record->DataSize > 0) CRC = crc32c(CRC, Record->Data, Record->DataSize)`
abbrev crc_data : Env → ℕ → Option (List ℕ) → ℕ → ℕ
crc_data env crc none size = crc
crc_data env crc (some bytes) size =
    if ltb 0 size
    then (if ltb (length bytes) size
        then env.crc32c_past crc bytes size
        else env.crc32c crc (take size bytes))
    else crc

-- `rec_calculate_CRC`
pub rec_calculate_crc : Env → KcfRecord → ℕ
unfolding crc_head
rec_calculate_crc env r =
    let (buf, off) = crc_head r in
    crc_data env (env.crc32c 0 (take off buf)) r.bytes r.data_size % 2 ^ 16

-- `rec_validate`
pub rec_validate : Env → Option KcfRecord → Bool
rec_validate env none = false
rec_validate env (some r) = rec_calculate_crc env r == r.head_crc

-- What the switch and the `if` of `rec_fix` add to HeadSize.
abbrev pub added_size_field : ℕ → ℕ
added_size_field flags = if flags_size_4 flags then 4 else if flags_size_8 flags then 8 else 0

abbrev pub added_data_crc32_field : ℕ → ℕ
added_data_crc32_field flags = if flags_crc flags then 4 else 0

-- HeadSize is a uint16_t: each assignment to it is cut to 16 bits.
unfoldable pub fixed_head_size : KcfRecord → ℕ
fixed_head_size r =
    ((((6 + r.data_size) % 2 ^ 16 + added_size_field r.head_flags) % 2 ^ 16)
      + added_data_crc32_field r.head_flags)
    % 2 ^ 16

-- `rec_fix`
unfoldable pub rec_fix : Env → KcfRecord → KcfRecord
rec_fix env r =
    let sized = record r { head_size = fixed_head_size r } in
    record sized { head_crc = rec_calculate_crc env sized }

-- `result = result && Write…(…)`
abbrev pub and_put : Writer → ℕ → ℕ → Bool × List ℕ × ℕ → Bool × List ℕ × ℕ
and_put w size v (true, buf, off) = w buf size off v
and_put w size v (false, buf, off) = (false, buf, off)

abbrev buffer_added_size : KcfRecord → ℕ → Bool × List ℕ × ℕ → Bool × List ℕ × ℕ
buffer_added_size r size cursor =
    if rec_has_added_size_8 (some r)
    then and_put write_u64 size r.added_size cursor
    else if rec_has_added_size_4 (some r)
    then and_put write_u32 size r.added_size cursor
    else cursor

abbrev buffer_added_data_crc32 : KcfRecord → ℕ → Bool × List ℕ × ℕ → Bool × List ℕ × ℕ
buffer_added_data_crc32 r size cursor =
    if rec_has_added_data_crc (some r)
    then and_put write_u32 size r.added_data_crc32 cursor
    else cursor

buffer_head : KcfRecord → List ℕ → ℕ → Bool × List ℕ × ℕ
buffer_head r buf size = buffer_added_data_crc32 r size (
    buffer_added_size r size (
      and_put write_u16 size r.head_size (
        and_put write_u8 size r.head_flags
          (and_put write_u8 size r.head_type (and_put write_u16 size r.head_crc (true, buf, 0))))))

-- `memcpy(dst + off, src, n)`: undefined if it would read or write outside a block, and also for no
-- bytes if `dst + off` is none of its addresses, where the writes before have gone past it.
abbrev pub memcpy : List ℕ → ℕ → Option (List ℕ) → ℕ → Outcome (List ℕ)
memcpy dst off none n = if n == 0 && leb off (length dst) then done dst else undefined
memcpy dst off (some src) n =
    if ltb (length src) n || ltb (length dst) (off + n)
    then undefined
    else done (overwrite dst off (take n src))

-- `rec_to_buffer`, on a Buffer with the bytes `buf`.
pub rec_to_buffer : KcfRecord → List ℕ → ℕ → Outcome (Bool × List ℕ)
unfolding buffer_head
rec_to_buffer r buf size =
    if ltb size r.head_size
    then done (false, buf)
    else (let (result, buf', off) = buffer_head r buf size in
        memcpy buf' off r.bytes r.data_size >>= λ filled. done (result, filled))

-- What `malloc` and `memcpy` leave in the new block of `rec_copy`.
abbrev copied : Option (List ℕ) → List ℕ → ℕ → Outcome (KcfError × Option (List ℕ))
copied none src n = done (out_of_memory, none)
copied (some block) src n = memcpy block 0 (some src) n >>= λ filled. done (ok, some filled)

abbrev pub copy_data : Env → ℕ → Option (List ℕ) → ℕ → Outcome (KcfError × Option (List ℕ))
copy_data env t none n = done (ok, none)
copy_data env t (some bytes) n = copied (env.malloc t n) bytes n

-- `rec_copy`: the error and the new Destination. `t` is the number of the call of malloc.
unfoldable pub rec_copy : Env → ℕ → KcfRecord → Outcome (KcfError × KcfRecord)
rec_copy env t src =
    copy_data env t src.bytes src.data_size >>= λ p. done (p.0, record src { bytes = p.1 })
