-- ===== src/Record/Layout.antt =====
-- The bytes of a record as spec.md lays them out, stated without the code's buffers.
use kcf_old.Base.{
  ℕ, ◌+◌, ◌≤◌, ◌≡◌, true, false, List, [], ◌++◌, Option, none, some, length, length-append, arith,
}
use kcf_old.Base.{if◌then◌else◌}
use kcf_old.Bytes.Encoding.{le, length-le}
use kcf_old.Record.{
  KcfRecord, flags_size_4, flags_size_8, flags_crc, added_size_field, added_data_crc32_field,
}

-- `AddedSize`, 4 or 8 bytes, optional.
abbrev pub added_size_bytes : ℕ → ℕ → List ℕ
added_size_bytes flags size =
    if flags_size_8 flags then le 8 size else if flags_size_4 flags then le 4 size else []

-- `AddedDataCRC32`, 4 bytes, optional.
abbrev pub added_data_crc32_bytes : ℕ → ℕ → List ℕ
added_data_crc32_bytes flags crc = if flags_crc flags then le 4 crc else []

-- The head from `HeadType` on.
unfoldable pub head_tail : KcfRecord → List ℕ
head_tail r =
    le 1 r.head_type
    ++ le 1 r.head_flags
    ++ le 2 r.head_size
    ++ added_size_bytes r.head_flags r.added_size
    ++ added_data_crc32_bytes r.head_flags r.added_data_crc32

abbrev pub payload : Option (List ℕ) → List ℕ
payload none = []
payload (some bytes) = bytes

-- The whole record without its added data.
unfoldable pub encode : KcfRecord → List ℕ
encode r = le 2 r.head_crc ++ head_tail r ++ payload r.bytes

-- Size of the head of a record with these flags: 6, 10 or 14, and 4 more with a CRC.
abbrev pub head_length : ℕ → ℕ
head_length flags = 6 + added_size_field flags + added_data_crc32_field flags

pub length-added_size_bytes :
    (flags size : ℕ) → length (added_size_bytes flags size) ≡ added_size_field flags
length-added_size_bytes flags size = ground (arith, length-le 8 size, length-le 4 size)

pub length-added_data_crc32_bytes :
    (flags crc : ℕ) → length (added_data_crc32_bytes flags crc) ≡ added_data_crc32_field flags
length-added_data_crc32_bytes flags crc = ground (arith, length-le 4 crc)

pub length-head_tail : (r : KcfRecord) → length (head_tail r) + 2 ≡ head_length r.head_flags
unfolding head_tail
length-head_tail r =
    simp (length-append, length-le, length-added_size_bytes, length-added_data_crc32_bytes)
      (omega arith)

pub length-encode :
    (r : KcfRecord) → length (encode r) ≡ head_length r.head_flags + length (payload r.bytes)
unfolding encode
length-encode r = omega (
  arith,
  length-append (le 2 r.head_crc ++ head_tail r) (payload r.bytes),
  length-append (le 2 r.head_crc) (head_tail r),
  length-le 2 r.head_crc,
  length-head_tail r,
)

pub head_length_bounds : (flags : ℕ) → (6 ≤ head_length flags) × (head_length flags ≤ 18)
head_length_bounds flags = ground arith

-- The two sizes of AddedSize exclude each other.
pub not_both : (flags : ℕ) → flags_size_8 flags ≡ true → flags_size_4 flags ≡ false
not_both flags eight = ground arith
