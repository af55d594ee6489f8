-- ===== src/FileInfo/Fields.antt =====
-- The fields of a file header record, read one after another by `file_info_to_record`.
use kcf_old.Base.{
  ℕ, ◌+◌, ◌^◌, ◌≤◌, ◌<◌, ◌≡◌, refl, ap, ◌∙◌, arith, Bool, true, false, not, ◌&&◌, ◌==◌, List, [],
  ◌++◌, append_assoc, append-nil, length, length-append, if◌then◌else◌,
}
use kcf_old.Base.{some, done, take_all, bit_and, drop-append, le→ltb_false}
use kcf_old.Errors.{KcfError}
use kcf_old.Bytes.{Reader, read_u32, read_u64}
use kcf_old.Bytes.Encoding.{le, length-le, value-le}
use kcf_old.Bytes.Reading.{Reads, read_u32_lem, read_u64_lem}
use kcf_old.FileInfo.{
  KcfFileInfo, file_flags, get, get_if, get_unpacked_size, get_name, has_flag, c_string,
}
use kcf_old.FileInfo.{
  has_timestamp_flag, has_file_crc32_flag, has_unpacked_4_flag, has_unpacked_8_flag,
}
use kcf_old.FileInfo.Layout.{unpacked_size_bytes}

-- The flags say what the file information has.
pub flags-timestamp :
    (info : KcfFileInfo) → has_flag (file_flags info) has_timestamp_flag ≡ info.has_time_stamp
unfolding file_flags
flags-timestamp info = ground arith

pub flags-file_crc32 :
    (info : KcfFileInfo) → has_flag (file_flags info) has_file_crc32_flag ≡ info.has_file_crc32
unfolding file_flags
flags-file_crc32 info = ground arith

pub flags-small : (info : KcfFileInfo) → file_flags info < 2 ^ 8
unfolding file_flags
flags-small info = ground arith

pub flags-unpacked_8 :
    (info : KcfFileInfo)
    → (bit_and (file_flags info) has_unpacked_8_flag == has_unpacked_8_flag)
      ≡ info.has_unpacked_size8
unfolding file_flags
flags-unpacked_8 info = ground arith

flags-unpacked_4 :
    (info : KcfFileInfo)
    → (bit_and (file_flags info) has_unpacked_8_flag == has_unpacked_4_flag)
      ≡ (info.has_unpacked_size && not info.has_unpacked_size8)
unfolding file_flags
flags-unpacked_4 info = ground arith

pub flags-unpacked :
    (info : KcfFileInfo)
    → (info.has_unpacked_size8 && not info.has_unpacked_size) ≡ false
    → has_flag (file_flags info) has_unpacked_4_flag ≡ info.has_unpacked_size
unfolding file_flags
flags-unpacked info h = ground arith

-- A reader over a number's bytes.
get-le :
    (k : ℕ) (r : Reader) (pre post : List ℕ) (v size : ℕ)
    → Reads k r
    → v < 256 ^ k
    → length pre + k ≤ size
    → get r (pre ++ le k v ++ post) size (length pre) ≡ done (v, length (pre ++ le k v))
get-le k r pre post v size lem fits room =
    rw
      (lem pre (le k v) post size (length-le k v) room, value-le k v fits, length-append, length-le)
      refl

get_if-le :
    (b : Bool) (k : ℕ) (r : Reader) (pre post : List ℕ) (v size old : ℕ)
    → Reads k r
    → v < 256 ^ k
    → length pre + length (if b then le k v else []) ≤ size
    → get_if b r (pre ++ (if b then le k v else []) ++ post) size (length pre) old
      ≡ done (if b then v else old, length (pre ++ (if b then le k v else [])))
get_if-le true k r pre post v size old lem fits room =
    get-le k r pre post v size lem fits (omega (arith, length-le k v))
get_if-le false k r pre post v size old lem fits room = rw append-nil refl

unpacked_step :
    (b8 b : Bool) (pre post : List ℕ) (v size old : ℕ)
    → (b8 && not b) ≡ false
    → v < (if b8 then 2 ^ 64 else 2 ^ 32)
    → length pre + length (if b && b8 then le 8 v else if b then le 4 v else []) ≤ size
    → (if b8
        then get read_u64
            (pre ++ (if b && b8 then le 8 v else if b then le 4 v else []) ++ post)
            size
            (length pre)
        else if b && not b8
        then get read_u32
            (pre ++ (if b && b8 then le 8 v else if b then le 4 v else []) ++ post)
            size
            (length pre)
        else done (old, length pre))
      ≡ done (
        if b then v else old,
        length (pre ++ (if b && b8 then le 8 v else if b then le 4 v else [])),
      )
unpacked_step true true pre post v size old h fits room =
    get-le 8 read_u64 pre post v size read_u64_lem fits (omega (arith, length-le 8 v))
unpacked_step true false pre post v size old h fits room = absurd cc
unpacked_step false true pre post v size old h fits room =
    get-le 4 read_u32 pre post v size read_u32_lem fits (omega (arith, length-le 4 v))
unpacked_step false false pre post v size old h fits room = rw append-nil refl

get_unpacked_size-bytes :
    (info : KcfFileInfo) (pre post : List ℕ) (size old : ℕ)
    → (info.has_unpacked_size8 && not info.has_unpacked_size) ≡ false
    → info.unpacked_size < (if info.has_unpacked_size8 then 2 ^ 64 else 2 ^ 32)
    → length pre + length (unpacked_size_bytes info) ≤ size
    → get_unpacked_size
        (file_flags info)
        (pre ++ unpacked_size_bytes info ++ post)
        size
        (length pre)
        old
      ≡ done (
        if info.has_unpacked_size then info.unpacked_size else old,
        length (pre ++ unpacked_size_bytes info),
      )
get_unpacked_size-bytes info pre post size old consistent fits room =
    rw (flags-unpacked_8 info, flags-unpacked_4 info)
      (unpacked_step info.has_unpacked_size8 info.has_unpacked_size pre post info.unpacked_size size
        old consistent fits room)

-- The allocation and the copy of the name.
pub get_name-append :
    (block pre name : List ℕ) (info : KcfFileInfo)
    → get_name (some block) (pre ++ name) (length pre) (length name) info
      ≡ done (KcfError.ok, record info { file_name = some (c_string name) })
get_name-append block pre name info =
    rw
      (
        le→ltb_false (length (pre ++ name)) (length pre + length name)
            (omega (arith, length-append pre name)),
        drop-append,
        take_all (length name) name (omega arith),
      )
      refl

-- What the reader makes of `old`, given the data that `info` is written as.
abbrev pub read_over : KcfFileInfo → KcfFileInfo → List ℕ → KcfFileInfo
read_over info old name = record old {
  time_stamp = if info.has_time_stamp then info.time_stamp else old.time_stamp;
  unpacked_size = if info.has_unpacked_size then info.unpacked_size else old.unpacked_size;
  file_crc32 = if info.has_file_crc32 then info.file_crc32 else old.file_crc32;
  compression_info = info.compression_info;
  file_name = some (c_string name);
  has_time_stamp = info.has_time_stamp;
  has_file_crc32 = info.has_file_crc32;
  has_unpacked_size = info.has_unpacked_size;
  has_unpacked_size8 = info.has_unpacked_size8;
}

-- The fields are in the range of their types, and a size of 8 bytes is a size.
pub record IsStorable (info : KcfFileInfo) : Type 0 where
  pub time_stamp_u64 : info.time_stamp < 2 ^ 64
  pub unpacked_size_fits : info.unpacked_size < (if info.has_unpacked_size8 then 2 ^ 64 else 2 ^ 32)
  pub file_crc32_u32 : info.file_crc32 < 2 ^ 32
  pub compression_info_u32 : info.compression_info < 2 ^ 32
  pub file_type_u8 : info.file_type < 2 ^ 8
  pub size8_is_size : (info.has_unpacked_size8 && not info.has_unpacked_size) ≡ false

split-room :
    (buf pre xs post : List ℕ) → buf ≡ pre ++ xs ++ post → length pre + length xs ≤ length buf
split-room buf pre xs post e =
    omega (arith, ap length e, length-append (pre ++ xs) post, length-append pre xs)

pub get-split :
    (k : ℕ) (r : Reader) (buf pre post : List ℕ) (v : ℕ)
    → Reads k r
    → v < 256 ^ k
    → buf ≡ pre ++ le k v ++ post
    → get r buf (length buf) (length pre) ≡ done (v, length (pre ++ le k v))
get-split k r buf pre post v lem fits e =
    ap (λ b. get r b (length buf) (length pre)) e
    ∙ get-le k r pre post v (length buf) lem fits
        (omega (arith, split-room buf pre (le k v) post e, length-le k v))

pub get_if-split :
    (b : Bool) (k : ℕ) (r : Reader) (buf pre post : List ℕ) (v old : ℕ)
    → Reads k r
    → v < 256 ^ k
    → buf ≡ pre ++ (if b then le k v else []) ++ post
    → get_if b r buf (length buf) (length pre) old
      ≡ done (if b then v else old, length (pre ++ (if b then le k v else [])))
get_if-split b k r buf pre post v old lem fits e =
    ap (λ x. get_if b r x (length buf) (length pre) old) e
    ∙ get_if-le b k r pre post v (length buf) old lem fits
        (split-room buf pre (if b then le k v else []) post e)

pub get_unpacked_size-split :
    (info : KcfFileInfo) (buf pre post : List ℕ) (old : ℕ)
    → IsStorable info
    → buf ≡ pre ++ unpacked_size_bytes info ++ post
    → get_unpacked_size (file_flags info) buf (length buf) (length pre) old
      ≡ done (
        if info.has_unpacked_size then info.unpacked_size else old,
        length (pre ++ unpacked_size_bytes info),
      )
get_unpacked_size-split info buf pre post old good e =
    ap (λ x. get_unpacked_size (file_flags info) x (length buf) (length pre) old) e
    ∙ get_unpacked_size-bytes info pre post (length buf) old good.size8_is_size
        good.unpacked_size_fits (split-room buf pre (unpacked_size_bytes info) post e)

module _ (b1 b2 b3 b4 b5 b6 b7 b8 : List ℕ) where
  abbrev pub joined : List ℕ
  joined = b1 ++ b2 ++ b3 ++ b4 ++ b5 ++ b6 ++ b7 ++ b8

  pub split_1 : joined ≡ [] ++ b1 ++ (b2 ++ b3 ++ b4 ++ b5 ++ b6 ++ b7 ++ b8)
  split_1 = simp append_assoc refl

  pub split_2 : joined ≡ b1 ++ b2 ++ (b3 ++ b4 ++ b5 ++ b6 ++ b7 ++ b8)
  split_2 = simp append_assoc refl

  pub split_3 : joined ≡ b1 ++ b2 ++ b3 ++ (b4 ++ b5 ++ b6 ++ b7 ++ b8)
  split_3 = simp append_assoc refl

  pub split_4 : joined ≡ b1 ++ b2 ++ b3 ++ b4 ++ (b5 ++ b6 ++ b7 ++ b8)
  split_4 = simp append_assoc refl

  pub split_5 : joined ≡ b1 ++ b2 ++ b3 ++ b4 ++ b5 ++ (b6 ++ b7 ++ b8)
  split_5 = simp append_assoc refl

  pub split_6 : joined ≡ b1 ++ b2 ++ b3 ++ b4 ++ b5 ++ b6 ++ (b7 ++ b8)
  split_6 = simp append_assoc refl
