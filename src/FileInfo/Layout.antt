-- ===== src/FileInfo/Layout.antt =====
-- The data of a file header record as spec.md lays it out, and what `record_to_file_info` writes.
use kcf_old.Base.{
  ℕ, ◌+◌, ◌≤◌, ◌≡◌, refl, ap, ◌∙◌, arith, ◌&&◌, List, [], ◌++◌, length, length-append,
  if◌then◌else◌,
}
use kcf_old.Base.{some, done, drop, length-drop}
use kcf_old.Env.{Env}
use kcf_old.Errors.{KcfError}
use kcf_old.Bytes.{write_u8, write_u16, write_u32, write_u64}
use kcf_old.Bytes.Encoding.{le, length-le}
use kcf_old.Bytes.Writing.{write_u8_lem, write_u16_lem, write_u32_lem, write_u64_lem}
use kcf_old.Bytes.Filling.{Puts-nil, Puts-append, Puts-if, Puts-front}
use kcf_old.Record.{KcfRecord, rec_fix, file_header_type}
use kcf_old.Record.Buffers.{cursor, put-Puts, memcpy_rest}
use kcf_old.FileInfo.{
  KcfFileInfo, get_file_info_data_size, file_flags, put_fields, record_to_file_info,
  write_info_data,
}

-- `UnpackedSize`, 4 or 8 bytes, optional.
abbrev pub unpacked_size_bytes : KcfFileInfo → List ℕ
unpacked_size_bytes info =
    if info.has_unpacked_size && info.has_unpacked_size8
    then le 8 info.unpacked_size
    else if info.has_unpacked_size
    then le 4 info.unpacked_size
    else []

-- The fields before the name, which has `n` bytes.
unfoldable pub info_head : KcfFileInfo → ℕ → List ℕ
info_head info n =
    le 1 (file_flags info)
    ++ le 1 info.file_type
    ++ unpacked_size_bytes info
    ++ (if info.has_file_crc32 then le 4 info.file_crc32 else [])
    ++ le 4 info.compression_info
    ++ (if info.has_time_stamp then le 8 info.time_stamp else [])
    ++ le 2 n

length-info_head :
    (info : KcfFileInfo) (name : List ℕ)
    → info.file_name ≡ some name
    → length (info_head info (length name)) + length name ≡ get_file_info_data_size info
unfolding info_head get_file_info_data_size
length-info_head info name named = rw named (
    simp (length-append, length-le)
      (ground (
        arith,
        length-le 8 info.time_stamp,
        length-le 4 info.file_crc32,
        length-le 8 info.unpacked_size,
        length-le 4 info.unpacked_size,
      )))

put_fields-Puts :
    (info : KcfFileInfo) (size n : ℕ) (block : List ℕ)
    → length (info_head info n) ≤ size
    → length (info_head info n) ≤ length block
    → put_fields info size n block
      ≡ (info_head info n ++ drop (length (info_head info n)) block, length (info_head info n))
unfolding put_fields
put_fields-Puts info size n block fits room =
    unfold info_head in
    Puts-front cursor size block
      (Puts-append cursor size
        (Puts-append cursor size
          (Puts-append cursor size
            (Puts-append cursor size
              (Puts-append cursor size
                (Puts-append cursor size (put-Puts 1 size (file_flags info) write_u8 write_u8_lem)
                  (put-Puts 1 size info.file_type write_u8 write_u8_lem))
                (Puts-if cursor size (info.has_unpacked_size && info.has_unpacked_size8)
                  (put-Puts 8 size info.unpacked_size write_u64 write_u64_lem)
                  (Puts-if cursor size info.has_unpacked_size
                    (put-Puts 4 size info.unpacked_size write_u32 write_u32_lem)
                    (Puts-nil cursor size))))
              (Puts-if cursor size info.has_file_crc32
                (put-Puts 4 size info.file_crc32 write_u32 write_u32_lem) (Puts-nil cursor size)))
            (put-Puts 4 size info.compression_info write_u32 write_u32_lem))
          (Puts-if cursor size info.has_time_stamp
            (put-Puts 8 size info.time_stamp write_u64 write_u64_lem) (Puts-nil cursor size)))
        (put-Puts 2 size n write_u16 write_u16_lem))
      fits room

write_info_data_lem :
    (info : KcfFileInfo) (name block : List ℕ) (size : ℕ)
    → info.file_name ≡ some name
    → get_file_info_data_size info ≡ size
    → length block ≡ size
    → write_info_data info (some name) size block ≡ done (info_head info (length name) ++ name)
write_info_data_lem info name block size named sized room =
    let total = length-info_head info name named in
    let n = length (info_head info (length name)) in
    rw
      (
        put_fields-Puts info size (length name) block (omega (arith, sized)) (omega (arith, sized)),
        memcpy_rest (info_head info (length name)) (drop n block) (some name) (length name) refl
            (omega (arith, length-drop n block, sized)),
      )
      refl

-- If the file information has a name and malloc gives a block of the size that
-- `get_file_info_data_size` computes, `record_to_file_info` returns KCF_ERROR_OK and a fixed file
-- header record whose data is the fields in the order of spec.md, each with the bytes that the
-- flags announce, the size of the name and the name; the size that was computed is exactly the
-- number of these bytes.
pub record_to_file_info_lem :
    (env : Env) (t : ℕ) (r : KcfRecord) (info : KcfFileInfo) (name block : List ℕ)
    → info.file_name ≡ some name
    → env.malloc t (get_file_info_data_size info) ≡ some block
    → length block ≡ get_file_info_data_size info
    → record_to_file_info env t r info
      ≡ done (
        KcfError.ok,
        rec_fix env (record r {
          head_type = file_header_type;
          bytes = some (info_head info (length name) ++ name);
          data_size = length (info_head info (length name) ++ name);
        }),
      )
unfolding record_to_file_info
record_to_file_info_lem env t r info name block named got room =
    let total : length (info_head info (length name) ++ name) ≡ get_file_info_data_size info =
      length-append (info_head info (length name)) name ∙ length-info_head info name named in
    rw
      (
        got,
        ap (λ o. write_info_data info o (get_file_info_data_size info) block) named
            ∙ write_info_data_lem info name block (get_file_info_data_size info) named refl room,
        total,
      )
      refl
