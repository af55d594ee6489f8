-- ===== src/Record/Buffers.antt =====
-- The buffers that `rec_calculate_CRC` and `rec_to_buffer` fill, against the layout of spec.md.
use kcf_old.Base.{ℕ, suc, ◌+◌, ◌%◌, ◌^◌, ◌≤◌, ◌≡◌, refl, ap, arith, Bool, true, List, [], ◌∷◌, ◌++◌}
use kcf_old.Base.{Option, none, some, length, drop, replicate, length-append}
use kcf_old.Base.{
  le→ltb_false, le→leb, lt→ltb, drop_all, length-drop, take-append, take_all, append-nil,
  if◌then◌else◌, done,
}
use mathlib.Core.Path.{subst}
use kcf_old.Env.{Env, CrcLaws}
use kcf_old.Bytes.{Writer, write_u8, write_u16, write_u32, write_u64}
use kcf_old.Bytes.Encoding.{le, length-le}
use kcf_old.Bytes.Writing.{Writes, write_u8_lem, write_u16_lem, write_u32_lem, write_u64_lem}
use kcf_old.Bytes.Filling.{Puts, Puts-nil, Puts-append, Puts-if, Puts-front}
use kcf_old.Record.{
  KcfRecord, put, and_put, crc_head, crc_added_size, crc_added_data_crc32, crc_data,
}
use kcf_old.Record.{rec_calculate_crc, buffer_head, buffer_added_size, buffer_added_data_crc32}
use kcf_old.Record.{rec_to_buffer, memcpy, flags_size_4, flags_size_8, flags_crc}
use kcf_old.Record.Layout.{added_size_bytes, added_data_crc32_bytes, head_tail, encode, payload}
use kcf_old.Record.Layout.{head_length, length-head_tail, length-encode, head_length_bounds}

abbrev pub cursor : List ℕ → ℕ → List ℕ × ℕ
cursor buf off = (buf, off)

abbrev flagged : List ℕ → ℕ → Bool × List ℕ × ℕ
flagged buf off = (true, buf, off)

pub put-Puts : (k size v : ℕ) (w : Writer) → Writes k w → Puts cursor size (le k v) (put w size v)
put-Puts k size v w lem = record {
  run = λ pre gap h g.
      let e = length-le k v in rw (lem pre gap size v (omega arith) (omega arith), e);
}

and_put-Puts :
    (k size v : ℕ) (w : Writer) → Writes k w → Puts flagged size (le k v) (and_put w size v)
and_put-Puts k size v w lem = record {
  run = λ pre gap h g.
      let e = length-le k v in rw (lem pre gap size v (omega arith) (omega arith), e);
}

-- The switch tests for 4 bytes first, `rec_to_buffer` for 8.
added_size_bytes_swap :
    (flags size : ℕ)
    → (if flags_size_4 flags then le 4 size else if flags_size_8 flags then le 8 size else [])
      ≡ added_size_bytes flags size
added_size_bytes_swap flags size = ground arith

crc_added_size-Puts :
    (r : KcfRecord) → Puts cursor 16 (added_size_bytes r.head_flags r.added_size) (crc_added_size r)
crc_added_size-Puts r =
    subst (λ bs. Puts cursor 16 bs (crc_added_size r))
      (added_size_bytes_swap r.head_flags r.added_size)
      (Puts-if cursor 16 (flags_size_4 r.head_flags)
        (put-Puts 4 16 r.added_size write_u32 write_u32_lem)
        (Puts-if cursor 16 (flags_size_8 r.head_flags)
          (put-Puts 8 16 r.added_size write_u64 write_u64_lem) (Puts-nil cursor 16)))

crc_added_data_crc32-Puts :
    (r : KcfRecord)
    → Puts cursor 16
        (added_data_crc32_bytes r.head_flags r.added_data_crc32)
        (crc_added_data_crc32 r)
crc_added_data_crc32-Puts r =
    Puts-if cursor 16 (flags_crc r.head_flags)
      (put-Puts 4 16 r.added_data_crc32 write_u32 write_u32_lem) (Puts-nil cursor 16)

-- `Buffer[16]` has room for every head, and the part that is used is the head.
crc_head_lem :
    (r : KcfRecord)
    → crc_head r
      ≡ (head_tail r ++ drop (length (head_tail r)) (replicate 16 0), length (head_tail r))
unfolding crc_head
crc_head_lem r =
    let room : length (head_tail r) ≤ 16 =
      omega (arith, length-head_tail r, head_length_bounds r.head_flags) in
    unfold head_tail in
    Puts-front cursor 16 (replicate 16 0)
      (Puts-append cursor 16
        (Puts-append cursor 16
          (Puts-append cursor 16
            (Puts-append cursor 16 (put-Puts 1 16 r.head_type write_u8 write_u8_lem)
              (put-Puts 1 16 r.head_flags write_u8 write_u8_lem))
            (put-Puts 2 16 r.head_size write_u16 write_u16_lem))
          (crc_added_size-Puts r))
        (crc_added_data_crc32-Puts r))
      room room

pub drop-encode : (r : KcfRecord) → drop 2 (encode r) ≡ head_tail r ++ payload r.bytes
unfolding encode le
drop-encode r = refl

crc_data_lem :
    (env : Env) (laws : CrcLaws env) (xs : List ℕ) (bytes : Option (List ℕ)) (size : ℕ)
    → length (payload bytes) ≡ size
    → crc_data env (env.crc32c 0 xs) bytes size ≡ env.crc32c 0 (xs ++ payload bytes)
crc_data_lem env laws xs none size h = rw append-nil
crc_data_lem env laws xs (some []) size h = rw (← h, append-nil)
crc_data_lem env laws xs (some (b ∷ bs)) size h =
    rw
      (
        ← h,
        lt→ltb 0 (suc (length bs)) (omega arith),
        le→ltb_false (suc (length bs)) (suc (length bs)) (omega arith),
        ap (λ t. b ∷ t) (take_all (length bs) bs (omega arith)),
      )
      (laws.crc32c-append 0 xs (b ∷ bs))

-- Where Data has DataSize bytes and the CRC can be computed a chunk at a time,
-- `rec_calculate_crc` is the low 16 bits of the CRC32C of the record's bytes from HeadType to its
-- end, as spec.md defines HeadCRC.
pub rec_calculate_crc_lem :
    (env : Env) (laws : CrcLaws env) (r : KcfRecord)
    → length (payload r.bytes) ≡ r.data_size
    → rec_calculate_crc env r ≡ env.crc32c 0 (drop 2 (encode r)) % 2 ^ 16
unfolding rec_calculate_crc
rec_calculate_crc_lem env laws r block = rw (
  crc_head_lem r,
  take-append,
  crc_data_lem env laws (head_tail r) r.bytes r.data_size block,
  drop-encode r,
)

buffer_added_size-Puts :
    (r : KcfRecord) (size : ℕ)
    → Puts flagged size (added_size_bytes r.head_flags r.added_size) (buffer_added_size r size)
buffer_added_size-Puts r size =
    Puts-if flagged size (flags_size_8 r.head_flags)
      (and_put-Puts 8 size r.added_size write_u64 write_u64_lem)
      (Puts-if flagged size (flags_size_4 r.head_flags)
        (and_put-Puts 4 size r.added_size write_u32 write_u32_lem) (Puts-nil flagged size))

buffer_added_data_crc32-Puts :
    (r : KcfRecord) (size : ℕ)
    → Puts flagged size
        (added_data_crc32_bytes r.head_flags r.added_data_crc32)
        (buffer_added_data_crc32 r size)
buffer_added_data_crc32-Puts r size =
    Puts-if flagged size (flags_crc r.head_flags)
      (and_put-Puts 4 size r.added_data_crc32 write_u32 write_u32_lem) (Puts-nil flagged size)

-- The head's bytes, `HeadCRC` included.
unfoldable head_bytes : KcfRecord → List ℕ
head_bytes r = le 2 r.head_crc ++ head_tail r

length-head_bytes : (r : KcfRecord) → length (head_bytes r) ≡ head_length r.head_flags
unfolding head_bytes
length-head_bytes r = omega (
  arith,
  length-append (le 2 r.head_crc) (head_tail r),
  length-le 2 r.head_crc,
  length-head_tail r,
)

buffer_head_lem :
    (r : KcfRecord) (buf : List ℕ) (size : ℕ)
    → head_length r.head_flags ≤ size
    → head_length r.head_flags ≤ length buf
    → buffer_head r buf size
      ≡ (true, head_bytes r ++ drop (length (head_bytes r)) buf, length (head_bytes r))
unfolding buffer_head
buffer_head_lem r buf size h g =
    let room : length (head_bytes r) ≤ size = omega (arith, length-head_bytes r) in
    let room' : length (head_bytes r) ≤ length buf = omega (arith, length-head_bytes r) in
    unfold head_bytes head_tail in
    Puts-front flagged size buf
      (Puts-append flagged size (and_put-Puts 2 size r.head_crc write_u16 write_u16_lem) (
        Puts-append flagged size
          (Puts-append flagged size
            (Puts-append flagged size
              (Puts-append flagged size (and_put-Puts 1 size r.head_type write_u8 write_u8_lem)
                (and_put-Puts 1 size r.head_flags write_u8 write_u8_lem))
              (and_put-Puts 2 size r.head_size write_u16 write_u16_lem))
            (buffer_added_size-Puts r size))
          (buffer_added_data_crc32-Puts r size)))
      room room'

-- A copy that fills the rest of the destination.
pub memcpy_rest :
    (xs ys : List ℕ) (src : Option (List ℕ)) (n : ℕ)
    → length (payload src) ≡ n
    → length ys ≡ n
    → memcpy (xs ++ ys) (length xs) src n ≡ done (xs ++ payload src)
memcpy_rest xs [] none n h g =
    rw (← h, append-nil, le→leb (length xs) (length xs) (omega arith)) refl
memcpy_rest xs (y ∷ ys) none n h g = absurd (omega arith)
memcpy_rest xs ys (some bs) n h g =
    let fits : length (xs ++ ys) ≡ length xs + length bs = omega (arith, length-append xs ys) in
    rw (
      ← h,
      take_all (length bs) bs (omega arith),
      le→ltb_false (length bs) (length bs) (omega arith),
      le→ltb_false (length (xs ++ ys)) (length xs + length bs) (omega arith),
      take-append,
      drop_all (length xs + length bs) (xs ++ ys) (omega arith),
      append-nil,
    )

-- Where Data has DataSize bytes and HeadSize is the size of the whole record, `rec_to_buffer`
-- fills a buffer of HeadSize bytes with the record's bytes as spec.md lays them out, and returns
-- true.
pub rec_to_buffer_lem :
    (r : KcfRecord) (buf : List ℕ)
    → length (payload r.bytes) ≡ r.data_size
    → r.head_size ≡ length (encode r)
    → length buf ≡ r.head_size
    → rec_to_buffer r buf r.head_size ≡ done (true, encode r)
unfolding rec_to_buffer
rec_to_buffer_lem r buf block whole room =
    let total = length-encode r in
    rw
      (
        le→ltb_false r.head_size r.head_size (omega arith),
        buffer_head_lem r buf r.head_size (omega arith) (omega arith),
        memcpy_rest (head_bytes r) (drop (length (head_bytes r)) buf) r.bytes r.data_size block
            (omega (arith, length-drop (length (head_bytes r)) buf, length-head_bytes r)),
      )
      (unfold encode head_bytes in refl)
