-- ===== src/Bytes/RoundTrip.antt =====
-- Reading back what a writer of kcf/bytepack.c has written.
use kcf_old.Base.{
  ℕ, Bool, false, done, ◌&&◌, ◌>>=◌, ltb, le→ltb_false, ◌+◌, ◌^◌, ◌≤◌, ◌<◌, ◌≡◌, refl, ◌∙◌, ap,
  arith, true, Option, List, ◌++◌, length, length-append, length-take, length-drop, take, drop,
  drop-drop, take-append-drop, some,
}
use kcf_old.Bytes.{
  Writer, Reader, write_u8, write_u16, write_u32, write_u64, read_u8, read_u16, read_u32, read_u64,
}
use kcf_old.Bytes.Calls.{
  Width, w8, w16, w32, w64, bytes_of, inside, write_le, read_le, offset_before, offset_after,
  write_u8_le, write_u16_le, write_u32_le, write_u64_le, read_u8_le, read_u16_le, read_u32_le,
  read_u64_le,
}
use kcf_old.Bytes.Encoding.{le, length-le, value-le}
use kcf_old.Bytes.Writing.{Writes, write_u8_lem, write_u16_lem, write_u32_lem, write_u64_lem}
use kcf_old.Bytes.Reading.{Reads, read_u8_lem, read_u16_lem, read_u32_lem, read_u64_lem}

-- `write_u64` at an offset that leaves eight bytes of the buffer and of the size that it is told
-- succeeds and moves the offset by eight, and `read_u64` at the same offset then gives back the
-- value, for every 64-bit value.
read_u64-write_u64 :
    (pre gap : List ℕ) (size v : ℕ)
    → length pre + 8 ≤ size
    → 8 ≤ length gap
    → v < 2 ^ 64
    → (buf : List ℕ) × (write_u64 (pre ++ gap) size (length pre) v ≡ (true, buf, length pre + 8))
      × (read_u64 buf size (length pre) ≡ (true, length pre + 8, some v))
read_u64-write_u64 pre gap size v room fits small =
    let buf = pre ++ le 8 v ++ drop 8 gap in
    let off : length (pre ++ le 8 v) ≡ length pre + 8 =
      length-append pre (le 8 v) ∙ ap (λ n. length pre + n) (length-le 8 v) in
    (
      buf,
      write_u64_lem pre gap size v room fits ∙ ap (λ o. (true, buf, o)) off,
      read_u64_lem pre (le 8 v) (drop 8 gap) size (length-le 8 v) room
          ∙ ap (λ x. (true, length pre + 8, some x)) (value-le 8 v small),
    )

-- The buffer with the `k` bytes of a number at an offset.
abbrev pub stored : ℕ → List ℕ → ℕ → ℕ → List ℕ
stored k buf off v = take off buf ++ le k v ++ drop (off + k) buf

module _ (k : ℕ) (w : Writer) (r : Reader) (writes : Writes k w) (reads : Reads k r) (buf : List ℕ)
    (size off v : ℕ) (room : off + k ≤ size) (fits : size ≤ length buf) where
  write_stored : w buf size off v ≡ (true, stored k buf off v, off + k)
  write_stored =
      let e : length (take off buf) ≡ off = omega (arith, length-take off buf) in
      let run =
        writes (take off buf) (drop off buf) size v (omega arith)
          (omega (arith, length-drop off buf)) in
      let e' : length (take off buf ++ le k v) ≡ off + k =
        length-append (take off buf) (le k v) ∙ rw (e, length-le k v) refl in
      rw (take-append-drop off buf, e', e, drop-drop) at run

  read_stored : v < 256 ^ k → r (stored k buf off v) size off ≡ (true, off + k, some v)
  read_stored small =
      let e : length (take off buf) ≡ off = omega (arith, length-take off buf) in
      let run =
        reads (take off buf) (le k v) (drop (off + k) buf) size (length-le k v) (omega arith) in
      rw (e, value-le k v small) at run

and-false : (b : Bool) → (b && false) ≡ false
and-false true = refl
and-false false = refl

-- A write within the buffer.
within :
    (k : ℕ) (buf : List ℕ) (off : Option ℕ) (v : ℕ) (result : Bool × List ℕ × ℕ)
    → result ≡ (true, stored k buf (offset_before off) v, offset_before off + k)
    → offset_before off + k ≤ length buf
    → inside buf off result
      ≡ done (true, stored k buf (offset_before off) v, offset_after off (offset_before off + k))
within k buf off v result is room =
    ap (inside buf off) is
    ∙ rw
        (
          le→ltb_false (length buf) (offset_before off + k) room,
          and-false (ltb (offset_before off) (offset_before off + k)),
        )
        refl

write_le-stored :
    (w : Width) (buf : List ℕ) (size : ℕ) (off : Option ℕ) (v : ℕ)
    → offset_before off + bytes_of w ≤ size
    → size ≤ length buf
    → write_le w buf size off v
      ≡ done (
        true,
        stored (bytes_of w) buf (offset_before off) v,
        offset_after off (offset_before off + bytes_of w),
      )
unfolding write_u8_le write_u16_le write_u32_le write_u64_le
write_le-stored w8 buf size off v room fits =
    within 1 buf off v _
      (write_stored 1 write_u8 read_u8 write_u8_lem read_u8_lem buf size (offset_before off) v room
        fits)
      (omega arith)
write_le-stored w16 buf size off v room fits =
    within 2 buf off v _
      (write_stored 2 write_u16 read_u16 write_u16_lem read_u16_lem buf size (offset_before off) v
        room fits)
      (omega arith)
write_le-stored w32 buf size off v room fits =
    within 4 buf off v _
      (write_stored 4 write_u32 read_u32 write_u32_lem read_u32_lem buf size (offset_before off) v
        room fits)
      (omega arith)
write_le-stored w64 buf size off v room fits =
    within 8 buf off v _
      (write_stored 8 write_u64 read_u64 write_u64_lem read_u64_lem buf size (offset_before off) v
        room fits)
      (omega arith)

read_le-stored :
    (w : Width) (buf : List ℕ) (size : ℕ) (off : Option ℕ) (v : ℕ)
    → offset_before off + bytes_of w ≤ size
    → size ≤ length buf
    → v < 256 ^ bytes_of w
    → read_le w (stored (bytes_of w) buf (offset_before off) v) size off
      ≡ (true, offset_after off (offset_before off + bytes_of w), some v)
unfolding read_u8_le read_u16_le read_u32_le read_u64_le
read_le-stored w8 buf size off v room fits small =
    ap (λ x. (x.0, offset_after off x.1, x.2))
      (read_stored 1 write_u8 read_u8 write_u8_lem read_u8_lem buf size (offset_before off) v room
        fits small)
read_le-stored w16 buf size off v room fits small =
    ap (λ x. (x.0, offset_after off x.1, x.2))
      (read_stored 2 write_u16 read_u16 write_u16_lem read_u16_lem buf size (offset_before off) v
        room fits small)
read_le-stored w32 buf size off v room fits small =
    ap (λ x. (x.0, offset_after off x.1, x.2))
      (read_stored 4 write_u32 read_u32 write_u32_lem read_u32_lem buf size (offset_before off) v
        room fits small)
read_le-stored w64 buf size off v room fits small =
    ap (λ x. (x.0, offset_after off x.1, x.2))
      (read_stored 8 write_u64 read_u64 write_u64_lem read_u64_lem buf size (offset_before off) v
        room fits small)

-- For each of the four widths: writing a value at an offset that leaves its bytes in the buffer
-- and in Size, or at NULL for offset 0, succeeds, puts the value's little-endian bytes there,
-- leaves every other byte of the buffer, and moves the caller's offset behind them; reading at
-- the same offset then succeeds with the same value and moves the offset in the same way.
-- Condition: the value is in the width's range.
pub read_le-write_le :
    (w : Width) (buf : List ℕ) (size : ℕ) (off : Option ℕ) (v : ℕ)
    → offset_before off + bytes_of w ≤ size
    → size ≤ length buf
    → v < 256 ^ bytes_of w
    → (write_le w buf size off v
        ≡ done (
          true,
          stored (bytes_of w) buf (offset_before off) v,
          offset_after off (offset_before off + bytes_of w),
        ))
      × ((write_le w buf size off v >>= λ x. done (read_le w x.1 size off))
          ≡ done (true, offset_after off (offset_before off + bytes_of w), some v))
read_le-write_le w buf size off v room fits small =
    let written = write_le-stored w buf size off v room fits in
    (
      written,
      ap (λ o. o >>= λ x. done (read_le w x.1 size off)) written
          ∙ ap done (read_le-stored w buf size off v room fits small),
    )
