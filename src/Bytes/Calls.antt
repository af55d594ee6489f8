-- ===== src/Bytes/Calls.antt =====
-- The functions that kcf/bytepack.c exports. `off` is the argument Offset: `none` is NULL, which
-- stands for a local offset 0 that nobody sees afterwards; the others point to an offset, which
-- comes back in the result. Buffer and Out are not NULL, as the assertions want.
use kcf_old.Base.{
  ℕ, Bool, Option, none, some, List, length, ltb, ◌&&◌, if◌then◌else◌, Outcome, done,
}
use kcf_old.Bytes.{write_u8, write_u16, write_u32, write_u64, read_u8, read_u16, read_u32, read_u64}

-- The offset at which a call begins.
abbrev pub offset_before : Option ℕ → ℕ
offset_before none = 0
offset_before (some off) = off

-- What the caller finds at Offset when the call has moved its offset.
abbrev pub offset_after : Option ℕ → ℕ → Option ℕ
offset_after none off = none
offset_after (some before) off = some off

-- What a call of a writer leaves. The bytes that it has written, one behind the other, end at
-- `off'`: if the buffer is smaller, one of them is outside it, which is undefined.
abbrev pub inside : List ℕ → Option ℕ → Bool × List ℕ × ℕ → Outcome (Bool × List ℕ × Option ℕ)
inside buf off (ok, buf', off') =
    if ltb (offset_before off) off' && ltb (length buf) off'
    then Outcome.undefined
    else done (ok, buf', offset_after off off')

abbrev pub WriteLe : Type 0
WriteLe = List ℕ → ℕ → Option ℕ → ℕ → Outcome (Bool × List ℕ × Option ℕ)

abbrev pub ReadLe : Type 0
ReadLe = List ℕ → ℕ → Option ℕ → Bool × Option ℕ × Option ℕ

unfoldable pub read_u64_le : ReadLe
read_u64_le buf size off =
    let (ok, off', out) = read_u64 buf size (offset_before off) in (ok, offset_after off off', out)

unfoldable pub read_u32_le : ReadLe
read_u32_le buf size off =
    let (ok, off', out) = read_u32 buf size (offset_before off) in (ok, offset_after off off', out)

unfoldable pub read_u16_le : ReadLe
read_u16_le buf size off =
    let (ok, off', out) = read_u16 buf size (offset_before off) in (ok, offset_after off off', out)

unfoldable pub read_u8_le : ReadLe
read_u8_le buf size off =
    let (ok, off', out) = read_u8 buf size (offset_before off) in (ok, offset_after off off', out)

unfoldable pub write_u64_le : WriteLe
write_u64_le buf size off v = inside buf off (write_u64 buf size (offset_before off) v)

unfoldable pub write_u32_le : WriteLe
write_u32_le buf size off v = inside buf off (write_u32 buf size (offset_before off) v)

unfoldable pub write_u16_le : WriteLe
write_u16_le buf size off v = inside buf off (write_u16 buf size (offset_before off) v)

unfoldable pub write_u8_le : WriteLe
write_u8_le buf size off v = inside buf off (write_u8 buf size (offset_before off) v)

-- The four widths, with the number of bytes and the functions of each.
pub data Width : Type 0 where
  w8 : Width
  w16 : Width
  w32 : Width
  w64 : Width

abbrev pub bytes_of : Width → ℕ
bytes_of w8 = 1
bytes_of w16 = 2
bytes_of w32 = 4
bytes_of w64 = 8

abbrev pub write_le : Width → WriteLe
write_le w8 = write_u8_le
write_le w16 = write_u16_le
write_le w32 = write_u32_le
write_le w64 = write_u64_le

abbrev pub read_le : Width → ReadLe
read_le w8 = read_u8_le
read_le w16 = read_u16_le
read_le w32 = read_u32_le
read_le w64 = read_u64_le
