-- ===== src/Bytes.antt =====
-- kcf/bytepack.c: little-endian numbers of 1, 2, 4 and 8 bytes in a buffer. A buffer is the list of
-- its bytes; `size` and `off` are the arguments Size and *Offset. The result of a writer is what it
-- returns, the buffer and the offset that it leaves. A reader returns also what it stores in *Out:
-- `none` is a value that the C code leaves indeterminate, since a byte of it was not read. These are
-- the static functions; Bytes.Calls has those that are exported, which take also Offset = NULL. The
-- callers of this library pass 0 for it here.
pub mod Encoding
pub mod Decoding
pub mod Calls
pub mod Writing
pub mod Filling
pub mod Reading
pub mod RoundTrip
use kcf_old.Base.{ℕ, ◌+◌, ◌*◌, ◌/◌, ◌%◌, ◌^◌, Bool, true, false, ◌&&◌, Option, none, some, List}
use kcf_old.Base.{leb, set, get_elem?, if◌then◌else◌}

-- Buffer, Size, *Offset, In. The conversion of In to uint8_t is the one in `write_u8`; the wider
-- writers look at no more than their type's bits.
abbrev pub Writer : Type 0
Writer = List ℕ → ℕ → ℕ → ℕ → Bool × List ℕ × ℕ

-- Buffer, Size, *Offset; `*Out` comes back with the offset.
abbrev pub Reader : Type 0
Reader = List ℕ → ℕ → ℕ → Bool × ℕ × Option ℕ

-- `Buffer[*Offset] = In`. Offset counts a byte outside the list too, and by it the callers see that
-- the buffer has been written past: the exported functions (Calls), and in `rec_to_buffer` and
-- `record_to_file_info` the `memcpy` that goes on from Offset, are undefined then.
unfoldable pub write_u8 : Writer
write_u8 buf size off v =
    if leb size off then (false, buf, off) else (true, set buf off (v % 2 ^ 8), off + 1)

unfoldable pub write_u16 : Writer
write_u16 buf size off v =
    let (ok, buf', off') = write_u8 buf size off (v % 2 ^ 8) in
    if ok then write_u8 buf' size off' (v / 2 ^ 8 % 2 ^ 8) else (false, buf', off')

unfoldable pub write_u32 : Writer
write_u32 buf size off v =
    let (ok, buf', off') = write_u16 buf size off (v % 2 ^ 16) in
    if ok then write_u16 buf' size off' (v / 2 ^ 16 % 2 ^ 16) else (false, buf', off')

unfoldable pub write_u64 : Writer
write_u64 buf size off v =
    let (ok, buf', off') = write_u32 buf size off (v % 2 ^ 32) in
    if ok then write_u32 buf' size off' (v / 2 ^ 32 % 2 ^ 32) else (false, buf', off')

-- The byte at `off` is inside the buffer where Size is the buffer's size, as in every call.
unfoldable pub read_u8 : Reader
read_u8 buf size off =
    if leb size off then (false, off, none) else (true, off + 1, get_elem? buf off)

-- `low | high << k`, for a `low` of k bits; indeterminate if one of the two is.
abbrev pub join : ℕ → Option ℕ → Option ℕ → Option ℕ
join k none high = none
join k (some low) none = none
join k (some low) (some high) = some (low + high * 2 ^ k)

-- Both halves are read also where the first one fails.
unfoldable pub read_u16 : Reader
read_u16 buf size off =
    let (low_read, off', low) = read_u8 buf size off in
    let (high_read, off'', high) = read_u8 buf size off' in
    (low_read && high_read, off'', join 8 low high)

unfoldable pub read_u32 : Reader
read_u32 buf size off =
    let (low_read, off', low) = read_u16 buf size off in
    let (high_read, off'', high) = read_u16 buf size off' in
    (low_read && high_read, off'', join 16 low high)

unfoldable pub read_u64 : Reader
read_u64 buf size off =
    let (low_read, off', low) = read_u32 buf size off in
    let (high_read, off'', high) = read_u32 buf size off' in
    (low_read && high_read, off'', join 32 low high)
