-- ===== src/Record/Overflow.antt =====
-- What `rec_to_buffer` does where HeadSize does not count all of the data.
use kcf_old.Base.{ℕ, ◌+◌, ◌^◌, ◌≤◌, ◌<◌, ◌≡◌, refl, ◌∙◌, arith, Bool, true, false, List}
use kcf_old.Base.{Option, none, some, length, le→ltb_false, ne→==_false, undefined}
use kcf_old.Env.{Env}
use kcf_old.Bytes.{Writer, write_u8, write_u16, write_u32, write_u64}
use kcf_old.Bytes.Writing.{KeepsLength, write_u8-KeepsLength, write_u16-KeepsLength}
use kcf_old.Bytes.Writing.{write_u32-KeepsLength, write_u64-KeepsLength}
use kcf_old.Record.{
  KcfRecord, and_put, buffer_head, buffer_added_size, buffer_added_data_crc32, rec_fix,
}
use kcf_old.Record.{rec_to_buffer, memcpy}
use kcf_old.Record.Fixing.{fixed_head_size_lem}
use kcf_old.Record.Layout.{head_length, head_length_bounds}

and_put-length :
    (w : Writer) (size v : ℕ) (s : Bool × List ℕ × ℕ)
    → KeepsLength w
    → length (and_put w size v s).1 ≡ length s.1
and_put-length w size v (true, buf, off) keep = keep buf size off v
and_put-length w size v (false, buf, off) keep = refl

buffer_added_size-length :
    (r : KcfRecord) (size : ℕ) (s : Bool × List ℕ × ℕ)
    → length (buffer_added_size r size s).1 ≡ length s.1
buffer_added_size-length r size s = ground (
  arith,
  and_put-length write_u64 size r.added_size s write_u64-KeepsLength,
  and_put-length write_u32 size r.added_size s write_u32-KeepsLength,
)

buffer_added_data_crc32-length :
    (r : KcfRecord) (size : ℕ) (s : Bool × List ℕ × ℕ)
    → length (buffer_added_data_crc32 r size s).1 ≡ length s.1
buffer_added_data_crc32-length r size s =
    ground (arith, and_put-length write_u32 size r.added_data_crc32 s write_u32-KeepsLength)

buffer_head-length :
    (r : KcfRecord) (buf : List ℕ) (size : ℕ) → length (buffer_head r buf size).1 ≡ length buf
unfolding buffer_head
buffer_head-length r buf size =
    let s1 = and_put write_u16 size r.head_crc (true, buf, 0) in
    let s2 = and_put write_u8 size r.head_type s1 in
    let s3 = and_put write_u8 size r.head_flags s2 in
    let s4 = and_put write_u16 size r.head_size s3 in
    buffer_added_data_crc32-length r size (buffer_added_size r size s4)
    ∙ buffer_added_size-length r size s4
    ∙ and_put-length write_u16 size r.head_size s3 write_u16-KeepsLength
    ∙ and_put-length write_u8 size r.head_flags s2 write_u8-KeepsLength
    ∙ and_put-length write_u8 size r.head_type s1 write_u8-KeepsLength
    ∙ write_u16-KeepsLength buf size 0 r.head_crc

memcpy-undefined :
    (dst : List ℕ) (off : ℕ) (src : Option (List ℕ)) (n : ℕ)
    → length dst < n
    → memcpy dst off src n ≡ undefined
memcpy-undefined dst off none n h = rw (ne→==_false n 0 (omega arith))
memcpy-undefined dst off (some bs) n h = ground arith

-- Given a buffer of HeadSize bytes and a HeadSize below DataSize, `rec_to_buffer` copies past the
-- buffer's end.
pub rec_to_buffer-undefined :
    (r : KcfRecord) (buf : List ℕ)
    → r.head_size < r.data_size
    → length buf ≡ r.head_size
    → rec_to_buffer r buf r.head_size ≡ undefined
unfolding rec_to_buffer
rec_to_buffer-undefined r buf small room = rw (
  le→ltb_false r.head_size r.head_size (omega arith),
  memcpy-undefined (buffer_head r buf r.head_size).1 (buffer_head r buf r.head_size).2 r.bytes
      r.data_size (omega (arith, buffer_head-length r buf r.head_size)),
)

-- For a record of 65536 to 131071 bytes, `rec_to_buffer` after `rec_fix` writes past the end of
-- the buffer of HeadSize bytes that its callers allocate, which is undefined behaviour: `rec_fix`
-- cuts HeadSize to 16 bits.
pub rec_to_buffer-rec_fix_overflow :
    (env : Env) (r : KcfRecord) (buf : List ℕ)
    → 2 ^ 16 ≤ head_length r.head_flags + r.data_size
    → head_length r.head_flags + r.data_size < 2 ^ 17
    → length buf ≡ (rec_fix env r).head_size
    → rec_to_buffer (rec_fix env r) buf (rec_fix env r).head_size ≡ undefined
rec_to_buffer-rec_fix_overflow env r buf lo hi room =
    rec_to_buffer-undefined (rec_fix env r) buf small room
  where
    small : (rec_fix env r).head_size < (rec_fix env r).data_size
    small = unfold rec_fix in omega (arith, fixed_head_size_lem r, head_length_bounds r.head_flags)
