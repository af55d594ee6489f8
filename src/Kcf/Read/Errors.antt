-- ===== src/Kcf/Read/Errors.antt =====
-- `KCF_read_added_data` on a stream whose read fails.
use kcf_old.Base.{
  ℕ, ◌-◌, ◌^◌, ◌≤◌, ◌<◌, ◌≡◌, refl, ap, arith, true, List, [], length, overwrite, overwrite-append,
  Option, negsuc, to_int64, ltb, lt→ltb, le→ltb_false, ne→==_false, if◌then◌else◌,
}
use kcf_old.Env.{Env}
use kcf_old.Io.{Io, io_read}
use kcf_old.Action.{Result}
use kcf_old.Kcf.{Kcf, ParserState}
use kcf_old.Kcf.Read.{kcf_read_added_data, read_unless_done, read_available}

cut_down : (n m : ℕ) → (if ltb n m then n else m) ≤ m
cut_down n m = ground arith

length-overwrite_nil : (buffer : List ℕ) → length (overwrite buffer 0 []) ≡ length buffer
length-overwrite_nil buffer = ap length (overwrite-append [] buffer [])

-- If the stream's read returns -1 in `kcf_read_added_data`, with added data to read and a buffer
-- of less than 2^63 bytes, the error is not noticed and the CRC of 2^64 - 1 bytes of the buffer
-- is asked for, which is undefined behaviour.
pub kcf_read_added_data-failed_read :
    {S : Type 0} (env : Env) (k : Kcf S) (stream' : Option (Io S)) (buffer : List ℕ)
    → 0 < k.added_data_total
    → length buffer < 2 ^ 63
    → io_read k.stream (
        to_int64
          (if ltb k.added_data_total (length buffer) then k.added_data_total else length buffer))
      ≡ (negsuc 0, [], stream')
    → kcf_read_added_data env true buffer
        (length buffer)
        (record k { parser_state = ParserState.read_added_data })
      ≡ Result.undefined
unfolding kcf_read_added_data read_unless_done read_available
kcf_read_added_data-failed_read env k stream' buffer some small failed =
    let size =
      if ltb k.added_data_total (length buffer) then k.added_data_total else length buffer in
    let cut : size ≤ length buffer = cut_down k.added_data_total (length buffer) in
    rw
      (
        ne→==_false k.added_data_total 0 (omega arith),
        failed,
        le→ltb_false (length buffer) 0 (omega arith),
        le→ltb_false (2 ^ 64 - 1) size (omega (arith, cut)),
        lt→ltb (length (overwrite buffer 0 [])) (2 ^ 64 - 1)
            (omega (arith, length-overwrite_nil buffer)),
      )
      refl
