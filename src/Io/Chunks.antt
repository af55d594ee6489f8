-- ===== src/Io/Chunks.antt =====
-- The do-while loops by which io/cfile.c, io/fd.c and io/win32.c move more than INT32_MAX bytes:
-- each round asks for at most CHUNK_SIZE bytes. The three differ in how a round ends.
pub mod Whole
pub mod Ends
pub mod ToEnd
use kcf_old.Base.{ℕ, zero, suc, ◌+◌, ◌-◌, List, [], ◌++◌, length, take, drop, Option, none, some}
use kcf_old.Base.{ltb, if◌then◌else◌, ℤ, pos}

-- CHUNK_SIZE
abbrev pub chunk_size : ℕ
chunk_size = 1073741824

-- INT32_MAX
abbrev pub int32_max : ℕ
int32_max = 2147483647

-- `to_read = CHUNK_SIZE; if (size < to_read) to_read = size;`
abbrev pub next_chunk : ℕ → ℕ
next_chunk size = if ltb size chunk_size then size else chunk_size

-- How a round ends: bytes were moved, the function returns a value at once, or `break`.
pub data Round (H : Type 0) (A : Type 0) : Type 0 where
  moved : A → H → Round H A
  returned : ℤ → H → Round H A
  broken : H → Round H A

module _ {H : Type 0} where
  -- What follows a round of the loop that reads: `got` is what the rounds before have put at the
  -- buffer's front. Of `size` the code asks only whether it is above 0 after `size -= n`, so it is
  -- a number that stops at 0.
  abbrev after_read :
      (H → ℕ → List ℕ → Option (ℤ × List ℕ × H))
      → ℕ
      → List ℕ
      → Round H (List ℕ)
      → Option (ℤ × List ℕ × H)
  after_read again size got (Round.moved bytes h) =
      let rest = again h (size - length bytes) (got ++ bytes) in
      if ltb 0 (size - length bytes)
      then rest
      else some (pos (length (got ++ bytes)), got ++ bytes, h)
  after_read again size got (Round.returned r h) = some (r, got, h)
  after_read again size got (Round.broken h) = some (pos (length got), got, h)

  -- The loop that reads, with at most `fuel` rounds. `none`: it has not ended by then.
  unfoldable pub chunked_read :
      (H → ℕ → Round H (List ℕ)) → ℕ → H → ℕ → List ℕ → Option (ℤ × List ℕ × H)
  chunked_read ask zero h size got = none
  chunked_read ask (suc fuel) h size got =
      after_read (chunked_read ask fuel) size got (ask h (next_chunk size))

  abbrev after_write :
      (H → List ℕ → ℕ → ℕ → Option (ℤ × H)) → List ℕ → ℕ → ℕ → Round H ℕ → Option (ℤ × H)
  after_write again buffer size total (Round.moved n h) =
      let rest = again h (drop n buffer) (size - n) (total + n) in
      if ltb 0 (size - n) then rest else some (pos (total + n), h)
  after_write again buffer size total (Round.returned r h) = some (r, h)
  after_write again buffer size total (Round.broken h) = some (pos total, h)

  -- The loop that writes; `total` is write_length.
  unfoldable pub chunked_write : (H → List ℕ → Round H ℕ) → ℕ → H → List ℕ → ℕ → ℕ → Option (ℤ × H)
  chunked_write ask zero h buffer size total = none
  chunked_write ask (suc fuel) h buffer size total =
      after_write (chunked_write ask fuel) buffer size total (ask h (take (next_chunk size) buffer))
