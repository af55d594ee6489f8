-- ===== src/Env.antt =====
-- The code that the library calls and that is not its own: the CRC of kcf/crc32c.c, a copy of
-- another project's file, and the C library's allocator.
use kcf_old.Base.{ℕ, ◌^◌, ◌<◌, ◌≡◌, List, [], ◌++◌, length, Option, some}

-- Names that kcf/read.c and kcf/marker.c use and that no file of the repository declares:
-- KCF_RDSTATE_MARKER, KCF_RDSTATE_RECORD_HEADER, KCF_WRSTATE_MARKER and KCF_WRSTATE_IDLE, constants
-- for members ReaderState and WriterState that struct kcf_st does not have.
pub record Missing : Type 0 where
  pub rdstate_marker : ℕ
  pub rdstate_record_header : ℕ
  pub wrstate_marker : ℕ
  pub wrstate_idle : ℕ

pub record Env : Type 0 where
  -- `crc32c(crc, buf, len)`, the buffer with its length as a list.
  pub crc32c : ℕ → List ℕ → ℕ
  -- What `crc32c(crc, buf, len)` answers when the block is shorter than `len`: the bytes behind the
  -- block are read, which C leaves undefined, so nothing is known of the value.
  pub crc32c_past : ℕ → List ℕ → ℕ → ℕ
  -- `malloc t n`: what the call with number `t` answers to a request of `n` bytes, `none` for NULL.
  -- The bytes of a new block are indeterminate: they are whatever the list holds.
  pub malloc : ℕ → ℕ → Option (List ℕ)
  pub missing : Missing

-- kcf/crc32c.h: "This can be used to calculate the CRC of a sequence of bytes a chunk at a time, using
-- the previously returned crc in the next call. The first call must be with crc == 0." It is a uint32_t,
-- and the CRC of no bytes is the first one, 0.
pub record CrcLaws (env : Env) : Type 0 where
  pub crc32c-append :
      (c : ℕ) (xs ys : List ℕ) → env.crc32c (env.crc32c c xs) ys ≡ env.crc32c c (xs ++ ys)
  pub crc32c-nil : env.crc32c 0 [] ≡ 0
  pub crc32c-lt : (c : ℕ) (xs : List ℕ) → c < 2 ^ 32 → env.crc32c c xs < 2 ^ 32

-- malloc answers every request with a block of the size that was asked for.
abbrev pub AlwaysAllocates : Env → Type 0
AlwaysAllocates env =
    (t n : ℕ) → (block : List ℕ) × (env.malloc t n ≡ some block) × (length block ≡ n)
