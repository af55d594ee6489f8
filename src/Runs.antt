-- ===== src/Runs.antt =====
-- Runs of the theorems on a small archive: an environment, a record and a file to run them on.
mod Records
mod Archives
mod Reading
mod Streams
mod Items
mod Programs
mod Heads
mod Skips
use kcf_old.Base.{
  ℕ, ◌+◌, ◌%◌, ◌^◌, ◌≤◌, ◌<◌, ◌≡◌, refl, arith, Bool, true, false, List, [], ◌∷◌, ◌++◌, length,
  some, replicate, length-replicate,
}
use kcf_old.Env.{Env, CrcLaws, AlwaysAllocates}
use kcf_old.Io.Stdio.{File}
use kcf_old.Io.CFile.{cfile_method}
use kcf_old.Io.{Io}
use kcf_old.Record.{KcfRecord}
use kcf_old.Kcf.{Kcf}
use kcf_old.Kcf.Archive.{fresh}

abbrev sum : List ℕ → ℕ
sum [] = 0
sum (x ∷ xs) = x + sum xs

-- Sums in place of the CRC, and an allocator that never fails.
abbrev test_env : Env
test_env = record {
  crc32c = λ c xs. (c + sum xs) % 2 ^ 32;
  crc32c_past = λ c xs n. 0xDEAD;
  malloc = λ t n. some (replicate n 0);
  missing = record {
    rdstate_marker = 1;
    rdstate_record_header = 2;
    wrstate_marker = 1;
    wrstate_idle = 0;
  };
}

sum-append : (xs ys : List ℕ) → sum (xs ++ ys) ≡ sum xs + sum ys
sum-append [] ys = omega arith
sum-append (x ∷ xs) ys = omega (arith, sum-append xs ys)

test_laws : CrcLaws test_env
test_laws = record {
  crc32c-append = λ c xs ys. omega (arith, sum-append xs ys);
  crc32c-nil = refl;
  crc32c-lt = λ c xs h. omega arith;
}

test_allocates : AlwaysAllocates test_env
test_allocates = λ t n. (replicate n 0, refl, length-replicate n 0)

-- A record with two bytes of data, an AddedSize of four bytes and a CRC of the added data.
abbrev test_record : KcfRecord
test_record = record {
  head_crc = 0;
  head_type = 0x46;
  head_flags = 0xA0;
  head_size = 0;
  added_size = 0;
  added_data_crc32 = 0;
  bytes = some (1 ∷ 2 ∷ []);
  data_size = 2;
}

-- A file that begins with three bytes which are no part of a record.
abbrev test_file : File
test_file = record {
  content = 7 ∷ 8 ∷ 9 ∷ [];
  position = 3;
  can_read = true;
  can_write = true;
  error = false;
  is_null = false;
}

abbrev test_io : Io File
test_io = record { method = cfile_method; handle = test_file; flags = 0 }

abbrev test_archive : Kcf File
test_archive = fresh test_io

abbrev test_chunks : List (List ℕ)
test_chunks = (104 ∷ 101 ∷ []) ∷ (108 ∷ []) ∷ (108 ∷ 111 ∷ []) ∷ []
