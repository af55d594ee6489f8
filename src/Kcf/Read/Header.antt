-- ===== src/Kcf/Read/Header.antt =====
-- `read_record_header` on a file whose next bytes are the head of a record.
use kcf_old.Base.{
  ℕ, ◌+◌, ◌*◌, ◌/◌, ◌%◌, ◌^◌, ◌≤◌, ◌<◌, ◌≡◌, refl, sym, ap, ◌∙◌, arith, Bool, true, false,
}
use kcf_old.Base.{not, ◌||◌, List, ◌++◌, length, take, drop, overwrite}
use kcf_old.Base.{take-append, drop-append, drop-drop, overwrite-append, if◌then◌else◌}
use kcf_old.Base.Masks.{all_below, all_below_sound}
use kcf_old.Action.{ok}
use kcf_old.Io.Stdio.{File}
use kcf_old.Io.OnFile.{file_stream, io_read-file}
use kcf_old.Bytes.{read_u8, read_u16, read_u32, read_u64}
use kcf_old.Bytes.Encoding.{le, length-le, value-le}
use kcf_old.Bytes.Reading.{read_u32_lem, read_u64_lem}
use kcf_old.Record.{KcfRecord, flags_size, flags_size_4, flags_size_8}
use kcf_old.Kcf.{Kcf}
use kcf_old.Kcf.Read.{get, fill, read_fixed_fields}

-- The archive over the file `f` when it has been read up to `p`.
abbrev pub at : Kcf File → File → ℕ → ℕ → Kcf File
at k f flags p = record k { stream = file_stream (record f { position = p }) flags }

eqb : Bool → Bool → Bool
eqb a b = if a then b else not b

eqb→eq : (a b : Bool) → eqb a b ≡ true → a ≡ b
unfolding eqb
eqb→eq true true h = refl
eqb→eq false false h = refl
eqb→eq true false h = cc
eqb→eq false true h = cc

-- 0x80 is set in just the two combinations that the other tests name.
pub flags_size-or :
    (flags : ℕ) → flags < 2 ^ 8 → flags_size flags ≡ (flags_size_8 flags || flags_size_4 flags)
unfolding all_below eqb
flags_size-or flags h =
    eqb→eq _ _ (
      all_below_sound 256 (λ x. eqb (flags_size x) (flags_size_8 x || flags_size_4 x)) refl flags h)

module _ (k : Kcf File) (f : File) (flags : ℕ) (can : f.can_read ≡ true) where
  -- A read of `n` bytes that are there.
  pub fill-file :
      (buf : List ℕ) (off n p : ℕ) (r : KcfRecord) (xs rest : List ℕ)
      → drop p f.content ≡ xs ++ rest
      → length xs ≡ n
      → fill buf off n (at k f flags p, r) ≡ ok (overwrite buf off xs) (at k f flags (p + n), r)
  fill-file buf off n p r xs rest there size =
      let got : take n (drop p f.content) ≡ xs = rw (there, ← size, take-append) refl in
      rw (io_read-file (record f { position = p }) flags n can, got, size)

-- The six bytes that every head begins with.
abbrev pub fixed_bytes : KcfRecord → List ℕ
fixed_bytes r = le 2 r.head_crc ++ le 1 r.head_type ++ le 1 r.head_flags ++ le 2 r.head_size

-- What the first six bytes of a head set.
abbrev pub with_fixed : KcfRecord → KcfRecord → KcfRecord
with_fixed r old = record old {
  head_crc = r.head_crc;
  head_type = r.head_type;
  head_flags = r.head_flags;
  head_size = r.head_size;
  added_size = 0;
}

two_bytes : (v : ℕ) → v < 2 ^ 16 → v % 256 + v / 256 % 256 * 256 ≡ v
two_bytes v h = omega arith

one_byte : (v : ℕ) → v < 2 ^ 8 → v % 256 ≡ v
one_byte v h = omega arith

pub read_fixed_fields-file :
    (s : Kcf File) (r old : KcfRecord) (rest : List ℕ)
    → r.head_crc < 2 ^ 16
    → r.head_type < 2 ^ 8
    → r.head_flags < 2 ^ 8
    → r.head_size < 2 ^ 16
    → read_fixed_fields (fixed_bytes r ++ rest) (s, old) ≡ ok 6 (s, with_fixed r old)
unfolding read_fixed_fields read_u16 read_u8 le
read_fixed_fields-file s r old rest hc ht hf hs = rw (
  two_bytes r.head_crc hc,
  one_byte r.head_type ht,
  one_byte r.head_flags hf,
  two_bytes r.head_size hs,
)

-- A read of the next `xs` into the buffer behind `pre`.
pub fill-behind :
    (k : Kcf File) (f : File) (flags : ℕ) (pre gap xs rest : List ℕ) (n p : ℕ) (r : KcfRecord)
    → f.can_read ≡ true
    → drop p f.content ≡ xs ++ rest
    → length xs ≡ n
    → fill (pre ++ gap) (length pre) n (at k f flags p, r)
      ≡ ok (pre ++ (xs ++ drop n gap)) (at k f flags (p + n), r)
fill-behind k f flags pre gap xs rest n p r can there size =
    fill-file k f flags can (pre ++ gap) (length pre) n p r xs rest there size
    ∙ ap (λ b. ok b (at k f flags (p + n), r)) (overwrite-append pre gap xs)
    ∙ ap (λ m. ok (pre ++ (xs ++ drop m gap)) (at k f flags (p + n), r)) size

pub drop-past :
    (p n : ℕ) (c xs rest : List ℕ) → drop p c ≡ xs ++ rest → length xs ≡ n → drop (p + n) c ≡ rest
drop-past p n c xs rest there size = sym (drop-drop p n c) ∙ rw (there, ← size, drop-append) refl

-- The value that a reader stores.
pub get-u64 :
    {S : Type 0} (pre post : List ℕ) (v size : ℕ) (s : Kcf S × KcfRecord)
    → v < 2 ^ 64
    → length pre + 8 ≤ size
    → get read_u64 (pre ++ le 8 v ++ post) size (length pre) s ≡ ok (v, length pre + 8) s
get-u64 pre post v size s fits room =
    rw (read_u64_lem pre (le 8 v) post size (length-le 8 v) room, value-le 8 v fits)

pub get-u32 :
    {S : Type 0} (pre post : List ℕ) (v size : ℕ) (s : Kcf S × KcfRecord)
    → v < 2 ^ 32
    → length pre + 4 ≤ size
    → get read_u32 (pre ++ le 4 v ++ post) size (length pre) s ≡ ok (v, length pre + 4) s
get-u32 pre post v size s fits room =
    rw (read_u32_lem pre (le 4 v) post size (length-le 4 v) room, value-le 4 v fits)
