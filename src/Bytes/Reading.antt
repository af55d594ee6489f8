-- ===== src/Bytes/Reading.antt =====
-- What the readers of kcf/bytepack.c return, and when they fail.
use kcf_old.Base.{ℕ, ◌+◌, ◌*◌, ◌^◌, ◌≤◌, ◌<◌, ◌≡◌, refl, sym, ◌∙◌, arith}
use kcf_old.Base.{List, [], ◌∷◌, ◌++◌, append_assoc, length, length-append, get_elem?-append}
use kcf_old.Base.{Bool, true, false, ◌&&◌, Option, none, some, leb, lt→leb_false, le→leb}
use kcf_old.Base.{if◌then◌else◌, take, drop, length-take, length-drop, take-append-drop}
use native.Mathlib.Decide.{dec_le}
use native.Mathlib.Nat.{add-zero, add_assoc}
use mathlib.Core.Path.{subst}
use kcf_old.Bytes.{Reader, join, read_u8, read_u16, read_u32, read_u64}
use kcf_old.Bytes.Encoding.{value, value-append}

-- The reader takes the `k` bytes behind `pre`, and moves the offset behind them.
abbrev pub Reads : ℕ → Reader → Type 0
Reads k r =
    (pre bytes post : List ℕ) (size : ℕ)
    → length bytes ≡ k
    → length pre + k ≤ size
    → r (pre ++ bytes ++ post) size (length pre) ≡ (true, length pre + k, some (value bytes))

pub read_u8_lem : Reads 1 read_u8
unfolding read_u8 value
read_u8_lem pre [] post size e h = absurd (omega arith)
read_u8_lem pre (x ∷ []) post size e h =
    rw (lt→leb_false size (length pre) (omega arith), append_assoc, get_elem?-append, add-zero)
read_u8_lem pre (x ∷ y ∷ ys) post size e h = absurd (omega arith)

-- Two reads, one after the other.
abbrev both : ℕ → Reader → Reader
both k r buf size off =
    let (low_read, off', low) = r buf size off in
    let (high_read, off'', high) = r buf size off' in
    (low_read && high_read, off'', join (8 * k) low high)

module _ (k : ℕ) (r : Reader) (lem : Reads k r) where
  both_halves :
      (pre xs ys post : List ℕ) (size : ℕ)
      → length xs ≡ k
      → length ys ≡ k
      → length pre + (k + k) ≤ size
      → both k r (pre ++ (xs ++ ys) ++ post) size (length pre)
        ≡ (true, length pre + k + k, some (value xs + value ys * 2 ^ (8 * k)))
  both_halves pre xs ys post size ex ey h =
      let first : r (pre ++ (xs ++ ys) ++ post) size (length pre)
          ≡ (true, length pre + k, some (value xs)) =
        rw (← append_assoc pre xs ys, append_assoc (pre ++ xs) ys post)
          (lem pre xs (ys ++ post) size ex (omega arith)) in
      let second : r (pre ++ (xs ++ ys) ++ post) size (length pre + k)
          ≡ (true, length pre + k + k, some (value ys)) =
        let e : length (pre ++ xs) ≡ length pre + k = omega (arith, length-append pre xs) in
        rw (← e, ← append_assoc pre xs ys) (lem (pre ++ xs) ys post size ey (omega arith)) in
      rw (first, second)

  both_lem : 2 ^ (8 * k) ≡ 256 ^ k → Reads (k + k) (both k r)
  both_lem base pre bytes post size e h =
      let p : bytes ≡ take k bytes ++ drop k bytes = sym (take-append-drop k bytes) in
      let ex : length (take k bytes) ≡ k = omega (arith, length-take k bytes) in
      let ey : length (drop k bytes) ≡ k = omega (arith, length-drop k bytes) in
      subst
        (λ bs.
          both k r (pre ++ bs ++ post) size (length pre)
          ≡ (true, length pre + (k + k), some (value bs)))
        (sym p)
        (both_halves pre (take k bytes) (drop k bytes) post size ex ey h
          ∙ rw (value-append k (take k bytes) (drop k bytes) ex, base, add_assoc))

pub read_u16_lem : Reads 2 read_u16
unfolding read_u16
read_u16_lem = both_lem 1 read_u8 read_u8_lem refl

pub read_u32_lem : Reads 4 read_u32
unfolding read_u32
read_u32_lem = both_lem 2 read_u16 read_u16_lem refl

pub read_u64_lem : Reads 8 read_u64
unfolding read_u64
read_u64_lem = both_lem 4 read_u32 read_u32_lem refl

-- The same at any offset that leaves `k` bytes.
abbrev ReadsAt : ℕ → Reader → Type 0
ReadsAt k r =
    (buf : List ℕ) (off : ℕ)
    → off + k ≤ length buf
    → r buf (length buf) off ≡ (true, off + k, some (value (take k (drop off buf))))

Reads→At : (k : ℕ) (r : Reader) → Reads k r → ReadsAt k r
Reads→At k r lem buf off h =
    let split : take off buf ++ take k (drop off buf) ++ drop k (drop off buf) ≡ buf =
      rw (append_assoc, take-append-drop k (drop off buf), take-append-drop off buf) refl in
    let e : length (take off buf) ≡ off = omega (arith, length-take off buf) in
    let run =
      lem (take off buf) (take k (drop off buf)) (drop k (drop off buf)) (length buf)
        (omega (arith, length-take k (drop off buf), length-drop off buf)) (omega arith) in
    rw (split, e) at run

-- Too few bytes are left: the value stays indeterminate, and the offset ends at the buffer's end.
abbrev FailsShort : ℕ → Reader → Type 0
FailsShort k r =
    (buf : List ℕ) (off : ℕ)
    → off ≤ length buf
    → length buf < off + k
    → r buf (length buf) off ≡ (false, length buf, none)

read_u8-FailsShort : FailsShort 1 read_u8
unfolding read_u8
read_u8-FailsShort buf off h s =
    let e : off ≡ length buf = omega arith in rw (le→leb (length buf) off (omega arith), e)

join-none : (k : ℕ) (low : Option ℕ) → join k low none ≡ none
join-none k none = refl
join-none k (some low) = refl

and-false : (b : Bool) → (b && false) ≡ false
and-false true = refl
and-false false = refl

both-FailsShort :
    (k : ℕ) (r : Reader) → 1 ≤ k → ReadsAt k r → FailsShort k r → FailsShort (k + k) (both k r)
both-FailsShort k r one at short buf off h s = elim (dec_le (off + k) (length buf)) [
  | yes fits ↦ rw (at buf off fits, short buf (off + k) fits (omega arith))
  | no short_of ↦
      rw (short buf off h (omega arith), short buf (length buf) (omega arith) (omega arith))
]

-- Every outcome of a reader on a whole buffer.
abbrev pub ReadsAll : ℕ → Reader → Type 0
ReadsAll k r =
    (buf : List ℕ) (off : ℕ)
    → off ≤ length buf
    → r buf (length buf) off ≡ (
        if leb (off + k) (length buf)
        then (true, off + k, some (value (take k (drop off buf))))
        else (false, length buf, none))

all_of : (k : ℕ) (r : Reader) → ReadsAt k r → FailsShort k r → ReadsAll k r
all_of k r at short buf off h = elim (dec_le (off + k) (length buf)) [
  | yes fits ↦ rw (at buf off fits, le→leb _ _ fits)
  | no short_of ↦
      rw (short buf off h (omega arith), lt→leb_false (off + k) (length buf) (omega arith))
]

read_u16-FailsShort : FailsShort 2 read_u16
unfolding read_u16
read_u16-FailsShort =
    both-FailsShort 1 read_u8 (omega arith) (Reads→At 1 read_u8 read_u8_lem) read_u8-FailsShort

read_u32-FailsShort : FailsShort 4 read_u32
unfolding read_u32
read_u32-FailsShort =
    both-FailsShort 2 read_u16 (omega arith) (Reads→At 2 read_u16 read_u16_lem) read_u16-FailsShort

read_u64-FailsShort : FailsShort 8 read_u64
unfolding read_u64
read_u64-FailsShort =
    both-FailsShort 4 read_u32 (omega arith) (Reads→At 4 read_u32 read_u32_lem) read_u32-FailsShort

pub read_u16_all : ReadsAll 2 read_u16
read_u16_all = all_of 2 read_u16 (Reads→At 2 read_u16 read_u16_lem) read_u16-FailsShort

-- On any buffer and at any offset up to its end, `read_u64` reads the little-endian number in the
-- next eight bytes and moves past them if eight bytes are left; otherwise it returns false,
-- stores an indeterminate value and moves the offset to the buffer's end.
pub read_u64_all :
    (buf : List ℕ) (off : ℕ)
    → off ≤ length buf
    → read_u64 buf (length buf) off ≡ (
        if leb (off + 8) (length buf)
        then (true, off + 8, some (value (take 8 (drop off buf))))
        else (false, length buf, none))
read_u64_all = all_of 8 read_u64 (Reads→At 8 read_u64 read_u64_lem) read_u64-FailsShort
