-- ===== src/Io/Win32/Seeking.antt =====
-- `_w32_seek` over a regular file.
use kcf_old.Base.{ℕ, ◌+◌, ◌-◌, ◌/◌, ◌%◌, ◌^◌, ◌<◌, ◌≡◌, arith, ltb, leb, if◌then◌else◌, ℤ}
use kcf_old.Base.{pos, negsuc, ◌*◌, to_size, to_int64-small}
use kcf_old.Io.{seek_set}
use kcf_old.Io.Stdio.{File, Whence, fseeko}
use kcf_old.Io.Win32.{w32_seek, no_error, to_long, joined}
use kcf_old.Io.Win32.Regular.{Handle, regular_win32, distance}

-- What `_w32_seek` returns for a position.
abbrev pub reported : ℕ → ℤ
reported p =
    if leb (2 ^ 31) p then (if ltb p (2 ^ 32) then negsuc (2 ^ 32 - 1 - p) else pos p) else pos p

to_long-bits : (x : ℕ) → x < 2 ^ 32 → to_size (to_long x) % 2 ^ 32 ≡ x
to_long-bits x small = ground arith

distance-halves :
    (p : ℕ) → p < 2 ^ 63 → distance (to_long (p % 2 ^ 32)) (to_long (p / 2 ^ 32)) ≡ pos p
distance-halves p small =
    let whole : p / 2 ^ 32 * 2 ^ 32 + p % 2 ^ 32 ≡ p = omega arith in
    rw (to_long-bits (p / 2 ^ 32) (omega arith), to_long-bits (p % 2 ^ 32) (omega arith), whole)
      (to_int64-small p small)

joined-halves :
    (p : ℕ) → p < 2 ^ 63 → joined (p % 2 ^ 32) (to_long (p / 2 ^ 32 % 2 ^ 32)) ≡ reported p
joined-halves p small =
    let whole : (p % 2 ^ 32 + p / 2 ^ 32 % 2 ^ 32 * 2 ^ 32) % 2 ^ 64 ≡ p = omega arith in
    rw (to_long-bits (p / 2 ^ 32 % 2 ^ 32) (omega arith), whole, to_int64-small p small)
      (ground arith)

fseeko-start :
    (f : File) (p : ℕ) → fseeko f (pos p) Whence.seek_set ≡ (pos 0, record f { position = p })
unfolding fseeko
fseeko-start f p = ground arith

-- On a regular file `_w32_seek` from the file's start to a position below 2^63 moves there and
-- returns the position, except for the positions from 2^31 to 2^32 - 1: for these it returns the
-- position less 2^32, which is negative and so means failure to the caller.
pub w32_seek-file :
    (unset : ℕ) (f : File) (e p : ℕ)
    → p < 2 ^ 63
    → w32_seek regular_win32 unset (Handle.opened f e) (pos p) seek_set
      ≡ (reported p, Handle.opened (record f { position = p }) no_error)
unfolding w32_seek
w32_seek-file unset f e p small =
    rw (distance-halves p small, fseeko-start f p, joined-halves p small) (ground arith)
