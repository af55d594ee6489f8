-- ===== src/Bytes/Writing.antt =====
-- What the writers of kcf/bytepack.c leave in the buffer, and when they fail.
use kcf_old.Base.{ℕ, ◌+◌, ◌%◌, ◌^◌, ◌≤◌, ◌≡◌, arith}
use kcf_old.Base.{List, [], ◌∷◌, ◌++◌, append_assoc, length, drop, length-append, length-drop}
use kcf_old.Base.{drop-drop, set-append, length-set, Bool, true, false, lt→leb_false}
use kcf_old.Base.{if◌then◌else◌}
use kcf_old.Bytes.{Writer, write_u8, write_u16, write_u32, write_u64}
use kcf_old.Bytes.Encoding.{le, length-le, le_two, le_four, le_eight}

-- The writer puts the `k` bytes of the number behind `pre`, over as many bytes of `gap`, and moves
-- the offset behind them.
abbrev pub Writes : ℕ → Writer → Type 0
Writes k w =
    (pre gap : List ℕ) (size v : ℕ)
    → length pre + k ≤ size
    → k ≤ length gap
    → w (pre ++ gap) size (length pre) v
      ≡ (true, (pre ++ le k v) ++ drop k gap, length (pre ++ le k v))

pub write_u8_lem : Writes 1 write_u8
unfolding write_u8 le
write_u8_lem pre [] size v h g = absurd (omega arith)
write_u8_lem pre (x ∷ gap) size v h g =
    rw (lt→leb_false size (length pre) (omega arith), set-append)
      (let e : length (pre ++ ((v % 256) ∷ [])) ≡ length pre + 1 =
          length-append pre ((v % 256) ∷ []) in
        rw (e, append_assoc))

-- Two writes, the second only after the first has succeeded.
abbrev both : Writer → List ℕ → ℕ → ℕ → ℕ → ℕ → Bool × List ℕ × ℕ
both w buf size off low high =
    let (ok, buf', off') = w buf size off low in
    if ok then w buf' size off' high else (false, buf', off')

both_lem :
    (k : ℕ) (w : Writer)
    → Writes k w
    → (pre gap : List ℕ) (size low high : ℕ) → length pre + (k + k) ≤ size
    → k + k ≤ length gap
    → both w (pre ++ gap) size (length pre) low high ≡ (
      true,
      (pre ++ (le k low ++ le k high)) ++ drop (k + k) gap,
      length (pre ++ (le k low ++ le k high)),
    )
both_lem k w lem pre gap size low high h g = rw (lem pre gap size low (omega arith) (omega arith)) (
    rw (
      lem (pre ++ le k low) (drop k gap) size high
          (omega (arith, length-append pre (le k low), length-le k low))
          (omega (arith, length-drop k gap)),
      drop-drop,
      append_assoc pre (le k low) (le k high),
    ))

pub write_u16_lem : Writes 2 write_u16
unfolding write_u16
write_u16_lem pre gap size v h g =
    rw (← le_two v) (both_lem 1 write_u8 write_u8_lem pre gap size _ _ h g)

pub write_u32_lem : Writes 4 write_u32
unfolding write_u32
write_u32_lem pre gap size v h g =
    rw (← le_four v) (both_lem 2 write_u16 write_u16_lem pre gap size _ _ h g)

pub write_u64_lem : Writes 8 write_u64
unfolding write_u64
write_u64_lem pre gap size v h g =
    rw (← le_eight v) (both_lem 4 write_u32 write_u32_lem pre gap size _ _ h g)

-- No writer changes the buffer's length.
abbrev pub KeepsLength : Writer → Type 0
KeepsLength w = (buf : List ℕ) (size off v : ℕ) → length (w buf size off v).1 ≡ length buf

pub write_u8-KeepsLength : KeepsLength write_u8
unfolding write_u8
write_u8-KeepsLength buf size off v = ground (arith, length-set buf off (v % 2 ^ 8))

both-KeepsLength :
    (w : Writer)
    → KeepsLength w
    → (buf : List ℕ) (size off low high : ℕ) → length (both w buf size off low high).1 ≡ length buf
both-KeepsLength w keep buf size off low high =
    ground
      (arith, keep buf size off low, keep (w buf size off low).1 size (w buf size off low).2 high)

pub write_u16-KeepsLength : KeepsLength write_u16
unfolding write_u16
write_u16-KeepsLength buf size off v =
    both-KeepsLength write_u8 write_u8-KeepsLength buf size off _ _

pub write_u32-KeepsLength : KeepsLength write_u32
unfolding write_u32
write_u32-KeepsLength buf size off v =
    both-KeepsLength write_u16 write_u16-KeepsLength buf size off _ _

pub write_u64-KeepsLength : KeepsLength write_u64
unfolding write_u64
write_u64-KeepsLength buf size off v =
    both-KeepsLength write_u32 write_u32-KeepsLength buf size off _ _
