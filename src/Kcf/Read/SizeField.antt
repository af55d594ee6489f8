-- ===== src/Kcf/Read/SizeField.antt =====
-- The optional field AddedSize of a head, as `read_record_header` reads it.
use kcf_old.Base.{ℕ, ◌+◌, ◌/◌, ◌%◌, ◌^◌, ◌≤◌, ◌<◌, ◌≡◌, refl, sym, ap, ◌∙◌, arith, true, false}
use kcf_old.Base.{
  List, ◌++◌, append_assoc, append-nil, length, drop, drop-drop, length-append, Bool-cases, inl,
  inr,
}
use native.Mathlib.Nat.{add-zero}
use kcf_old.Action.{Action, ok, bind, bind_assoc, pure, ◌>>=◌, ◌>>◌}
use kcf_old.Io.Stdio.{File}
use kcf_old.Bytes.{read_u64}
use kcf_old.Bytes.Encoding.{le, length-le, le_eight}
use kcf_old.Record.{KcfRecord, added_size_field, flags_size, flags_size_4, flags_size_8}
use kcf_old.Record.Layout.{not_both, added_size_bytes}
use kcf_old.Kcf.{Kcf}
use kcf_old.Kcf.Read.{fill, fill_if, get, set_record, read_added_size}
use kcf_old.Kcf.Read.Header.{at, fill-behind, drop-past, get-u64, get-u32, flags_size-or}

-- What follows the reads of an AddedSize of 8 bytes.
abbrev take_u64 : {S : Type 0} → List ℕ → ℕ → Action (Kcf S × KcfRecord) (List ℕ × ℕ)
take_u64 buf off = do
  (size, off') ← get read_u64 buf 14 off
  set_record (λ r. record r { added_size = size })
  pure (buf, off')

-- The reads of AddedSize, from the first `if` on.
abbrev pub size_phase : {S : Type 0} → ℕ → List ℕ → ℕ → Action (Kcf S × KcfRecord) (List ℕ × ℕ)
size_phase flags buf off = fill_if (flags_size flags) buf off 4 >>= λ b. read_added_size flags b off

-- The second half of an AddedSize of 8 bytes, behind the first.
fill-high :
    (k : Kcf File) (f : File) (fl : ℕ) (pre gap rest : List ℕ) (v p : ℕ) (r : KcfRecord)
    → f.can_read ≡ true
    → drop p f.content ≡ le 8 v ++ rest
    → (fill (pre ++ gap) (length pre) 4 >>= λ b. fill b (length pre + 4) 4) (at k f fl p, r)
      ≡ ok (pre ++ le 8 v ++ drop 8 gap) (at k f fl (p + 8), r)
fill-high k f fl pre gap rest v p r can there =
    let low = le 4 (v % 2 ^ 32) in
    let high = le 4 (v / 2 ^ 32 % 2 ^ 32) in
    let four : length low ≡ 4 = length-le 4 (v % 2 ^ 32) in
    let halves : drop p f.content ≡ low ++ (high ++ rest) =
      there ∙ rw (← le_eight v, append_assoc) refl in
    let after = drop-past p 4 f.content low (high ++ rest) halves four in
    let second =
      fill-behind k f fl (pre ++ low) (drop 4 gap) high rest 4 (p + 4) r can after
        (length-le 4 (v / 2 ^ 32 % 2 ^ 32)) in
    let place : length (pre ++ low) ≡ length pre + 4 =
      length-append pre low ∙ ap (λ n. length pre + n) four in
    let whole : pre ++ low ++ (high ++ drop 4 (drop 4 gap)) ≡ pre ++ le 8 v ++ drop 8 gap =
      rw (drop-drop, ← le_eight v, append_assoc, append_assoc, append_assoc) refl in
    let far : p + 4 + 4 ≡ p + 8 = omega arith in
    ap (λ x. bind x (λ b. fill b (length pre + 4) 4))
      (fill-behind k f fl pre gap low (high ++ rest) 4 p r can halves four)
    ∙ ap (λ b. fill b (length pre + 4) 4 (at k f fl (p + 4), r))
        (sym (append_assoc pre low (drop 4 gap)))
    ∙ ap (λ n. fill (pre ++ low ++ drop 4 gap) n 4 (at k f fl (p + 4), r)) (sym place)
    ∙ second
    ∙ ap (λ b. ok b (at k f fl (p + 4 + 4), r)) whole
    ∙ ap (λ n. ok (pre ++ le 8 v ++ drop 8 gap) (at k f fl n, r)) far

module _ (k : Kcf File) (f : File) (fl : ℕ) (can : f.can_read ≡ true) (pre gap rest : List ℕ)
    (p : ℕ) (r : KcfRecord) where
  -- The phase of AddedSize reads `v`, in as many bytes as the flags say.
  abbrev pub IsSizePhase : ℕ → ℕ → Type 0
  IsSizePhase flags v =
      size_phase flags (pre ++ gap) (length pre) (at k f fl p, record r { added_size = 0 })
      ≡ ok
          (
            pre ++ added_size_bytes flags v ++ drop (added_size_field flags) gap,
            length pre + added_size_field flags,
          )
          (at k f fl (p + added_size_field flags), record r { added_size = v })

  size_phase-8 :
      (flags v : ℕ)
      → flags_size flags ≡ true
      → flags_size_8 flags ≡ true
      → v < 2 ^ 64
      → length pre + 8 ≤ 14
      → drop p f.content ≡ le 8 v ++ rest
      → size_phase flags (pre ++ gap) (length pre) (at k f fl p, record r { added_size = 0 })
        ≡ ok
            (pre ++ le 8 v ++ drop 8 gap, length pre + 8)
            (at k f fl (p + 8), record r { added_size = v })
  unfolding read_added_size
  size_phase-8 flags v some_size eight fits room there =
      rw (some_size, eight)
        (sym (
            bind_assoc (fill (pre ++ gap) (length pre) 4 (at k f fl p, record r { added_size = 0 }))
              (λ b. fill b (length pre + 4) 4) (λ b. take_u64 b (length pre)))
          ∙ rw (fill-high k f fl pre gap rest v p (record r { added_size = 0 }) can there) (
              rw
                (get-u64 pre (drop 8 gap) v 14 (at k f fl (p + 8), record r { added_size = 0 }) fits
                  room)
                refl))

  size_phase-4 :
      (flags v : ℕ)
      → flags_size flags ≡ true
      → flags_size_8 flags ≡ false
      → flags_size_4 flags ≡ true
      → v < 2 ^ 32
      → length pre + 4 ≤ 14
      → drop p f.content ≡ le 4 v ++ rest
      → size_phase flags (pre ++ gap) (length pre) (at k f fl p, record r { added_size = 0 })
        ≡ ok
            (pre ++ le 4 v ++ drop 4 gap, length pre + 4)
            (at k f fl (p + 4), record r { added_size = v })
  unfolding read_added_size
  size_phase-4 flags v some_size eight four fits room there =
      rw (some_size, eight, four)
        (rw
          (
            fill-behind k f fl pre gap (le 4 v) rest 4 p (record r { added_size = 0 }) can there
                (length-le 4 v),
            ← append_assoc,
          )
          (rw
            (get-u32 pre (drop 4 gap) v 14 (at k f fl (p + 4), record r { added_size = 0 }) fits
              room)
            refl))

  size_phase-none :
      (flags : ℕ)
      → flags_size flags ≡ false
      → flags_size_8 flags ≡ false
      → flags_size_4 flags ≡ false
      → size_phase flags (pre ++ gap) (length pre) (at k f fl p, record r { added_size = 0 })
        ≡ ok (pre ++ gap, length pre) (at k f fl p, record r { added_size = 0 })
  unfolding read_added_size
  size_phase-none flags none eight four = rw (none, eight, four) refl

  IsSizePhase-eight :
      (flags v : ℕ)
      → flags < 2 ^ 8
      → flags_size_8 flags ≡ true
      → v < 256 ^ added_size_field flags
      → length pre + 8 ≤ 14
      → drop p f.content ≡ added_size_bytes flags v ++ rest
      → IsSizePhase flags v
  IsSizePhase-eight flags v byte eight fits room there =
      let four : flags_size_4 flags ≡ false = not_both flags eight in
      let some_size : flags_size flags ≡ true = flags_size-or flags byte ∙ rw eight refl in
      let there' : drop p f.content ≡ le 8 v ++ rest = there ∙ rw eight refl in
      let fits' : v < 2 ^ 64 = (simp (four, eight) at fits) in
      rw (four, eight) (size_phase-8 flags v some_size eight fits' room there')

  IsSizePhase-four :
      (flags v : ℕ)
      → flags < 2 ^ 8
      → flags_size_8 flags ≡ false
      → flags_size_4 flags ≡ true
      → v < 256 ^ added_size_field flags
      → length pre + 8 ≤ 14
      → drop p f.content ≡ added_size_bytes flags v ++ rest
      → IsSizePhase flags v
  IsSizePhase-four flags v byte eight four fits room there =
      let some_size : flags_size flags ≡ true = flags_size-or flags byte ∙ rw (eight, four) refl in
      let there' : drop p f.content ≡ le 4 v ++ rest = there ∙ rw (eight, four) refl in
      let fits' : v < 2 ^ 32 = (simp four at fits) in
      rw (eight, four) (size_phase-4 flags v some_size eight four fits' (omega arith) there')

  IsSizePhase-neither :
      (flags v : ℕ)
      → flags < 2 ^ 8
      → flags_size_8 flags ≡ false
      → flags_size_4 flags ≡ false
      → v < 256 ^ added_size_field flags
      → IsSizePhase flags v
  IsSizePhase-neither flags v byte eight four fits =
      let some_size : flags_size flags ≡ false = flags_size-or flags byte ∙ rw (eight, four) refl in
      let zero_size : v ≡ 0 = omega (arith, (simp (four, eight) at fits)) in
      rw (eight, four, zero_size, append-nil pre, add-zero (length pre), add-zero p)
        (size_phase-none flags some_size eight four)

  -- The phase of AddedSize.
  pub size_phase_lem :
      (flags v : ℕ)
      → flags < 2 ^ 8
      → v < 256 ^ added_size_field flags
      → length pre + 8 ≤ 14
      → drop p f.content ≡ added_size_bytes flags v ++ rest
      → IsSizePhase flags v
  size_phase_lem flags v byte fits room there = elim (Bool-cases (flags_size_8 flags)) [
    | inl eight ↦ IsSizePhase-eight flags v byte eight fits room there
    | inr small ↦ elim (Bool-cases (flags_size_4 flags)) [
      | inl four ↦ IsSizePhase-four flags v byte small four fits room there
      | inr neither ↦ IsSizePhase-neither flags v byte small neither fits
    ]
  ]
