-- ===== src/Kcf/Read/CrcField.antt =====
-- The optional field AddedDataCRC32 of a head, as `read_record_header` reads it.
use kcf_old.Base.{ℕ, ◌+◌, ◌^◌, ◌≤◌, ◌<◌, ◌≡◌, refl, ◌∙◌, arith, true, false}
use kcf_old.Base.{List, ◌++◌, append_assoc, length, drop, Bool-cases, inl, inr}
use native.Mathlib.Nat.{add-zero}
use kcf_old.Action.{ok}
use kcf_old.Io.Stdio.{File}
use kcf_old.Bytes.Encoding.{le, length-le}
use kcf_old.Record.{KcfRecord, added_data_crc32_field, flags_crc}
use kcf_old.Record.Layout.{added_data_crc32_bytes}
use kcf_old.Kcf.{Kcf}
use kcf_old.Kcf.Read.{read_added_data_crc32}
use kcf_old.Kcf.Read.Header.{at, fill-behind, get-u32}

module _ (k : Kcf File) (f : File) (fl : ℕ) (can : f.can_read ≡ true) (pre gap rest : List ℕ)
    (p : ℕ) (r : KcfRecord) where
  crc_phase-yes :
      (flags crc : ℕ)
      → flags_crc flags ≡ true
      → crc < 256 ^ added_data_crc32_field flags
      → length pre + 4 ≤ 18
      → drop p f.content ≡ added_data_crc32_bytes flags crc ++ rest
      → read_added_data_crc32 flags (pre ++ gap) (length pre) (at k f fl p, r)
        ≡ ok (length pre + added_data_crc32_field flags) (
          at (record k { added_data_crc32 = crc }) f fl (p + added_data_crc32_field flags),
          record r { added_data_crc32 = crc },
        )
  unfolding read_added_data_crc32
  crc_phase-yes flags crc some_crc fits room there =
      let there' : drop p f.content ≡ le 4 crc ++ rest = there ∙ rw some_crc refl in
      let fits' : crc < 2 ^ 32 = (simp some_crc at fits) in
      rw some_crc (
        rw
          (
            fill-behind k f fl pre gap (le 4 crc) rest 4 p r can there' (length-le 4 crc),
            ← append_assoc,
          )
          (rw (get-u32 pre (drop 4 gap) crc 18 (at k f fl (p + 4), r) fits' room) refl))

  crc_phase-no :
      (flags crc : ℕ)
      → flags_crc flags ≡ false
      → crc < 256 ^ added_data_crc32_field flags
      → read_added_data_crc32 flags (pre ++ gap) (length pre) (at k f fl p, r)
        ≡ ok (length pre + added_data_crc32_field flags) (
          at (record k { added_data_crc32 = crc }) f fl (p + added_data_crc32_field flags),
          record r { added_data_crc32 = crc },
        )
  unfolding read_added_data_crc32
  crc_phase-no flags crc no_crc fits =
      let zero_crc : crc ≡ 0 = omega (arith, (simp no_crc at fits)) in
      rw (no_crc, zero_crc, add-zero (length pre), add-zero p) refl

  -- The phase of AddedDataCRC32, which the archive also keeps.
  pub crc_phase :
      (flags crc : ℕ)
      → crc < 256 ^ added_data_crc32_field flags
      → length pre + 4 ≤ 18
      → drop p f.content ≡ added_data_crc32_bytes flags crc ++ rest
      → read_added_data_crc32 flags (pre ++ gap) (length pre) (at k f fl p, r)
        ≡ ok (length pre + added_data_crc32_field flags) (
          at (record k { added_data_crc32 = crc }) f fl (p + added_data_crc32_field flags),
          record r { added_data_crc32 = crc },
        )
  unfolding read_added_data_crc32
  crc_phase flags crc fits room there = elim (Bool-cases (flags_crc flags)) [
    | inl some_crc ↦ crc_phase-yes flags crc some_crc fits room there
    | inr no_crc ↦ crc_phase-no flags crc no_crc fits
  ]
