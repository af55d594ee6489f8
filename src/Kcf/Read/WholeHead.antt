-- ===== src/Kcf/Read/WholeHead.antt =====
-- `read_record_header` on a file that holds the head of a record.
use kcf_old.Base.{ℕ, ◌+◌, ◌^◌, ◌≤◌, ◌<◌, ◌≡◌, refl, sym, ap, ◌∙◌, arith, true}
use kcf_old.Base.{List, ◌++◌, length, length-append, replicate, drop, overwrite}
use kcf_old.Action.{Action, ok, bind, bind_assoc, beside, pure, ◌>>=◌, ◌>>◌}
use kcf_old.Io.Stdio.{File}
use kcf_old.Bytes.Encoding.{le}
use kcf_old.Record.{KcfRecord, added_size_field, added_data_crc32_field, flags_size}
use kcf_old.Record.Layout.{
  added_size_bytes, added_data_crc32_bytes, length-added_size_bytes, head_length,
}
use kcf_old.Kcf.{Kcf, ParserState, set_parser_state}
use kcf_old.Kcf.Read.{fill_if, read_added_size, read_added_data_crc32, read_record_header}
use kcf_old.Kcf.Read.Header.{
  at, fixed_bytes, with_fixed, fill-file, read_fixed_fields-file, drop-past,
}
use kcf_old.Kcf.Read.SizeField.{size_phase, size_phase_lem}
use kcf_old.Kcf.Read.CrcField.{crc_phase}

-- The fields of the head fit where the flags put them.
pub record FieldsFit (r : KcfRecord) : Type 0 where
  pub crc_u16 : r.head_crc < 2 ^ 16
  pub type_u8 : r.head_type < 2 ^ 8
  pub flags_u8 : r.head_flags < 2 ^ 8
  pub size_u16 : r.head_size < 2 ^ 16
  pub added_size_fits : r.added_size < 256 ^ added_size_field r.head_flags
  pub added_data_crc32_fits : r.added_data_crc32 < 256 ^ added_data_crc32_field r.head_flags

-- What the head of `r` sets in a record.
abbrev pub with_head : KcfRecord → KcfRecord → KcfRecord
with_head r old = record (with_fixed r old) {
  added_size = r.added_size;
  added_data_crc32 = r.added_data_crc32;
}

pub length-fixed_bytes : (r : KcfRecord) → length (fixed_bytes r) ≡ 6
unfolding le
length-fixed_bytes r = refl

first_bytes :
    (r : KcfRecord) → overwrite (replicate 18 0) 0 (fixed_bytes r) ≡ fixed_bytes r ++ replicate 12 0
unfolding le
first_bytes r = refl

size_length-le : (flags : ℕ) → added_size_field flags ≤ 8
size_length-le flags = ground arith

-- What follows the reads of AddedSize.
abbrev after_size : {S : Type 0} → ℕ → List ℕ × ℕ → Action (Kcf S × KcfRecord) ℕ
after_size flags x = do
  header_size ← read_added_data_crc32 flags (x.0) (x.1)
  beside (set_parser_state ParserState.read_record_data)
  pure header_size

module _ (k : Kcf File) (f : File) (fl : ℕ) (can : f.can_read ≡ true) (rest : List ℕ) (p : ℕ)
    (r old : KcfRecord) (good : FieldsFit r) where
  abbrev size_bytes : List ℕ
  size_bytes = added_size_bytes r.head_flags r.added_size

  abbrev size_length : ℕ
  size_length = added_size_field r.head_flags

  abbrev with_size : KcfRecord
  with_size = record (with_fixed r old) { added_size = r.added_size }

  size_phase-head :
      drop p f.content ≡ size_bytes ++ rest
      → size_phase r.head_flags (fixed_bytes r ++ replicate 12 0) 6 (at k f fl p, with_fixed r old)
        ≡ ok
            (fixed_bytes r ++ size_bytes ++ drop size_length (replicate 12 0), 6 + size_length)
            (at k f fl (p + size_length), with_size)
  unfolding le
  size_phase-head there =
      size_phase_lem k f fl can (fixed_bytes r) (replicate 12 0) rest p (with_fixed r old)
        r.head_flags r.added_size good.flags_u8 good.added_size_fits (omega arith) there

  place : length (fixed_bytes r ++ size_bytes) ≡ 6 + size_length
  place =
      length-append (fixed_bytes r) size_bytes
      ∙ rw (length-fixed_bytes r, length-added_size_bytes r.head_flags r.added_size) refl

  crc_phase-head :
      drop p f.content ≡ added_data_crc32_bytes r.head_flags r.added_data_crc32 ++ rest
      → read_added_data_crc32 r.head_flags
          (fixed_bytes r ++ size_bytes ++ drop size_length (replicate 12 0))
          (6 + size_length)
          (at k f fl p, with_size)
        ≡ ok (6 + size_length + added_data_crc32_field r.head_flags) (
          at
              (record k { added_data_crc32 = r.added_data_crc32 })
              f
              fl
              (p + added_data_crc32_field r.head_flags),
          with_head r old,
        )
  crc_phase-head there = rw (← place) (
      crc_phase k f fl can (fixed_bytes r ++ size_bytes) (drop size_length (replicate 12 0)) rest p
        with_size r.head_flags r.added_data_crc32 good.added_data_crc32_fits
        (omega (arith, place, size_length-le r.head_flags)) there)

module _ (k : Kcf File) (f : File) (fl : ℕ) (can : f.can_read ≡ true) (rest : List ℕ) (p : ℕ)
    (r old : KcfRecord) (good : FieldsFit r) where
  pub read_record_header-file :
      drop p f.content
        ≡ fixed_bytes r
          ++ (added_size_bytes r.head_flags r.added_size
              ++ (added_data_crc32_bytes r.head_flags r.added_data_crc32 ++ rest))
      → read_record_header (at k f fl p, old)
        ≡ ok (head_length r.head_flags) (
          at
              (record k {
                added_data_crc32 = r.added_data_crc32;
                parser_state = ParserState.read_record_data;
              })
              f
              fl
              (p + head_length r.head_flags),
          with_head r old,
        )
  unfolding read_record_header
  read_record_header-file there =
      let after = drop-past p 6 f.content (fixed_bytes r) _ there (length-fixed_bytes r) in
      let after' =
        drop-past (p + 6) (added_size_field r.head_flags) f.content
          (added_size_bytes r.head_flags r.added_size) _ after
          (length-added_size_bytes r.head_flags r.added_size) in
      let far : p + 6 + added_size_field r.head_flags + added_data_crc32_field r.head_flags
          ≡ p + head_length r.head_flags =
        omega arith in
      rw
        (
          fill-file k f fl can (replicate 18 0) 0 6 p old (fixed_bytes r) _ there
              (length-fixed_bytes r),
          first_bytes r,
          read_fixed_fields-file (at k f fl (p + 6)) r old (replicate 12 0) good.crc_u16
              good.type_u8 good.flags_u8 good.size_u16,
        )
        (sym (
            bind_assoc
              (fill_if (flags_size r.head_flags) (fixed_bytes r ++ replicate 12 0) 6 4
                (at k f fl (p + 6), with_fixed r old))
              (λ b. read_added_size r.head_flags b 6) (after_size r.head_flags))
          ∙ ap (λ x. bind x (after_size r.head_flags))
              (size_phase-head k f fl can _ (p + 6) r old good after)
          ∙ rw
              (
                crc_phase-head k f fl can rest (p + 6 + added_size_field r.head_flags) r old good
                    after',
                far,
              )
              refl)
