-- ===== src/ArchiveHeader/RoundTrip.antt =====
-- An archive header survives the way into a record and back.
use kcf_old.Base.{ℕ, ◌^◌, ◌<◌, ◌≡◌, refl, ap, ◌∙◌, arith, true, List, [], some, length}
use kcf_old.Base.{append-nil, drop_all, done}
use kcf_old.Env.{Env}
use kcf_old.Errors.{ok}
use kcf_old.Bytes.Encoding.{le, length-le, value-le}
use kcf_old.Bytes.Writing.{write_u16_lem}
use kcf_old.Bytes.Reading.{read_u16_lem}
use kcf_old.Record.{
  KcfRecord, KcfArchiveHeader, rec_fix, rec_validate, fixed_head_size, archive_header_type,
}
use kcf_old.Record.Fixing.{rec_validate-rec_fix}
use kcf_old.ArchiveHeader.{
  rec_to_archive_header, rec_from_archive_header, header_block, header_of, version_of,
  header_record, stored_version,
}

-- The record of a header, before its size and CRC are fixed.
abbrev pub header_fields : KcfRecord → ℕ → KcfRecord
header_fields r version = record r {
  head_type = archive_header_type;
  head_flags = 0;
  bytes = some (le 2 version);
  data_size = 2;
}

header_block_lem :
    (block : List ℕ) (version : ℕ)
    → length block ≡ 2
    → header_block (some block) version ≡ done (le 2 version)
header_block_lem block version h = rw (
  write_u16_lem [] block 2 version (omega arith) (omega arith),
  drop_all 2 block (omega arith),
  append-nil,
)

pub rec_from_archive_header_lem :
    (env : Env) (t : ℕ) (h : KcfArchiveHeader) (r : KcfRecord) (block : List ℕ)
    → env.malloc t 2 ≡ some block
    → length block ≡ 2
    → rec_from_archive_header env t (some h) r
      ≡ done (ok, rec_fix env (header_fields r h.archive_version))
unfolding rec_from_archive_header
rec_from_archive_header_lem env t h r block given size =
    ap (λ b. header_record env r (header_block b h.archive_version)) given
    ∙ ap (header_record env r) (header_block_lem block h.archive_version size)

-- What `rec_to_archive_header` makes of a valid header record.
header_of-valid :
    (env : Env) (r : KcfRecord) (version : ℕ)
    → version < 2 ^ 16
    → rec_validate env (some r) ≡ true
    → r.head_type ≡ archive_header_type
    → r.head_size ≡ 8
    → r.bytes ≡ some (le 2 version)
    → r.data_size ≡ 2
    → header_of env r ≡ done (ok, some version)
header_of-valid env r version fits valid type size bytes data_size =
    let version_read : version_of (some (le 2 version)) 2 ≡ done (some version) = rw (
      ← append-nil (le 2 version),
      read_u16_lem [] (le 2 version) [] 2 (length-le 2 version) (omega arith),
      value-le 2 version fits,
    ) in
    rw (valid, type, size, bytes, data_size) (ap stored_version version_read)

-- The record of a header, fixed, gives the header back.
pub rec_to_archive_header-fixed :
    (env : Env) (r : KcfRecord) (version : ℕ)
    → version < 2 ^ 16
    → rec_to_archive_header env (some (rec_fix env (header_fields r version))) true
      ≡ done (ok, some version)
unfolding rec_to_archive_header
rec_to_archive_header-fixed env r version fits =
    header_of-valid env (rec_fix env (header_fields r version)) version fits
      (rec_validate-rec_fix env (header_fields r version)) (unfold rec_fix in refl)
      (unfold rec_fix fixed_head_size in refl) (unfold rec_fix in refl) (unfold rec_fix in refl)

-- If malloc gives a block of two bytes, `rec_from_archive_header` makes a record of 8 bytes from
-- which `rec_to_archive_header` takes the same version, for every 16-bit version.
pub rec_to_archive_header-rec_from_archive_header :
    (env : Env) (t : ℕ) (h : KcfArchiveHeader) (r : KcfRecord) (block : List ℕ)
    → env.malloc t 2 ≡ some block
    → length block ≡ 2
    → h.archive_version < 2 ^ 16
    → (r' : KcfRecord) × (rec_from_archive_header env t (some h) r ≡ done (ok, r'))
      × (r'.head_size ≡ 8)
      × (rec_to_archive_header env (some r') true ≡ done (ok, some h.archive_version))
rec_to_archive_header-rec_from_archive_header env t h r block given size fits =
    let r' = rec_fix env (header_fields r h.archive_version) in
    (
      r',
      rec_from_archive_header_lem env t h r block given size,
      (unfold rec_fix fixed_head_size in refl),
      rec_to_archive_header-fixed env r h.archive_version fits,
    )
