-- ===== src/ArchiveHeader.antt =====
-- kcf/archhdr.c: the archive header and the record that holds it.
pub mod RoundTrip
use kcf_old.Base.{ℕ, ◌+◌, Bool, true, false, not, ◌||◌, Option, none, some, List, length, ltb, ◌==◌}
use kcf_old.Base.{if◌then◌else◌, Outcome, done, undefined}
use kcf_old.Env.{Env}
use kcf_old.Errors.{KcfError, ok, invalid_parameter, invalid_data}
use kcf_old.Bytes.{write_u16, read_u16}
use kcf_old.Record.{KcfRecord, KcfArchiveHeader, rec_validate, rec_fix, archive_header_type}

-- What `ReadU16LE(Record->Data, Record->DataSize, NULL, &Header->ArchiveVersion)` stores; `none` is
-- an indeterminate value. A null Data fails the reader's assertion.
abbrev version_of : Option (List ℕ) → ℕ → Outcome (Option ℕ)
version_of none size = undefined
version_of (some bytes) size = let (success, off, v) = read_u16 bytes size 0 in done v

abbrev stored_version : Outcome (Option ℕ) → Outcome (KcfError × Option ℕ)
stored_version (done v) = done (ok, v)
stored_version undefined = undefined

abbrev header_of : Env → KcfRecord → Outcome (KcfError × Option ℕ)
header_of env r =
    if not (rec_validate env (some r))
    then done (invalid_data, none)
    else if not (r.head_type == archive_header_type)
    then done (invalid_data, none)
    else if ltb r.head_size 8
    then done (invalid_data, none)
    else stored_version (version_of r.bytes r.data_size)

-- `rec_to_archive_header`: the error, and the version that it stores in the header: with an error
-- nothing is stored. `none` is a null pointer to the record; `header` says that the pointer to the
-- header is not null.
unfoldable pub rec_to_archive_header : Env → Option KcfRecord → Bool → Outcome (KcfError × Option ℕ)
rec_to_archive_header env none header = done (invalid_parameter, none)
rec_to_archive_header env (some r) false = done (invalid_parameter, none)
rec_to_archive_header env (some r) true = header_of env r

-- The block of Data: malloc's answer is not tested, and the writer asserts that it is not null.
abbrev header_block : Option (List ℕ) → ℕ → Outcome (List ℕ)
header_block none version = undefined
header_block (some block) version =
    let (success, buf, off) = write_u16 block 2 0 version in done buf

abbrev header_record : Env → KcfRecord → Outcome (List ℕ) → Outcome (KcfError × KcfRecord)
header_record env r undefined = undefined
header_record env r (done buf) = done (
  ok,
  rec_fix env (record r {
    head_type = archive_header_type;
    head_flags = 0;
    bytes = some buf;
    data_size = 2;
  }),
)

-- `rec_from_archive_header` on a record `r` that is not null; `t` is the number of the call of malloc.
unfoldable pub rec_from_archive_header :
    Env → ℕ → Option KcfArchiveHeader → KcfRecord → Outcome (KcfError × KcfRecord)
rec_from_archive_header env t none r = done (invalid_parameter, r)
rec_from_archive_header env t (some h) r =
    header_record env r (header_block (env.malloc t 2) h.archive_version)

-- `ahdr_clear`
unfoldable pub ahdr_clear : KcfArchiveHeader → KcfArchiveHeader
ahdr_clear h = record { archive_version = 0 }
