-- ===== src/Kcf/RoundTrip/Header.antt =====
-- `KCF_write_archive_header`, and reading the header back.
use kcf_old.Base.{
  ℕ, ◌+◌, ◌^◌, ◌<◌, ◌≡◌, refl, sym, ap, ◌∙◌, arith, true, false, List, [], ◌++◌, length, append-nil,
  length-append, drop-append, drop, some, pos, Option, done,
}
use kcf_old.Env.{Env, AlwaysAllocates}
use kcf_old.Errors.{KcfError}
use kcf_old.Action.{Action, ok, ◌>>=◌, ◌>>◌, with_local, from_outcome}
use kcf_old.Io.{seek_set}
use kcf_old.Io.Stdio.{File}
use kcf_old.Io.OnFile.{ended, io_seek-file, written-ended}
use kcf_old.Bytes.Encoding.{length-le}
use kcf_old.Record.{KcfRecord, rec_fix, flags_size, flags_crc}
use kcf_old.Record.Layout.{encode, payload, head_length}
use kcf_old.Record.Fixing.{rec_fix-idempotent}
use kcf_old.ArchiveHeader.{rec_to_archive_header}
use kcf_old.ArchiveHeader.RoundTrip.{
  header_fields, rec_from_archive_header_lem, rec_to_archive_header-fixed,
}
use kcf_old.Kcf.{Kcf, ParserState, blank_record, stream_seek}
use kcf_old.Kcf.Write.{kcf_write_archive_header}
use kcf_old.Kcf.Write.OnFile.{over, kcf_write_record-file, fixed_flags}
use kcf_old.Kcf.Read.{kcf_read_record}
use kcf_old.Kcf.Read.Header.{at}
use kcf_old.Kcf.Read.RoundTrip.{IsReadable, after_record, kcf_read_record-encode}
use kcf_old.Kcf.Archive.{kcf_start_reading}
use kcf_old.Kcf.RoundTrip.{kcf_start_reading-file, fixed-IsReadable}

-- What a client does to read the header that begins at `p`: the error of `rec_to_archive_header`
-- and the version.
abbrev pub read_archive_header : {S : Type 0} → Env → ℕ → Action (Kcf S) (KcfError × Option ℕ)
read_archive_header env p =
    kcf_start_reading env
    >> (stream_seek (pos p) seek_set >>= λ ret.
        with_local blank_record (kcf_read_record env true) >>= λ (u, r).
        from_outcome (rec_to_archive_header env (some r) true))

-- The record that is written: `rec_from_archive_header` and `kcf_write_record` both fix it.
abbrev header_once : Env → KcfRecord
header_once env = rec_fix env (header_fields blank_record 1)

abbrev pub header : Env → KcfRecord
header env = rec_fix env (header_once env)

header_full : (env : Env) → length (payload (header_once env).bytes) ≡ (header_once env).data_size
unfolding rec_fix
header_full env = length-le 2 1

header_fits :
    (env : Env) → head_length (header_once env).head_flags + (header_once env).data_size < 2 ^ 16
unfolding rec_fix
header_fits env = omega arith

header-IsReadable : (env : Env) → IsReadable (header env)
header-IsReadable env =
    fixed-IsReadable env (header_once env) (header_full env) (header_fits env)
      (unfold rec_fix in omega arith) (unfold rec_fix in omega arith)
      (unfold rec_fix in omega arith) (unfold rec_fix in omega arith)

header_flags : (env : Env) → (header_once env).head_flags ≡ 0
unfolding rec_fix
header_flags env = refl

-- What the reader gives is the record itself.
header_read :
    (env : Env)
    → record (header env) {
      bytes = some (payload (header env).bytes);
      data_size = length (payload (header env).bytes);
    }
      ≡ header env
unfolding rec_fix
header_read env = rw (length-le 2 1) refl

header_version :
    (env : Env) → rec_to_archive_header env (some (header env)) true ≡ done (KcfError.ok, some 1)
header_version env =
    ap (λ r. rec_to_archive_header env (some r) true)
      (rec_fix-idempotent env (header_fields blank_record 1))
    ∙ rec_to_archive_header-fixed env blank_record 1 (omega arith)

module _ (env : Env) (alloc : AlwaysAllocates env) (k : Kcf File) (f : File) (fl : ℕ)
    (pre : List ℕ) where
  -- The archive over the file with the header behind `pre`.
  abbrev pub with_header : Kcf File
  with_header =
      over
        (record k {
          parser_state = ParserState.write_record;
          record_offset = length pre;
          has_added_size = flags_size (header_once env).head_flags;
          has_added_data_crc32 = flags_crc (header_once env).head_flags;
          mallocs = k.mallocs + 1 + 1;
        })
        (ended f (pre ++ encode (header env))) fl

  kcf_write_archive_header-file :
      f.can_write ≡ true
      → kcf_write_archive_header env
          (over (record k { parser_state = ParserState.write_record }) (ended f pre) fl)
        ≡ ok tt with_header
  unfolding kcf_write_archive_header
  kcf_write_archive_header-file can =
      let (two, got2, room2) = alloc k.mallocs 2 in
      let (block, got, room) = alloc (k.mallocs + 1) (header env).head_size in
      let none_added : flags_size (header_once env).head_flags ≡ false =
        ap flags_size (header_flags env) in
      rw
        (
          rec_from_archive_header_lem env k.mallocs (record { archive_version = 1 }) blank_record
              two got2 room2,
          kcf_write_record-file (record k { mallocs = k.mallocs + 1 }) (ended f pre) fl can
              (omega arith) env (header_once env) block (header_full env) (header_fits env) got
              room,
          none_added,
          written-ended f pre (encode (header env)),
        )
        refl

  -- `kcf_write_archive_header` followed by `kcf_start_reading`, seeking back, `kcf_read_record`
  -- and `rec_to_archive_header` gives KCF_ERROR_OK and version 1, and the archive ends behind the
  -- header, at the file's end, ready for a record. Conditions: the archive is ready for a record,
  -- the file can be read and written and is positioned at its end, and malloc never fails.
  pub read_archive_header-write :
      f.can_write ≡ true
      → f.can_read ≡ true
      → (k' : Kcf File) × ((kcf_write_archive_header env >> read_archive_header env (length pre))
            (over (record k { parser_state = ParserState.write_record }) (ended f pre) fl)
          ≡ ok
              (KcfError.ok, some 1)
              (at
                (record k' { parser_state = ParserState.read_record_header })
                (ended f (pre ++ encode (header env)))
                fl
                (length (pre ++ encode (header env)))))
  read_archive_header-write can_write can_read =
      let whole = ended f (pre ++ encode (header env)) in
      let (block, got, fit) = alloc (k.mallocs + 1 + 1) (length (payload (header env).bytes)) in
      let there : drop (length pre) whole.content ≡ encode (header env) ++ [] =
        drop-append pre (encode (header env)) ∙ sym (append-nil (encode (header env))) in
      let none_added : flags_size (header env).head_flags ≡ false =
        ap flags_size (fixed_flags env (header_once env) ∙ header_flags env) in
      (
        after_record with_header (header env),
        rw
            (
              kcf_write_archive_header-file can_write,
              kcf_start_reading-file env with_header whole fl,
              io_seek-file whole fl (length pre),
              kcf_read_record-encode env with_header whole fl (length pre) (header env) blank_record
                  [] block can_read (header-IsReadable env) there got fit,
              header_read env,
              header_version env,
              none_added,
              length-append pre (encode (header env)),
            )
            refl,
      )
