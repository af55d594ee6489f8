-- ===== src/Kcf/Reach/Inert.antt =====
-- Every call keeps an archive inert, so no sequence of calls ever gets to a record.
use kcf_old.Base.{ℕ, ◌≡◌, true, Option, List}
use kcf_old.Env.{Env}
use kcf_old.Errors.{KcfError, invalid_state}
use kcf_old.Io.{Io}
use kcf_old.Record.{KcfRecord}
use kcf_old.FileInfo.{KcfFileInfo}
use kcf_old.Action.{Result, fail}
use kcf_old.Action.Keeping.{Leaves, Keeps, Keeps-refused}
use kcf_old.Kcf.{Kcf}
use kcf_old.Kcf.Read.{kcf_read_record}
use kcf_old.Kcf.Write.{kcf_write_record}
use kcf_old.Kcf.Archive.{}
use kcf_old.Kcf.Insert.{kcf_begin_file}
use kcf_old.Kcf.Extract.{kcf_extract}
use kcf_old.Kcf.Reach.{Call, Reach, created, call, IsInert, fresh-IsInert}
use kcf_old.Kcf.Reach.Refusals.{read_record_refused, read_added_data_refused, skip_record_refused}
use kcf_old.Kcf.Reach.Refusals.{write_record_refused, write_record_with_added_data_refused}
use kcf_old.Kcf.Reach.Refusals.{
  write_added_data_refused, finish_added_data_refused, begin_file_refused,
}
use kcf_old.Kcf.Reach.Refusals.{end_file_refused, insert_file_data_refused, extract_refused}
use kcf_old.Kcf.Reach.Refusals.{get_current_file_info_refused}
use kcf_old.Kcf.Reach.Moving.{
  write_marker_refused, start_writing-Keeps, find_marker-Keeps, write_archive_header-Keeps,
  init_archive-Keeps, skip_file-Keeps, start_reading-Keeps,
}

-- The state behind a call that is refused beside a second value.
pub refused_beside :
    {St R A : Type 0} (P : St → Type 0) {r : Result (St × R) A} {e : KcfError} {s : St} {u : R}
    (t : St) (v : R)
    → r ≡ fail e (s, u)
    → P s
    → Leaves r (t, v)
    → P t
refused_beside P t v q p l =
    let k : Keeps (λ x. P x.0) _ = Keeps-refused (λ x. P x.0) q p in k.kept (t, v) l

-- A call that leaves an inert archive leaves an inert archive.
Call-IsInert : {S : Type 0} {env : Env} {k k' : Kcf S} → Call env k k' → IsInert k → IsInert k'
Call-IsInert {env} {k} {k'} (Call.start_reading e) h = (start_reading-Keeps env k h).kept k' e
Call-IsInert {env} {k} {k'} (Call.start_writing e) h = (start_writing-Keeps env k h).kept k' e
Call-IsInert {env} {k} {k'} (Call.init_archive e) h = (init_archive-Keeps env k h).kept k' e
Call-IsInert {env} {k} {k'} (Call.find_marker fuel e) h = (find_marker-Keeps env k h fuel).kept k' e
Call-IsInert {env} {k} {k'} (Call.write_marker e) h =
    (Keeps-refused IsInert (write_marker_refused env k h) h).kept k' e
Call-IsInert {env} {k} {k'} (Call.read_record n r r' e) h =
    refused_beside IsInert k' r' (read_record_refused env k h.before_records n r) h e
Call-IsInert {env} {k} {k'} (Call.skip_record fuel e) h =
    (Keeps-refused IsInert (skip_record_refused env k h.before_records fuel) h).kept k' e
Call-IsInert {env} {k} {k'} (Call.read_added_data n b size e) h =
    (Keeps-refused IsInert (read_added_data_refused env k h.before_records n b size) h).kept k' e
Call-IsInert {env} {k} {k'} (Call.write_record r r' e) h =
    refused_beside IsInert k' r' (write_record_refused env k h.before_records r) h e
Call-IsInert {env} {k} {k'} (Call.write_record_with_added_data a size r r' e) h =
    refused_beside IsInert k' r'
      (write_record_with_added_data_refused env k h.before_records a size r) h e
Call-IsInert {env} {k} {k'} (Call.write_added_data a size e) h =
    (Keeps-refused IsInert (write_added_data_refused env k h.before_records a size) h).kept k' e
Call-IsInert {env} {k} {k'} (Call.finish_added_data e) h =
    (Keeps-refused IsInert (finish_added_data_refused env k h.before_records) h).kept k' e
Call-IsInert {env} {k} {k'} (Call.write_archive_header e) h =
    (write_archive_header-Keeps env k h).kept k' e
Call-IsInert {env} {k} {k'} (Call.begin_file n r info e) h =
    (Keeps-refused IsInert (begin_file_refused env k h n r info) h).kept k' e
Call-IsInert {env} {k} {k'} (Call.insert_file_data fuel n bytes_read buffer input input' e) h =
    refused_beside IsInert k' input'
      (insert_file_data_refused env k h fuel n bytes_read buffer input) h e
Call-IsInert {env} {k} {k'} (Call.end_file n e) h =
    (Keeps-refused IsInert (end_file_refused env k h n) h).kept k' e
Call-IsInert {env} {k} {k'} (Call.get_current_file_info n info info' e) h =
    refused_beside IsInert k' info' (get_current_file_info_refused env k h n info) h e
Call-IsInert {env} {k} {k'} (Call.skip_file fuel n e) h = (skip_file-Keeps env k h fuel n).kept k' e
Call-IsInert {env} {k} {k'} (Call.extract inner fuel n buffer output output' e) h =
    refused_beside IsInert k' output' (extract_refused env k h inner fuel n buffer output) h e

Reach-IsInert : {S : Type 0} {env : Env} {io : Io S} {k : Kcf S} → Reach env io k → IsInert k
Reach-IsInert {io} created = fresh-IsInert io
Reach-IsInert (call r c) = Call-IsInert c (Reach-IsInert r)

-- Whatever calls a client makes on an archive that `kcf_create` has made, in any order and with
-- any arguments, the archive is never in a state in which it accepts a record: reading a record,
-- writing one, beginning a file and extracting one are all refused with KCF_ERROR_INVALID_STATE,
-- and change nothing.
pub Reach-refused :
    {S : Type 0} {env : Env} {io : Io S} {k : Kcf S}
    → Reach env io k
    → ((r : KcfRecord) → kcf_read_record env true (k, r) ≡ fail invalid_state (k, r))
      × ((r : KcfRecord) → kcf_write_record env (k, r) ≡ fail invalid_state (k, r))
      × ((r : KcfRecord) (info : KcfFileInfo)
          → kcf_begin_file env true r info k ≡ fail invalid_state k)
      × ((inner fuel : ℕ) (buffer : List ℕ) (output : Option (Io S))
          → kcf_extract env inner fuel true buffer (k, output) ≡ fail invalid_state (k, output))
Reach-refused {env} {k} reach =
    let h = Reach-IsInert reach in
    (
      λ r. read_record_refused env k h.before_records true r,
      λ r. write_record_refused env k h.before_records r,
      λ r info. begin_file_refused env k h true r info,
      λ inner fuel buffer output. extract_refused env k h inner fuel true buffer output,
    )
