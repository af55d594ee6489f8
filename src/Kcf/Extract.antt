-- ===== src/Kcf/Extract.antt =====
-- kcf/extract.c: listing, skipping and extracting the files of an archive.
pub mod Listing
pub mod Skipping
pub mod Unnamed
pub mod Copying
pub mod Records
use kcf_old.Base.{ℕ, zero, suc, ◌+◌, bit_and, Bool, true, false, not, ◌||◌, Option, some, List}
use kcf_old.Base.{ltb, ◌==◌, if◌then◌else◌, is_neg, to_int64}
use kcf_old.Env.{Env}
use kcf_old.Errors.{
  KcfError, invalid_parameter, invalid_state, invalid_data, invalid_format, write, unknown,
}
use kcf_old.Io.{Io, io_write}
use kcf_old.Record.{KcfRecord, rec_clear, rec_has_added_size, file_header_type, data_fragment_type}
use kcf_old.FileInfo.{KcfFileInfo, record_to_file_info, file_info_copy, file_info_clear}
use kcf_old.Action.{
  Result, Action, ok, diverged, bind, ◌>>=◌, ◌>>◌, pure, gets, modify, throw, fail_if,
}
use kcf_old.Action.{when, from_outcome, beside, with_local, ignoring_error, finally}
use kcf_old.Kcf.{Kcf, upstate_file_header, upstate_file_data, upstate_after_file_data, blank_record}
use kcf_old.Kcf.Read.{kcf_read_record, kcf_skip_record, kcf_read_added_data}

-- A `bool` as a KCFERROR: true is 1, which is KCF_ERROR_UNKNOWN.
abbrev pub return_bool : {St : Type 0} → Bool → Action St (Unit {0})
return_bool true = throw unknown
return_bool false = pure tt

-- `if (Error) return Error;` on an error that a callee gave as a value.
abbrev return_error : {St : Type 0} → KcfError → Action St (Unit {0})
return_error KcfError.ok s = ok tt s
return_error e s = Result.fail e s

-- `HeadFlags & 0x01`: the file goes on in the next record.
abbrev pub continues : KcfRecord → Bool
continues r = not (bit_and r.head_flags 0x01 == 0)

module _ {S : Type 0} where
  -- `file_info_copy(FileInfo, &kcf->CurrentFile)`, its result returned as the error.
  abbrev pub copy_current : Env → Action (Kcf S × KcfFileInfo) (Unit {0})
  copy_current env (k, info) =
      let (copied, info') = file_info_copy env k.mallocs info k.current_file in
      return_bool copied (record k { mallocs = k.mallocs + 1 }, info')

  -- `record_to_file_info(&Record, FileInfo)`, whose first argument is changed and then cleared.
  abbrev pub convert : Env → KcfRecord → KcfFileInfo → Action (Kcf S × KcfFileInfo) (Unit {0})
  convert env r info = do
    t ← gets (λ s. s.0.mallocs)
    (error, r') ← from_outcome (record_to_file_info env t r info)
    modify (λ s. (record (s.0) { mallocs = t + 1 }, s.1))
    return_error error

  abbrev pub set_current : Env → Action (Kcf S × KcfFileInfo) Bool
  set_current env (k, info) =
      let (copied, current) = file_info_copy env k.mallocs k.current_file info in
      ok copied (
        record k { current_file = current; mallocs = k.mallocs + 1; stage = upstate_file_data },
        info,
      )

  -- `read_file_info`
  unfoldable pub read_file_info : Env → Action (Kcf S × KcfFileInfo) (Unit {0})
  unfolding kcf_read_record
  read_file_info env = do
    (result, r) ← beside (with_local blank_record (kcf_read_record env true))
    info ← gets (λ s. s.1)
    convert env r info
    copied ← set_current env
    return_bool copied

  abbrev pub file_info_at : Env → ℕ → Action (Kcf S × KcfFileInfo) (Unit {0})
  file_info_at env stage s =
      if stage == upstate_file_header
      then read_file_info env s
      else if stage == upstate_file_data || stage == upstate_after_file_data
      then copy_current env s
      else Result.fail invalid_state s

  -- `KCF_get_current_file_info`; the FileInfo stands beside the archive.
  unfoldable pub kcf_get_current_file_info : Env → Bool → Action (Kcf S × KcfFileInfo) (Unit {0})
  unfolding read_file_info
  kcf_get_current_file_info env nonnull = do
    fail_if (not nonnull) invalid_parameter
    stage ← gets (λ s. s.0.stage)
    file_info_at env stage

  -- `if (rec_has_added_size(&Record)) KCF_skip_record(kcf);`, its error not looked at.
  abbrev skip_added_data : ℕ → KcfRecord → Action (Kcf S × KcfRecord) (Unit {0})
  skip_added_data fuel r =
      when (rec_has_added_size (some r)) (ignoring_error (beside (kcf_skip_record fuel)))

  -- The switch of the loop of `KCF_skip_file`.
  abbrev skip_file_record : ℕ → ℕ → KcfRecord → Action (Kcf S × KcfRecord) (Unit {0})
  skip_file_record fuel stage r s =
      if stage == upstate_file_header
      then skip_added_data fuel r (record (s.0) { stage = upstate_file_data }, s.1)
      else if stage == upstate_file_data
      then (if not (r.head_type == data_fragment_type)
          then Result.fail invalid_data s
          else skip_added_data fuel r s)
      else Result.fail invalid_state s

  -- The loop of `KCF_skip_file` with at most `fuel` rounds.
  unfoldable pub skip_file_loop : Env → ℕ → Action (Kcf S × KcfRecord) (Unit {0})
  skip_file_loop env zero s = diverged
  skip_file_loop env (suc fuel) s =
      (do
        kcf_read_record env true
        stage ← gets (λ t. t.0.stage)
        r ← gets (λ t. t.1)
        skip_file_record fuel stage r
        (λ t. let rest = skip_file_loop env fuel t in if continues r then rest else ok tt t))
        s

  -- `KCF_skip_file`
  unfoldable pub kcf_skip_file : Env → ℕ → Bool → Action (Kcf S) (Unit {0})
  kcf_skip_file env fuel nonnull = do
    fail_if (not nonnull) invalid_parameter
    writing ← gets (λ k. k.is_writing)
    fail_if writing invalid_state
    (result, r) ← with_local blank_record (skip_file_loop env fuel)
    modify (λ k. record k { stage = upstate_file_header })

  abbrev put_last : {A : Type 0} → Result (Kcf S × KcfRecord) A → Result (Kcf S) A
  put_last (ok a (k, r)) = ok a (record k { last_record = r })
  put_last (Result.fail e (k, r)) = Result.fail e (record k { last_record = r })
  put_last Result.undefined = Result.undefined
  put_last diverged = diverged

  -- A call on `&kcf->LastRecord`.
  abbrev on_last_record : {A : Type 0} → Action (Kcf S × KcfRecord) A → Action (Kcf S) A
  on_last_record m k = put_last (m (k, k.last_record))

  -- `ret = IO_write(Output, Buffer, BytesRead)`, an error if it is negative.
  abbrev write_output : {T : Type 0} → List ℕ → ℕ → Action (Kcf S × Option (Io T)) (Unit {0})
  write_output buffer n (k, output) =
      let (ret, output') = io_write output buffer (to_int64 n) in
      if is_neg ret then Result.fail write (k, output') else ok tt (k, output')

  -- The inner loop of `KCF_extract`. Remaining is the AddedSize of the record and never changes.
  unfoldable pub extract_loop :
      {T : Type 0} → Env → ℕ → ℕ → ℕ → List ℕ → Action (Kcf S × Option (Io T)) (List ℕ)
  unfolding kcf_read_added_data
  extract_loop env zero remaining to_read buffer s = diverged
  extract_loop env (suc fuel) remaining to_read buffer s =
      let to_read' = if ltb remaining to_read then remaining else to_read in
      let round = bind (beside (kcf_read_added_data env true buffer to_read') s) λ p s'.
        bind (write_output p.1 p.0 s') λ u s''. extract_loop env fuel remaining to_read' p.1 s'' in
      if ltb 0 s.0.added_data_total then round else ok buffer s

  -- The next record of the file, which must be a data fragment.
  abbrev next_fragment : {T : Type 0} → Env → Action (Kcf S × Option (Io T)) (Unit {0})
  next_fragment env = do
    beside (on_last_record (kcf_read_record env true))
    type ← gets (λ s. s.0.last_record.head_type)
    fail_if (not (type == data_fragment_type)) invalid_format

  -- The outer loop of `KCF_extract` with at most `fuel` rounds.
  unfoldable pub extract_records :
      {T : Type 0} → Env → ℕ → ℕ → List ℕ → Action (Kcf S × Option (Io T)) (Unit {0})
  unfolding extract_loop kcf_read_record
  extract_records env inner zero buffer s = diverged
  extract_records env inner (suc fuel) buffer s =
      (do
        buffer' ← extract_loop env inner s.0.last_record.added_size 4096 buffer
        more ← gets (λ t. continues t.0.last_record)
        when more (next_fragment env)
        (λ t.
            let rest = extract_records env inner fuel buffer' t in
            if continues t.0.last_record then rest else ok tt t))
        s

  -- `record_to_file_info(&kcf->LastRecord, &kcf->CurrentFile)`
  abbrev convert_last : Env → Action (Kcf S) (Unit {0})
  convert_last env = do
    k ← gets (λ k. k)
    (error, last) ← from_outcome (record_to_file_info env k.mallocs k.last_record k.current_file)
    modify (λ k. record k { last_record = last; mallocs = k.mallocs + 1 })
    return_error error

  -- The part of `KCF_extract` up to the label cleanup1.
  unfoldable pub extract_file :
      {T : Type 0} → Env → ℕ → ℕ → List ℕ → Action (Kcf S × Option (Io T)) (Unit {0})
  unfolding extract_records
  extract_file env inner fuel buffer = do
    type ← gets (λ s. s.0.last_record.head_type)
    fail_if (not (type == file_header_type)) invalid_format
    beside (convert_last env)
    finally (extract_records env inner fuel buffer)
        (λ s. (record (s.0) { current_file = file_info_clear s.0.current_file }, s.1))

  -- `KCF_extract`; `buffer` is the local Buffer of 4096 bytes, with no initial value.
  unfoldable pub kcf_extract :
      {T : Type 0} → Env → ℕ → ℕ → Bool → List ℕ → Action (Kcf S × Option (Io T)) (Unit {0})
  unfolding extract_file
  kcf_extract env inner fuel nonnull buffer = do
    fail_if (not nonnull) invalid_parameter
    writing ← gets (λ s. s.0.is_writing)
    stage ← gets (λ s. s.0.stage)
    fail_if (writing || not (stage == upstate_file_header)) invalid_state
    beside (on_last_record (kcf_read_record env true))
    finally (extract_file env inner fuel buffer)
        (λ s. (record (s.0) { last_record = rec_clear s.0.last_record }, s.1))
