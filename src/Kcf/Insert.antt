-- ===== src/Kcf/Insert.antt =====
-- kcf/insert.c: putting a file into an archive.
pub mod Endless
use kcf_old.Base.{
  ℕ, zero, suc, ◌+◌, ◌*◌, Bool, true, false, not, ◌&&◌, ◌||◌, Option, none, some, List,
}
use kcf_old.Base.{length, overwrite, ltb, ◌==◌, if◌then◌else◌, ℤ, pos, is_neg, Outcome, done}
use kcf_old.Env.{Env}
use kcf_old.Errors.{KcfError, invalid_parameter, invalid_state, read}
use kcf_old.Io.{Io, io_read}
use kcf_old.Record.{KcfRecord}
use kcf_old.FileInfo.{KcfFileInfo, file_info_to_record, file_info_copy, file_info_clear}
use kcf_old.Action.{Result, Action, ok, diverged, ◌>>=◌, ◌>>◌, pure, gets, modify, fail_if}
use kcf_old.Action.{from_outcome, beside, with_local}
use kcf_old.Kcf.{Kcf, pkstate_idle, pkstate_file_header, pkstate_file_data, pkstate_after_file_data}
use kcf_old.Kcf.Write.{kcf_write_record, kcf_write_added_data, kcf_finish_added_data}

module _ {S : Type 0} where
  -- `KCF_begin_file`. `record_local` is what the local record holds, which has no initial value; the
  -- value is the FileInfo that `file_info_to_record` leaves, its error is not looked at.
  unfoldable pub kcf_begin_file : Env → Bool → KcfRecord → KcfFileInfo → Action (Kcf S) KcfFileInfo
  unfolding kcf_write_record
  kcf_begin_file env nonnull record_local info = do
    fail_if (not nonnull) invalid_parameter
    writing ← gets (λ k. k.is_writing)
    fail_if (not writing) invalid_state
    stage ← gets (λ k. k.stage)
    fail_if (not (stage == pkstate_idle) && not (stage == pkstate_file_header)) invalid_state
    modify (λ k. record k {
      current_file = (file_info_copy env k.mallocs (file_info_clear k.current_file) info).1;
      mallocs = k.mallocs + 1;
    })
    t ← gets (λ k. k.mallocs)
    (error, info') ← from_outcome (file_info_to_record env t info record_local)
    modify (λ k. record k { mallocs = k.mallocs + 1 })
    (result, r') ← with_local record_local (kcf_write_record env)
    modify (λ k. record k { stage = pkstate_file_data })
    pure info'

  -- One round of the loop: `ret = IO_read(Input, Buffer, 4096)`, an error if it is negative.
  abbrev read_input : {T : Type 0} → List ℕ → Action (Kcf S × Option (Io T)) (List ℕ)
  read_input buffer (k, input) =
      let (ret, got, input') = io_read input (pos 4096) in
      if is_neg ret then Result.fail read (k, input') else ok (overwrite buffer 0 got) (k, input')

  -- `KCF_write_added_data(kcf, Buffer, BytesRead)`, undefined if BytesRead exceeds the buffer.
  abbrev write_input : {T : Type 0} → Env → List ℕ → ℕ → Action (Kcf S × Option (Io T)) (Unit {0})
  write_input env buffer bytes_read =
      if ltb (length buffer) bytes_read
      then from_outcome Outcome.undefined
      else beside (kcf_write_added_data env buffer bytes_read)

  -- The loop of `KCF_insert_file_data` with at most `fuel` rounds. BytesRead has no initial value and
  -- is never assigned: it is `bytes_read` in every round.
  unfoldable pub insert_loop :
      {T : Type 0} → Env → ℕ → ℕ → List ℕ → Action (Kcf S × Option (Io T)) (Unit {0})
  insert_loop env zero bytes_read buffer s = diverged
  insert_loop env (suc fuel) bytes_read buffer s =
      (do
        buffer' ← read_input buffer
        write_input env buffer' bytes_read
        (λ s'.
            let rest = insert_loop env fuel bytes_read buffer' s' in
            if ltb 0 bytes_read then rest else ok tt s'))
        s

  -- `KCF_insert_file_data`; `buffer` is the local Buffer of 4096 bytes, with no initial value.
  unfoldable pub kcf_insert_file_data :
      {T : Type 0} → Env → ℕ → Bool → ℕ → List ℕ → Action (Kcf S × Option (Io T)) (Unit {0})
  kcf_insert_file_data env fuel nonnull bytes_read buffer = do
    fail_if (not nonnull) invalid_parameter
    writing ← gets (λ s. s.0.is_writing)
    fail_if (not writing) invalid_state
    stage ← gets (λ s. s.0.stage)
    fail_if (not (stage == pkstate_file_data)) invalid_state
    insert_loop env fuel bytes_read buffer
    modify (λ s. (record (s.0) { stage = pkstate_after_file_data }, s.1))

  -- `KCF_end_file`
  unfoldable pub kcf_end_file : Env → Bool → Action (Kcf S) (Unit {0})
  unfolding kcf_finish_added_data
  kcf_end_file env nonnull = do
    fail_if (not nonnull) invalid_parameter
    writing ← gets (λ k. k.is_writing)
    fail_if (not writing) invalid_state
    stage ← gets (λ k. k.stage)
    fail_if (not (stage == pkstate_after_file_data)) invalid_state
    kcf_finish_added_data env
    modify (λ k. record k { stage = pkstate_file_header })
