-- ===== src/Kcf/Insert/Endless.antt =====
-- The loop of `KCF_insert_file_data`.
use kcf_old.Base.{ℕ, zero, suc, ◌<◌, ◌≡◌, refl, Bool, false, List, Option, not, ◌==◌, lt→ltb}
use kcf_old.Env.{Env}
use kcf_old.Errors.{invalid_parameter, invalid_state}
use kcf_old.Io.{Io}
use kcf_old.Action.{is_ok, is_ok-bind, is_ok-after, fail_if}
use kcf_old.Kcf.{Kcf, pkstate_file_data}
use kcf_old.Kcf.Insert.{insert_loop, kcf_insert_file_data, read_input, write_input}

module _ {S T : Type 0} (env : Env) (bytes_read : ℕ) (nonzero : 0 < bytes_read) where
  insert_loop-is_ok :
      (fuel : ℕ) (buffer : List ℕ) (s : Kcf S × Option (Io T))
      → is_ok (insert_loop env fuel bytes_read buffer s) ≡ false
  unfolding insert_loop
  insert_loop-is_ok zero buffer s = refl
  insert_loop-is_ok (suc fuel) buffer s = rw (lt→ltb 0 bytes_read nonzero) (
      is_ok-bind (read_input buffer s) _ λ buffer' s'.
        is_ok-bind (write_input env buffer' bytes_read s') _
          λ u s''. insert_loop-is_ok fuel buffer' s'')

  -- If the uninitialised BytesRead of `kcf_insert_file_data` is not 0, then the call never
  -- returns KCF_ERROR_OK, on any archive and any input, however many rounds its loop may take.
  pub kcf_insert_file_data-is_ok :
      (fuel : ℕ) (nonnull : Bool) (buffer : List ℕ) (s : Kcf S × Option (Io T))
      → is_ok (kcf_insert_file_data env fuel nonnull bytes_read buffer s) ≡ false
  unfolding kcf_insert_file_data
  kcf_insert_file_data-is_ok fuel nonnull buffer s =
      is_ok-bind (fail_if (not nonnull) invalid_parameter s) _ λ u s'.
        is_ok-bind (fail_if (not s'.0.is_writing) invalid_state s') _ λ v t.
          is_ok-bind (fail_if (not (t.0.stage == pkstate_file_data)) invalid_state t) _ λ w t'.
            is_ok-after (insert_loop env fuel bytes_read buffer t') _
              (insert_loop-is_ok fuel buffer t')
