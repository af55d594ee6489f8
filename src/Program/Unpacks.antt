-- ===== src/Program/Unpacks.antt =====
-- What `kcf x` comes to.
use kcf_old.Base.{ℕ, ◌<◌, ◌≡◌, false, List, [], ◌∷◌, ℤ, pos}
use kcf_old.Env.{Env}
use kcf_old.Report.{CString, exited}
use kcf_old.Unpacking.{Unpacker, unpacking, failed_to_unpack}
use kcf_old.Unpacking.Ends.{FailsAfter, succeeds, unpack-fails, unpack-succeeds}
use kcf_old.Program.{Surroundings, Unset, main}

module _ {S W : Type 0} (env : Env) (around : Surroundings S) (unset : Unset) (fuel : ℕ)
    (u : Unpacker W) where
  -- `kcf x` never exits with 0, whatever archive it is given and whatever the functions that it
  -- calls do: the loop of `unpack` goes on until UnpackCurrentFile returns an error, and this
  -- error is then reported.
  pub main-never_succeeds_unpacking :
      (rounds : ℕ) (w : W) (program : CString) (arguments : List CString)
      → succeeds (main env around unset fuel u rounds w program ((b'x' ∷ []) ∷ arguments)).0 ≡ false
  unfolding main
  main-never_succeeds_unpacking rounds w program arguments =
      unpack-succeeds u rounds w program arguments

  -- `kcf x archive` unpacks files until UnpackCurrentFile fails, closes the archive, prints the
  -- text of that error and exits with 1; so an archive whose files have all been unpacked is
  -- reported as a failure. Conditions: CreateArchive and RecordToArchiveHeader succeed, and
  -- UnpackCurrentFile fails after some number of calls, for which there is fuel.
  pub main-unpacks_to_error :
      (rounds : ℕ) (program archive : CString) (arguments : List CString) (w v x w' : W) (n : ℕ)
      (e : ℤ)
      → u.create_archive w archive ≡ (pos 0, v)
      → u.record_to_archive_header (u.read_record (u.scan_archive_for_marker v)) ≡ (pos 0, x)
      → FailsAfter u n x e w'
      → n < rounds
      → main env around unset fuel u rounds w program ((b'x' ∷ []) ∷ archive ∷ arguments) ≡ (
        exited 1 (unpacking ∷ failed_to_unpack program archive (u.get_kcf_error_string e) ∷ []),
        u.close_archive w',
      )
  unfolding main
  main-unpacks_to_error rounds program archive arguments w v x w' n e created header fails enough =
      unpack-fails u rounds program archive arguments w v x w' n e created header fails enough
