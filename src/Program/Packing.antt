-- ===== src/Program/Packing.antt =====
-- What `kcf c` comes to.
use kcf_old.Base.{ℕ, ◌≡◌, refl, true, List, [], ◌∷◌, some}
use kcf_old.Env.{Env}
use kcf_old.Errors.{invalid_state}
use kcf_old.Action.{fail}
use kcf_old.Io.{Io}
use kcf_old.Kcf.{Kcf, ParserState}
use kcf_old.Kcf.Archive.{fresh, kcf_create, kcf_init_archive, kcf_start_writing, start_writing_from}
use kcf_old.Kcf.Reach.{IsInert, fresh-IsInert}
use kcf_old.Kcf.Reach.Refusals.{begin_file_refused}
use kcf_old.Kcf.Reach.Moving.{start_marker_refused}
use kcf_old.Report.{CString, exited}
use kcf_old.Unpacking.{Unpacker}
use kcf_old.Program.{
  Surroundings, Unset, creating, packing, failed_to_pack, pack_file, pack_inputs, pack, main,
}

-- The archive after `KCF_init_archive` has been refused.
abbrev refused : {S : Type 0} → Io S → Kcf S
refused io = record (fresh io) { parser_state = ParserState.write_marker }

refused-IsInert : {S : Type 0} (io : Io S) → IsInert (refused io)
unfolding fresh
refused-IsInert io = record { not_writing = refl; no_stage = refl; before_records = tt }

init_archive_refused :
    {S : Type 0} (env : Env) (io : Io S)
    → kcf_init_archive env (fresh io) ≡ fail invalid_state (refused io)
unfolding kcf_init_archive kcf_start_writing start_writing_from fresh
init_archive_refused env io = rw (start_marker_refused env (fresh io) (fresh-IsInert io)) refl

module _ {S : Type 0} (env : Env) (around : Surroundings S) (unset : Unset) (fuel : ℕ) where
  pack_file-refused :
      (t : ℕ) (path : CString) (io f : Io S)
      → around.open_cfile t path "rb" ≡ some f
      → pack_file env around unset fuel t path (refused io) ≡ fail invalid_state (refused io)
  unfolding pack_file
  pack_file-refused t path io f opened =
      rw
        (opened, begin_file_refused env (refused io) (refused-IsInert io) true unset.record_local _)
        refl

  -- `kcf c archive input ...` never packs a file: when both the archive and the first input can
  -- be opened and calloc succeeds, the program says that it creates the archive and packs the
  -- input, then that it failed to pack it with the text of KCF_ERROR_INVALID_STATE, and exits
  -- with 1, whatever the files hold, whatever else it is given, and whatever the unset variables
  -- hold; the functions that unpack are not called.
  pub main-never_packs :
      {W : Type 0} (u : Unpacker W) (rounds : ℕ) (w : W) (program output input : CString)
      (inputs : List CString) (io f : Io S)
      → around.open_cfile 0 output "w+b" ≡ some io
      → around.open_cfile 1 input "rb" ≡ some f
      → around.calloc ≡ true
      → main env around unset fuel u rounds w program ((b'c' ∷ []) ∷ output ∷ input ∷ inputs) ≡ (
        exited 1
            (creating output ∷ packing input ∷ failed_to_pack program input invalid_state ∷ []),
        w,
      )
  unfolding main pack pack_inputs kcf_create
  main-never_packs u rounds w program output input inputs io f created opened calloc =
      rw (created, calloc, init_archive_refused env io, pack_file-refused 1 input io f opened) refl
