-- ===== src/Program.antt =====
-- cmd/kcf/main.c: the command-line program, with its packing. Unpacking is in Unpacking.
pub mod Packing
pub mod Unpacks
use kcf_old.Base.{
  ℕ, suc, ◌+◌, Bool, true, false, Option, none, some, List, [], ◌∷◌, ◌++◌, ◌==◌, if◌then◌else◌,
}
use kcf_old.Base.{ℤ, pos, ltb_ℤ, to_size}
use Prim.Native.String.{String}
use kcf_old.Env.{Env}
use kcf_old.Errors.{KcfError, code, kcf_error_string, file_not_found}
use kcf_old.Io.{Io}
use kcf_old.Record.{KcfRecord}
use kcf_old.FileInfo.{KcfFileInfo, blank_file_info, file_regular}
use kcf_old.Action.{Result, Action, ok, fail, ◌>>=◌, ◌>>◌, pure, throw, with_local, ignoring_error}
use kcf_old.Kcf.{Kcf}
use kcf_old.Report.{CString, Piece, Report, exited, printing}
use kcf_old.Unpacking.{Unpacker, unpack}
use kcf_old.Kcf.Archive.{kcf_create, kcf_init_archive}
use kcf_old.Kcf.Insert.{kcf_begin_file, kcf_insert_file_data, kcf_end_file}

-- Local variables that are used before they are set: file_size, record and BytesRead of the
-- functions that pack a file, their buffer, and Error of `pack`.
pub record Unset : Type 0 where
  pub file_size : ℤ
  pub record_local : KcfRecord
  pub bytes_read : ℕ
  pub buffer : List ℕ
  pub error : ℤ

-- What the program asks of its surroundings: IO_open_cfile, which is declared and nowhere defined,
-- for the call with a number; and whether calloc succeeds.
pub record Surroundings (S : Type 0) : Type 0 where
  pub open_cfile : ℕ → CString → String → Option (Io S)
  pub calloc : Bool

abbrev help_lines : CString → List (List Piece)
help_lines program =
    (Piece.text "KCF version 0.0.2" ∷ [])
    ∷ (Piece.text "Created by Danila A. Kondratenko" ∷ [])
    ∷ (Piece.text "" ∷ [])
    ∷ (Piece.text "Usage: " ∷ [])
    ∷ (Piece.text "  "
        ∷ Piece.name program
        ∷ Piece.text " cmd archive [input1 input2 ... inputN]\n"
        ∷ [])
    ∷ (Piece.text "" ∷ [])
    ∷ (Piece.text "Commands:" ∷ [])
    ∷ (Piece.text "    c        adds files into archive" ∷ [])
    ∷ (Piece.text "    x        extracts archive" ∷ [])
    ∷ (Piece.text "" ∷ [])
    ∷ []

-- `help` and `invalid_command`
unfoldable pub help : CString → Report
help program = exited 0 (help_lines program)

unfoldable pub invalid_command : CString → CString → Report
invalid_command program cmd = exited 1 (
    (Piece.name program ∷ Piece.text ": " ∷ Piece.name cmd ∷ Piece.text ": invalid command\n" ∷ [])
    ∷ [])

abbrev failed_to_create : CString → CString → Option String → List Piece
failed_to_create program output message =
    Piece.name program
    ∷ Piece.text ": failed to create archive "
    ∷ Piece.name output
    ∷ Piece.text ": "
    ∷ Piece.error_text message
    ∷ Piece.text "\n"
    ∷ []

abbrev pub creating : CString → List Piece
creating output = Piece.text "Creating archive " ∷ Piece.name output ∷ Piece.text "...\n" ∷ []

abbrev pub packing : CString → List Piece
packing input = Piece.text "Packing file " ∷ Piece.name input ∷ Piece.text "...\n" ∷ []

abbrev pub failed_to_pack : CString → CString → KcfError → List Piece
failed_to_pack program input e =
    Piece.name program
    ∷ Piece.text ": failed to pack file "
    ∷ Piece.name input
    ∷ Piece.text ": "
    ∷ Piece.error_text (kcf_error_string (pos (code e)))
    ∷ Piece.text "\n"
    ∷ []

module _ {S : Type 0} (env : Env) (around : Surroundings S) (unset : Unset) (fuel : ℕ) where
  -- The FileInfo of `pack_file`.
  abbrev regular_info : CString → KcfFileInfo
  regular_info path = record blank_file_info {
    file_type = file_regular;
    file_name = some path;
    has_unpacked_size = true;
    has_unpacked_size8 = ltb_ℤ (pos 2147483647) unset.file_size;
    unpacked_size = to_size unset.file_size;
  }

  -- The calls of `pack_file` on the input `f`, which is closed behind them whether they succeed
  -- or not.
  abbrev pack_stream : Io S → CString → Action (Kcf S) (Unit {0})
  pack_stream f path = do
    info ← kcf_begin_file env true unset.record_local (regular_info path)
    (done, input) ←
        with_local (some f) (kcf_insert_file_data env fuel true unset.bytes_read unset.buffer)
    kcf_end_file env true

  abbrev pack_opened : Option (Io S) → CString → Action (Kcf S) (Unit {0})
  pack_opened none path = throw file_not_found
  pack_opened (some f) path = pack_stream f path

  -- `pack_file`, whose IO_open_cfile is the call with number `t`.
  unfoldable pub pack_file : ℕ → CString → Action (Kcf S) (Unit {0})
  unfolding kcf_begin_file kcf_insert_file_data kcf_end_file
  pack_file t path = pack_opened (around.open_cfile t path "rb") path

  abbrev after_file : CString → CString → Result (Kcf S) (Unit {0}) → (Kcf S → Report) → Report
  after_file program input (ok u k) rest = rest k
  after_file program input (fail e k) rest = exited 1 (failed_to_pack program input e ∷ [])
  after_file program input Result.undefined rest = Report.undefined
  after_file program input Result.diverged rest = Report.diverged

  -- The loop of `pack`.
  unfoldable pub pack_inputs : CString → ℕ → List CString → Kcf S → Report
  unfolding pack_file
  pack_inputs program t [] k = exited 0 []
  pack_inputs program t (input ∷ inputs) k =
      printing (packing input ∷ [])
        (after_file program input (pack_file t input k) (pack_inputs program (t + 1) inputs))

  -- `KCF_init_archive(archive);`, its error not looked at, and the loop.
  abbrev after_init : CString → List CString → Result (Kcf S) (Unit {0}) → Report
  after_init program inputs (ok u k) = pack_inputs program 1 inputs k
  after_init program inputs (fail e k) = pack_inputs program 1 inputs k
  after_init program inputs Result.undefined = Report.undefined
  after_init program inputs Result.diverged = Report.diverged

  abbrev pack_created : CString → CString → List CString → KcfError × Option (Kcf S) → Report
  pack_created program output inputs (e, none) =
      exited 1 (failed_to_create program output (kcf_error_string (pos (code e))) ∷ [])
  pack_created program output inputs (e, some k) =
      printing (creating output ∷ []) (after_init program inputs (kcf_init_archive env k))

  abbrev pack_output : CString → CString → List CString → Option (Io S) → Report
  pack_output program output inputs none =
      exited 1 (failed_to_create program output (kcf_error_string unset.error) ∷ [])
  pack_output program output inputs (some io) =
      pack_created program output inputs (kcf_create (some io) true around.calloc)

  -- `pack`; with no argument IO_open_cfile gets a null pointer.
  unfoldable pub pack : CString → List CString → Report
  unfolding pack_inputs kcf_init_archive kcf_create
  pack program [] = Report.undefined
  pack program (output ∷ inputs) =
      pack_output program output inputs (around.open_cfile 0 output "w+b")

  abbrev run_command : {W : Type 0} → Unpacker W → ℕ → W → CString → ℕ → List CString → Report × W
  run_command u rounds w program c arguments =
      if c == b'c'
      then (pack program arguments, w)
      else if c == b'x'
      then unpack u rounds w program arguments
      else (invalid_command program (c ∷ []), w)

  -- `main` without its first argument, which is `program`, and the state in which it leaves the
  -- functions that `unpack` calls. Command[1] of an empty string is behind the string.
  unfoldable pub main : {W : Type 0} → Unpacker W → ℕ → W → CString → List CString → Report × W
  unfolding help invalid_command pack unpack
  main u rounds w program [] = (help program, w)
  main u rounds w program ([] ∷ arguments) = (Report.undefined, w)
  main u rounds w program ((c ∷ []) ∷ arguments) = run_command u rounds w program c arguments
  main u rounds w program ((c ∷ d ∷ command) ∷ arguments) =
      (invalid_command program (c ∷ d ∷ command), w)
