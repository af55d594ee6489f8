-- ===== src/Unpacking.antt =====
-- cmd/kcf/main.c: `unpack`, over the functions that it calls and no file declares.
pub mod Ends
use kcf_old.Base.{
  ℕ, zero, suc, Bool, true, not, Option, none, some, List, [], ◌∷◌, ◌==◌, if◌then◌else◌, ℤ, pos,
  negsuc,
}
use Prim.Native.String.{String}
use kcf_old.Report.{CString, Piece, Report, exited, printing}

-- CreateArchive in the mode KCF_MODE_READ, ScanArchiveForMarker, ReadRecord, RecordToArchiveHeader
-- on the record that was read, UnpackCurrentFile, CloseArchive and GetKcfErrorString. `W` is the
-- state that they share: the archive with its handle, and the local record. A KCFERROR is an
-- integer, and 0 is KCF_ERROR_OK.
pub record Unpacker (W : Type 0) : Type 0 where
  pub create_archive : W → CString → ℤ × W
  pub scan_archive_for_marker : W → W
  pub read_record : W → W
  pub record_to_archive_header : W → ℤ × W
  pub unpack_current_file : W → ℤ × W
  pub close_archive : W → W
  pub get_kcf_error_string : ℤ → Option String

-- `if (Error)`
abbrev pub is_error : ℤ → Bool
is_error (pos n) = not (n == 0)
is_error (negsuc n) = true

-- The lines for a failure of CreateArchive and for a failure after it.
abbrev pub failed_to_open : CString → CString → Option String → List Piece
failed_to_open program archive message =
    Piece.name program
    ∷ Piece.text ": failed to create archive "
    ∷ Piece.name archive
    ∷ Piece.text ": "
    ∷ Piece.error_text message
    ∷ Piece.text "\n"
    ∷ []

abbrev pub failed_to_unpack : CString → CString → Option String → List Piece
failed_to_unpack program archive message =
    Piece.name program
    ∷ Piece.text ": "
    ∷ Piece.name archive
    ∷ Piece.text ": "
    ∷ Piece.error_text message
    ∷ Piece.text "\n"
    ∷ []

abbrev pub unpacking : List Piece
unpacking = Piece.text "Unpacking files..." ∷ []

module _ {W : Type 0} (u : Unpacker W) where
  -- `while (!Error)` with at most `rounds` rounds: the Error that it ends with.
  unfoldable pub unpack_files : ℕ → W → Option (ℤ × W)
  unpack_files zero w = none
  unpack_files (suc rounds) w =
      let (error, w') = u.unpack_current_file w in
      let rest = unpack_files rounds w' in if is_error error then some (error, w') else rest

  -- What follows the loop.
  abbrev after_files : CString → CString → W → Option (ℤ × W) → Report × W
  after_files program archive w none = (Report.diverged, w)
  after_files program archive w (some (error, w')) =
      if is_error error
      then (
        exited 1 (failed_to_unpack program archive (u.get_kcf_error_string error) ∷ []),
        u.close_archive w',
      )
      else (exited 0 [], u.close_archive w')

  abbrev say : List Piece → Report × W → Report × W
  say line (report, w) = (printing (line ∷ []) report, w)

  abbrev after_header : ℕ → CString → CString → ℤ × W → Report × W
  after_header rounds program archive (error, w) =
      if is_error error
      then (exited 1 (failed_to_unpack program archive (u.get_kcf_error_string error) ∷ []), w)
      else say unpacking (after_files program archive w (unpack_files rounds w))

  abbrev after_create : ℕ → CString → CString → ℤ × W → Report × W
  after_create rounds program archive (error, w) =
      if is_error error
      then (exited 1 (failed_to_open program archive (u.get_kcf_error_string error) ∷ []), w)
      else after_header rounds program archive
          (u.record_to_archive_header (u.read_record (u.scan_archive_for_marker w)))

  -- `unpack`; with no argument CreateArchive gets a null pointer.
  unfoldable pub unpack : ℕ → W → CString → List CString → Report × W
  unfolding unpack_files
  unpack rounds w program [] = (Report.undefined, w)
  unpack rounds w program (archive ∷ arguments) =
      after_create rounds program archive (u.create_archive w archive)
