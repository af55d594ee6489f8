-- ===== src/FileInfo/RoundTrip.antt =====
-- `file_info_to_record`, which reads a record, on what `record_to_file_info` writes.
use kcf_old.Base.{ℕ, ◌+◌, ◌^◌, ◌<◌, ◌≡◌, refl, ◌∙◌, List, ◌++◌, length}
use kcf_old.Base.{some, done}
use kcf_old.Env.{Env}
use kcf_old.Errors.{KcfError}
use kcf_old.FileInfo.{KcfFileInfo}
use kcf_old.FileInfo.{file_info_to_record, record_to_file_info, get_file_info_data_size}
use kcf_old.Record.{KcfRecord, rec_fix, file_header_type}
use kcf_old.Record.Fixing.{rec_validate-rec_fix}
use kcf_old.FileInfo.Layout.{record_to_file_info_lem, info_head}
use kcf_old.FileInfo.Fields.{get_name-append}
use kcf_old.FileInfo.Fields.{read_over, IsStorable}
use kcf_old.FileInfo.Reading.{read_info_lem, read_valid}

-- `record_to_file_info` makes a record from which `file_info_to_record` reads back every field
-- that the file information has, the flags and the name up to its first zero byte; a field that
-- it does not have keeps its value in the target, and so does FileType, which is not stored.
-- Conditions: there is a name of less than 65536 bytes, the fields are in the range of their
-- types, an UnpackedSize that is not stored in eight bytes is below 2^32, though the member has
-- 64 bits, since `record_to_file_info` would cut it to its low 32 bits, an UnpackedSize of eight
-- bytes is marked as an UnpackedSize, and malloc gives the blocks for the data and for the name.
pub file_info_to_record-record_to_file_info :
    (env : Env) (t u : ℕ) (r : KcfRecord) (info old : KcfFileInfo) (name block name_block : List ℕ)
    → info.file_name ≡ some name
    → IsStorable info
    → length name < 2 ^ 16
    → env.malloc t (get_file_info_data_size info) ≡ some block
    → length block ≡ get_file_info_data_size info
    → env.malloc u (length name + 1) ≡ some name_block
    → (r' : KcfRecord) × (record_to_file_info env t r info ≡ done (KcfError.ok, r'))
      × (file_info_to_record env u old r' ≡ done (KcfError.ok, read_over info old name))
file_info_to_record-record_to_file_info env t u r info old name block name_block named good short
      got room got' =
    let filled = record r {
      head_type = file_header_type;
      bytes = some (info_head info (length name) ++ name);
      data_size = length (info_head info (length name) ++ name);
    } in
    (
      rec_fix env filled,
      record_to_file_info_lem env t r info name block named got room,
      (read_valid env u old (rec_fix env filled) (info_head info (length name) ++ name)
            (rec_validate-rec_fix env filled) (unfold rec_fix in refl) (unfold rec_fix in refl)
            (unfold rec_fix in refl)
          ∙ read_info_lem env u info old (length name) name name_block good short got'
          ∙ get_name-append name_block (info_head info (length name)) name
              (read_over info old name)),
    )
