-- ===== src/Kcf/Extract/Unnamed.antt =====
-- `KCF_extract` on an archive whose CurrentFile has no name yet.
use kcf_old.Base.{ℕ, ◌+◌, ◌≡◌, refl, true, List, ◌++◌, length, drop, none, Option}
use kcf_old.Env.{Env, AlwaysAllocates}
use kcf_old.Action.{Result}
use kcf_old.Io.{Io}
use kcf_old.Io.Stdio.{File}
use kcf_old.Record.{KcfRecord, file_header_type}
use kcf_old.Record.Layout.{encode, payload}
use kcf_old.FileInfo.{get_file_info_data_size, record_to_file_info}
use kcf_old.Kcf.{Kcf}
use kcf_old.Kcf.Read.Header.{at}
use kcf_old.Kcf.Read.RoundTrip.{IsReadable, kcf_read_record-encode}
use kcf_old.Kcf.Extract.{kcf_extract, extract_file}
use kcf_old.Kcf.Extract.Skipping.{before_file}

module _ (env : Env) (alloc : AlwaysAllocates env) (k : Kcf File) (f : File) (fl : ℕ)
    (can : f.can_read ≡ true) where
  -- `kcf_extract` on a file header record, with a CurrentFile that has no name, as in an archive
  -- that has just been created, has undefined behaviour, whatever the record holds and whatever
  -- the output is: it calls `record_to_file_info`, which writes the file information into the
  -- record and takes the length of the null name. Conditions: the archive expects a record and a
  -- file header, the file can be read and holds the record's bytes, the record's fields fit, and
  -- malloc never fails.
  pub kcf_extract-unnamed :
      {T : Type 0} (inner rounds p : ℕ) (r : KcfRecord) (post buffer : List ℕ)
      (output : Option (Io T))
      → k.current_file.file_name ≡ none
      → IsReadable r
      → r.head_type ≡ file_header_type
      → drop p f.content ≡ encode r ++ post
      → kcf_extract env inner rounds true buffer (at (before_file k) f fl p, output)
        ≡ Result.undefined
  unfolding kcf_extract extract_file record_to_file_info
  kcf_extract-unnamed inner rounds p r post buffer output unnamed good type there =
      let (block, got, room) = alloc k.mallocs (length (payload r.bytes)) in
      let (info_block, got', room') =
        alloc (k.mallocs + 1) (get_file_info_data_size k.current_file) in
      rw
        (
          kcf_read_record-encode env (before_file k) f fl p r k.last_record post block can good
              there got room,
          type,
          got',
          unnamed,
        )
        refl
