-- ===== src/Kcf/Items/Recovered.antt =====
-- Reading back a list of records from the bytes that stand for it.
use kcf_old.Base.{
  ℕ, zero, suc, ◌+◌, ◌^◌, ◌≤◌, ◌<◌, ◌≡◌, refl, sym, ap, ◌∙◌, arith, true, List, [], ◌∷◌, ◌++◌,
  length, drop, append_assoc, append-nil, length-append, drop-append, pos, some, ne→==_false, inl,
  inr,
}
use kcf_old.Env.{Env, CrcLaws, AlwaysAllocates}
use kcf_old.Action.{Action, ok, ◌>>◌, ◌>>=◌}
use kcf_old.Io.{seek_set}
use kcf_old.Io.Stdio.{File}
use kcf_old.Io.OnFile.{io_seek-file, ended}
use native.Mathlib.Nat.{pow-suc}
use kcf_old.Record.{KcfRecord, added_size_field, added_data_crc32_field, flags_size, rec_fix}
use kcf_old.Record.Layout.{encode, payload}
use kcf_old.Kcf.{Kcf, ParserState, blank_record, stream_seek}
use kcf_old.Kcf.Read.Header.{at, drop-past}
use kcf_old.Kcf.Read.Chunks.{read_pieces, between, read_pieces-file}
use kcf_old.Kcf.Read.RoundTrip.{IsReadable, after_record, kcf_read_record-encode}
use kcf_old.Kcf.Write.OnFile.{fixed_flags}
use kcf_old.Kcf.Archive.{kcf_start_reading}
use kcf_old.Kcf.RoundTrip.{
  kcf_start_reading-file, fixed-IsReadable, stored-IsReadable, fixed_added_size,
}
use kcf_old.Kcf.Items.{
  Item, IsStorable, AllStorable, archive_bytes, added_of, stored_of, seen, contents, write_items,
  read_items,
}
use kcf_old.Kcf.Items.Written.{idle, idle_at, write_items-file}

got_item :
    (env : Env) (i : Item)
    → (
      record (stored_of env i) {
        bytes = some (payload (stored_of env i).bytes);
        data_size = length (payload (stored_of env i).bytes);
      },
      added_of i,
    )
      ≡ seen env i
unfolding rec_fix
got_item env i = refl

some_values : (n : ℕ) → 0 < 256 ^ n
some_values zero = omega arith
some_values (suc n) = omega (arith, pow-suc 256 n, some_values n)

item-IsReadable :
    (env : Env) → CrcLaws env → (i : Item) → IsStorable i → IsReadable (stored_of env i)
item-IsReadable env laws i good = elim (good.kind) [
  | inl has ↦
      stored-IsReadable env laws i.described (added_of i) good.full good.fits good.type_u8
        good.flags_u8 has.some_crc has.data_fits
  | inr plain ↦
      fixed-IsReadable env
        (record (i.described) {
          added_size = length (added_of i);
          added_data_crc32 = env.crc32c 0 (added_of i);
        })
        good.full good.fits good.type_u8 good.flags_u8
        (rw plain.no_chunks (some_values (added_size_field i.described.head_flags)))
        (rw (plain.no_chunks, laws.crc32c-nil)
          (some_values (added_data_crc32_field i.described.head_flags)))
]

-- Every item's added data is got in at most `fuel` calls.
abbrev pub AllWithin : ℕ → List Item → Type 0
AllWithin fuel [] = Unit
AllWithin fuel (i ∷ items) = (length (added_of i) < fuel) × AllWithin fuel items

module _ (env : Env) (laws : CrcLaws env) (alloc : AlwaysAllocates env) (f : File) (fl : ℕ)
    (can : f.can_read ≡ true) (buffer : List ℕ) (size : ℕ) (some_room : 0 < size)
    (room : size ≤ length buffer) where
  -- The archive that expects a record at `p`.
  abbrev pub expecting : Kcf File → ℕ → Kcf File
  expecting k p = at (record k { parser_state = ParserState.read_record_header }) f fl p

  record-ready :
      (k : Kcf File) (p : ℕ) (i : Item)
      → IsStorable i
      → at (after_record k (stored_of env i)) f fl p
        ≡ between env (after_record k (stored_of env i)) f fl p [] (length (added_of i))
  record-ready k p i good =
      let described = record (i.described) {
        added_size = length (added_of i);
        added_data_crc32 = env.crc32c 0 (added_of i);
      } in
      elim (good.kind) [
        | inl has ↦
            rw
              (
                ap flags_size (fixed_flags env described) ∙ has.some_size,
                fixed_added_size env described,
                laws.crc32c-nil,
                ne→==_false (length (added_of i)) 0 (omega (arith, has.some_data)),
              )
              refl
        | inr plain ↦
            rw
              (
                ap flags_size (fixed_flags env described) ∙ plain.no_size,
                fixed_added_size env described,
                plain.no_chunks,
                laws.crc32c-nil,
              )
              refl
      ]

  read_items-file :
      (items : List Item) (k : Kcf File) (p fuel : ℕ) (post : List ℕ)
      → AllStorable items
      → AllWithin fuel items
      → p + length (archive_bytes env items) < 2 ^ 61
      → drop p f.content ≡ archive_bytes env items ++ post
      → (k' : Kcf File) × (read_items env buffer size fuel (length items) (expecting k p)
          ≡ ok (contents env items) (expecting k' (p + length (archive_bytes env items))))
  unfolding read_items
  read_items-file [] k p fuel post good within small there =
      let same : p + 0 ≡ p = omega arith in (k, rw same refl)
  read_items-file (i ∷ items) k p fuel post good within small there =
      let r = stored_of env i in
      let added = added_of i in
      let rest = archive_bytes env items in
      let (block, got, fit) = alloc k.mallocs (length (payload r.bytes)) in
      let q = p + length (encode r) in
      let there' : drop p f.content ≡ encode r ++ (added ++ (rest ++ post)) =
        there ∙ simp append_assoc refl in
      let behind : drop q f.content ≡ added ++ (rest ++ post) =
        drop-past p (length (encode r)) f.content (encode r) (added ++ (rest ++ post)) there'
          refl in
      let last : drop (q + length added) f.content ≡ rest ++ post =
        drop-past q (length added) f.content added (rest ++ post) behind refl in
      let total : length (archive_bytes env (i ∷ items))
          ≡ length (encode r) + length added + length rest =
        length-append (encode r ++ added) rest ∙ omega (arith, length-append (encode r) added) in
      let far : q + length added + length rest ≡ p + length (archive_bytes env (i ∷ items)) =
        omega (arith, total) in
      let k1 = after_record k r in
      let k2 = record k1 {
        added_data_total = 0;
        added_data_done = length added;
        actual_added_data_crc32 = env.crc32c 0 added;
      } in
      let (k', others) =
        read_items-file items k2 (q + length added) fuel post good.1 within.1 (omega (arith, total))
          last in
      (
        k',
        rw
            (
              kcf_read_record-encode env k f fl p r blank_record (added ++ (rest ++ post)) block can
                  (item-IsReadable env laws i good.0) there' got fit,
              ap (read_pieces env buffer size fuel) (record-ready k q i good.0)
                  ∙ read_pieces-file env laws k1 f fl can fuel q [] added (rest ++ post) buffer size
                      within.0 some_room room (omega (arith, total)) behind,
              others,
              got_item env i,
              far,
            )
            refl,
      )

-- What a client does to read the list that begins at `p`.
abbrev pub read_from :
    {S : Type 0} → Env → ℕ → List ℕ → ℕ → ℕ → ℕ → Action (Kcf S) (List (KcfRecord × List ℕ))
read_from env p buffer size fuel n =
    kcf_start_reading env
    >> (stream_seek (pos p) seek_set >>= λ ret. read_items env buffer size fuel n)

module _ (env : Env) (laws : CrcLaws env) (alloc : AlwaysAllocates env) (k : Kcf File) (f : File)
    (fl : ℕ) (can_write : f.can_write ≡ true) (can_read : f.can_read ≡ true) where
  -- An archive is a list of records with their added data: writing a list, each record with added
  -- data in a session of its own, the data in chunks, and each other record by one call, then
  -- `kcf_start_reading`, seeking back and reading as many records, each with its added data
  -- through a buffer of any size, gives the same list, in order and with every byte of added
  -- data; each record with added data carries the size and the CRC32C of it, and the archive ends
  -- behind the last record, ready for the next. Conditions: the file can be read and written and
  -- is positioned at its end, the archive is ready for a record and everything that it keeps of
  -- added data is reset (LastRecord is blank, and WrittenAddedData, AddedDataCRC32, the announced
  -- size, the end offset and both flags are 0), as `kcf_finish_added_data` leaves it but not as
  -- reading added data does, malloc never fails, the CRC can be computed a chunk at a time, every
  -- record of the list has in-range fields, DataSize bytes of data and less than 65536 bytes, and
  -- either asks for the size and the CRC of its added data, which is not empty and fits
  -- AddedSize, or asks for neither, has no added data and 0 in AddedDataCRC32; the added data of
  -- each has fewer bytes than there is fuel, the buffer has at least the size that is asked for,
  -- which is not 0, and the file stays below 2^61 bytes.
  pub read_from-write_items :
      (pre : List ℕ) (items : List Item) (buffer : List ℕ) (size fuel : ℕ)
      → AllStorable items
      → AllWithin fuel items
      → 0 < size
      → size ≤ length buffer
      → length pre + length (archive_bytes env items) < 2 ^ 61
      → (k' : Kcf File) × ((write_items env items
              >> read_from env (length pre) buffer size fuel (length items))
            (idle k f fl pre)
          ≡ ok (contents env items) (
              at
                (record k' { parser_state = ParserState.read_record_header })
                (ended f (pre ++ archive_bytes env items))
                fl
                (length (pre ++ archive_bytes env items))))
  read_from-write_items pre items buffer size fuel good within some_room room small =
      let bytes = archive_bytes env items in
      let whole = ended f (pre ++ bytes) in
      let (m, o, wrote) =
        write_items-file env laws alloc k f fl can_write items k.mallocs k.record_offset pre good
          small in
      let k1 = idle_at k f fl m o (pre ++ bytes) in
      let there : drop (length pre) whole.content ≡ bytes ++ [] =
        drop-append pre bytes ∙ sym (append-nil bytes) in
      let (k', got) =
        read_items-file env laws alloc whole fl can_read buffer size some_room room items k1
          (length pre) fuel [] good within small there in
      (
        k',
        rw
            (
              wrote,
              kcf_start_reading-file env k1 whole fl,
              io_seek-file whole fl (length pre),
              got,
              length-append pre bytes,
            )
            refl,
      )
