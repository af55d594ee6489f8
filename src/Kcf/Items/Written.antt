-- ===== src/Kcf/Items/Written.antt =====
-- Writing a list of records appends the bytes that stand for it.
use kcf_old.Base.{
  ℕ, ◌+◌, ◌^◌, ◌<◌, ◌≡◌, refl, sym, ap, ◌∙◌, arith, true, false, List, [], ◌∷◌, ◌++◌, length,
  append_assoc, append-nil, length-append, inl, inr,
}
use kcf_old.Env.{Env, CrcLaws, AlwaysAllocates}
use kcf_old.Action.{ok}
use kcf_old.Io.Stdio.{File}
use kcf_old.Io.OnFile.{file_stream, ended, written-ended}
use kcf_old.Record.{rec_fix}
use kcf_old.Record.Layout.{encode}
use kcf_old.Kcf.{Kcf, ParserState, blank_record}
use kcf_old.Kcf.Write.Finish.{stored_in}
use kcf_old.Kcf.Write.OnFile.{kcf_write_record-file}
use kcf_old.Kcf.Write.RoundTrip.{write_session-file}
use kcf_old.Kcf.RoundTrip.{final-stored}
use kcf_old.Kcf.Items.{
  Item, HasData, IsPlain, IsStorable, AllStorable, archive_bytes, added_of, stored_of, write_item,
  write_items,
}

-- The archive between two records, over the file that holds `xs`.
abbrev pub idle : Kcf File → File → ℕ → List ℕ → Kcf File
idle k f fl xs = record k {
  stream = file_stream (ended f xs) fl;
  parser_state = ParserState.write_record;
  last_record = blank_record;
  record_end_offset = 0;
  added_data_total = 0;
  added_data_done = 0;
  added_data_crc32 = 0;
  has_added_data_crc32 = false;
  has_added_size = false;
}

-- The same when `m` blocks have been asked for and the record before began at `o`.
abbrev pub idle_at : Kcf File → File → ℕ → ℕ → ℕ → List ℕ → Kcf File
idle_at k f fl m o xs = idle (record k { mallocs = m; record_offset = o }) f fl xs

module _ (env : Env) (laws : CrcLaws env) (alloc : AlwaysAllocates env) (k : Kcf File) (f : File)
    (fl : ℕ) (can : f.can_write ≡ true) where
  write_with_data :
      (m o : ℕ) (pre : List ℕ) (i : Item)
      → IsStorable i
      → HasData i
      → length pre + length (encode (stored_of env i) ++ added_of i) < 2 ^ 61
      → write_item env i (idle_at k f fl m o pre, record (i.described) { added_size = 0 })
        ≡ ok tt (
          idle_at k f fl (m + 2 + 1) 0 (pre ++ (encode (stored_of env i) ++ added_of i)),
          rec_fix env (record (i.described) { added_size = 0 }),
        )
  write_with_data m o pre i good has small = rw has.some_size (
      write_session-file env laws alloc (idle_at k f fl m o pre) f fl can pre i.described i.chunks
        good.full good.fits has.some_size has.some_crc
        (omega (arith, length-append (encode (stored_of env i)) (added_of i)))
      ∙ ap
          (λ x. ok tt (
            stored_in (idle_at k f fl (m + 2) o pre) f fl pre x (added_of i),
            rec_fix env (record (i.described) { added_size = 0 }),
          ))
          (final-stored env i.described (added_of i)))

  -- A record without added data is stored as it is given.
  plain_stored :
      (i : Item)
      → IsPlain i
      → encode (stored_of env i) ++ added_of i
        ≡ encode (rec_fix env (record (i.described) { added_size = 0 }))
  plain_stored i plain =
      rw (plain.no_chunks, append-nil, laws.crc32c-nil)
        (ap
          (λ c.
            encode (rec_fix env (record (i.described) { added_size = 0; added_data_crc32 = c })))
          (sym plain.zero_crc))

  write_plain :
      (m o : ℕ) (pre : List ℕ) (i : Item)
      → IsStorable i
      → IsPlain i
      → write_item env i (idle_at k f fl m o pre, record (i.described) { added_size = 0 })
        ≡ ok tt (
          idle_at k f fl (m + 1) (length pre) (pre ++ (encode (stored_of env i) ++ added_of i)),
          rec_fix env (record (i.described) { added_size = 0 }),
        )
  write_plain m o pre i good plain =
      let r = record (i.described) { added_size = 0 } in
      let (block, got, room) = alloc m (rec_fix env r).head_size in
      rw (plain.no_size, plain_stored i plain)
        (kcf_write_record-file (idle_at k f fl m o pre) (ended f pre) fl can (omega arith) env r
            block good.full good.fits got room
          ∙ rw (plain.no_size, plain.no_crc, written-ended f pre (encode (rec_fix env r))) refl)

  write_item-file :
      (m o : ℕ) (pre : List ℕ) (i : Item)
      → IsStorable i
      → length pre + length (encode (stored_of env i) ++ added_of i) < 2 ^ 61
      → (m' o' : ℕ) × (write_item env i
            (idle_at k f fl m o pre, record (i.described) { added_size = 0 })
          ≡ ok tt (
            idle_at k f fl m' o' (pre ++ (encode (stored_of env i) ++ added_of i)),
            rec_fix env (record (i.described) { added_size = 0 }),
          ))
  write_item-file m o pre i good small = elim (good.kind) [
    | inl has ↦ (m + 2 + 1, 0, write_with_data m o pre i good has small)
    | inr plain ↦ (m + 1, length pre, write_plain m o pre i good plain)
  ]

  pub write_items-file :
      (items : List Item) (m o : ℕ) (pre : List ℕ)
      → AllStorable items
      → length pre + length (archive_bytes env items) < 2 ^ 61
      → (m' o' : ℕ) × (write_items env items (idle_at k f fl m o pre)
          ≡ ok tt (idle_at k f fl m' o' (pre ++ archive_bytes env items)))
  unfolding write_items
  write_items-file [] m o pre good small = (m, o, rw append-nil refl)
  write_items-file (i ∷ items) m o pre good small =
      let bytes = encode (stored_of env i) ++ added_of i in
      let total = length-append bytes (archive_bytes env items) in
      let (m1, o1, first) = write_item-file m o pre i good.0 (omega arith) in
      let (m2, o2, others) =
        write_items-file items m1 o1 (pre ++ bytes) good.1
          (omega (arith, length-append pre bytes)) in
      (m2, o2, rw (first, others, append_assoc pre bytes (archive_bytes env items)) refl)
