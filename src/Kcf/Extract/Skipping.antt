-- ===== src/Kcf/Extract/Skipping.antt =====
-- `KCF_skip_file` on a file whose data is skipped.
use kcf_old.Base.{
  ℕ, suc, ◌+◌, ◌*◌, ◌^◌, ◌≤◌, ◌<◌, ◌≡◌, refl, ap, arith, true, false, List, ◌++◌, length, drop,
  length-append, length-drop, some,
}
use kcf_old.Env.{Env}
use kcf_old.Errors.{invalid_state}
use kcf_old.Action.{ok, fail}
use kcf_old.Io.Stdio.{File}
use kcf_old.Record.{KcfRecord, flags_size}
use kcf_old.Record.Layout.{encode, payload}
use kcf_old.Kcf.{Kcf, ParserState, blank_record, upstate_file_header, upstate_file_data}
use kcf_old.Kcf.Read.{kcf_read_record}
use kcf_old.Kcf.Read.Header.{at, drop-past}
use kcf_old.Kcf.Read.RoundTrip.{IsReadable, after_record, kcf_read_record-encode}
use kcf_old.Kcf.Read.Skipped.{kcf_skip_record-skips}
use kcf_old.Kcf.Extract.{continues, kcf_skip_file, skip_file_loop}

-- The archive before a file, and behind a file that has been skipped.
abbrev pub before_file : Kcf File → Kcf File
before_file k = record k {
  parser_state = ParserState.read_record_header;
  is_writing = false;
  stage = upstate_file_header;
}

abbrev pub skipped : Kcf File → KcfRecord → Kcf File
skipped k r = record (after_record (before_file k) r) { parser_state = ParserState.read_added_data }

inside :
    (p : ℕ) (c added post : List ℕ)
    → drop p c ≡ added ++ post
    → 0 < length added
    → p + length added ≤ length c
inside p c added post there some_data =
    omega (arith, ap length there, length-append added post, length-drop p c)

module _ (env : Env) (k : Kcf File) (f : File) (fl : ℕ) (can : f.can_read ≡ true) (p : ℕ)
    (r : KcfRecord) (added post block : List ℕ) (fuel : ℕ) where
  kcf_skip_file-moves :
      IsReadable r
      → flags_size r.head_flags ≡ true
      → continues r ≡ false
      → drop p f.content ≡ encode r ++ (added ++ post)
      → r.added_size ≡ length added
      → 0 < length added
      → length added < 2 ^ 63
      → length added ≤ 4096 * suc fuel
      → env.malloc k.mallocs (length (payload r.bytes)) ≡ some block
      → length block ≡ length (payload r.bytes)
      → kcf_skip_file env (suc (suc fuel)) true (at (before_file k) f fl p)
        ≡ ok tt (at (skipped k r) f fl (p + length (encode r) + r.added_size))
  unfolding kcf_skip_file skip_file_loop
  kcf_skip_file-moves good sized last there known some_data small enough got room =
      let behind : drop (p + length (encode r)) f.content ≡ added ++ post =
        drop-past p (length (encode r)) f.content (encode r) (added ++ post) there refl in
      let q = p + length (encode r) in
      rw
        (
          kcf_read_record-encode env (before_file k) f fl p r blank_record (added ++ post) block can
              good there got room,
          sized,
          kcf_skip_record-skips
              (record (after_record (before_file k) r) { stage = upstate_file_data }) f fl can fuel
              r.added_size q (omega (arith, inside q f.content added post behind some_data, known))
              (omega (arith, known)) (omega (arith, known)),
          last,
        )
        refl

module _ (env : Env) (k : Kcf File) (f : File) (fl q : ℕ) (r : KcfRecord) where
  read_record_stuck :
      (next : KcfRecord)
      → kcf_read_record env true (at (skipped k r) f fl q, next)
        ≡ fail invalid_state (at (skipped k r) f fl q, next)
  unfolding kcf_read_record
  read_record_stuck next = refl

  skip_file_stuck :
      (rounds : ℕ)
      → kcf_skip_file env (suc rounds) true (at (skipped k r) f fl q)
        ≡ fail invalid_state (at (skipped k r) f fl q)
  unfolding kcf_skip_file skip_file_loop
  skip_file_stuck rounds = rw (read_record_stuck blank_record) refl

module _ (env : Env) (k : Kcf File) (f : File) (fl : ℕ) (can : f.can_read ≡ true) (p : ℕ)
    (r : KcfRecord) (added post block : List ℕ) (fuel : ℕ) where
  abbrev pub behind_file : Kcf File
  behind_file = at (skipped k r) f fl (p + length (encode r) + r.added_size)

  -- `kcf_skip_file` on a file of one record with added data returns KCF_ERROR_OK with the stream
  -- exactly behind the added data, and leaves an archive that is of no more use: every
  -- `kcf_read_record` and every further `kcf_skip_file` is refused with KCF_ERROR_INVALID_STATE
  -- and changes nothing. Conditions: the archive expects a record and a file header, the file can
  -- be read and holds the record's bytes and its added data, which is not empty and of less than
  -- 2^63 bytes, the record's fields fit and its flags announce an AddedSize and no further
  -- record, malloc gives the block for the record's data, and there is fuel for a round for every
  -- 4096 bytes.
  pub kcf_skip_file-stuck :
      IsReadable r
      → flags_size r.head_flags ≡ true
      → continues r ≡ false
      → drop p f.content ≡ encode r ++ (added ++ post)
      → r.added_size ≡ length added
      → 0 < length added
      → length added < 2 ^ 63
      → length added ≤ 4096 * suc fuel
      → env.malloc k.mallocs (length (payload r.bytes)) ≡ some block
      → length block ≡ length (payload r.bytes)
      → (kcf_skip_file env (suc (suc fuel)) true (at (before_file k) f fl p) ≡ ok tt behind_file)
        × ((next : KcfRecord)
            → kcf_read_record env true (behind_file, next) ≡ fail invalid_state (behind_file, next))
        × ((rounds : ℕ)
            → kcf_skip_file env (suc rounds) true behind_file ≡ fail invalid_state behind_file)
  kcf_skip_file-stuck good sized last there known some_data small enough got room =
      let q = p + length (encode r) + r.added_size in
      (
        kcf_skip_file-moves env k f fl can p r added post block fuel good sized last there known
            some_data small enough got room,
        read_record_stuck env k f fl q r,
        skip_file_stuck env k f fl q r,
      )
