-- ===== src/Kcf/Reach/Moving.antt =====
-- The calls that an archive without records accepts, and the refusals of its marker: whatever they
-- return, they keep it without records.
use kcf_old.Base.{ℕ, zero, suc, ◌+◌, ◌≡◌, arith, Bool, true, Option, some, pos, not, ◌||◌, ◌==◌}
use kcf_old.Env.{Env}
use kcf_old.Errors.{invalid_state, invalid_parameter}
use kcf_old.Io.{Io, io_read}
use kcf_old.Record.{KcfRecord}
use kcf_old.Action.{Action, ◌>>=◌, with_local, fail, fail_if, from_outcome}
use kcf_old.Action.Keeping.{
  Keeps, Keeps-ok, Keeps-fail, Keeps-refused, Keeps-if, Keeps-bind, Keeps-fail_if, Keeps-diverged,
  Keeps-from_outcome,
}
use kcf_old.ArchiveHeader.{rec_from_archive_header}
use kcf_old.Kcf.{Kcf, ParserState, blank_record}
use kcf_old.Kcf.Write.{kcf_write_archive_header}
use kcf_old.Kcf.Marker.{Window, empty_window, shift, kcf_find_marker, find_loop, kcf_write_marker}
use kcf_old.Kcf.Archive.{
  kcf_start_reading, kcf_start_writing, kcf_init_archive, start_marker, start_reading_from,
  start_writing_from,
}
use kcf_old.Kcf.Extract.{kcf_skip_file, skip_file_loop}
use kcf_old.Kcf.Reach.{BeforeRecords, IsInert}
use kcf_old.Kcf.Reach.Refusals.{read_record_refused}
use kcf_old.Kcf.Reach.Refusals.{write_record_refused}
use kcf_old.Kcf.Reach.Refusals.{}

with_stream :
    {S : Type 0} (k : Kcf S) (stream : Option (Io S))
    → IsInert k
    → IsInert (record k { stream = stream })
with_stream k stream h = record {
  not_writing = h.not_writing;
  no_stage = h.no_stage;
  before_records = h.before_records;
}

module _ {S : Type 0} (env : Env) (k : Kcf S) (inert : IsInert k) where
  pub write_marker_refused : kcf_write_marker env k ≡ fail invalid_state k
  unfolding kcf_write_marker
  write_marker_refused = ground arith

  pub start_marker_refused :
      start_marker env k ≡ fail invalid_state (record k { parser_state = ParserState.write_marker })
  unfolding start_marker kcf_write_marker
  start_marker_refused = ground arith

  moved : (p : ParserState) → BeforeRecords p → IsInert (record k { parser_state = p })
  moved p b = record {
    not_writing = inert.not_writing;
    no_stage = inert.no_stage;
    before_records = b;
  }

  start_marker-Keeps : Keeps IsInert (start_marker env k)
  start_marker-Keeps =
      Keeps-refused IsInert start_marker_refused (moved ParserState.write_marker tt)

  start_reading_from-Keeps :
      (p : ParserState) → BeforeRecords p → Keeps IsInert (start_reading_from env p k)
  unfolding start_reading_from
  start_reading_from-Keeps ParserState.neutral b =
      Keeps-ok IsInert (moved ParserState.read_marker tt)
  start_reading_from-Keeps ParserState.reading b =
      Keeps-ok IsInert (moved ParserState.read_marker tt)
  start_reading_from-Keeps ParserState.read_marker b = Keeps-ok IsInert inert
  start_reading_from-Keeps ParserState.write_marker b =
      Keeps-ok IsInert (moved ParserState.reading tt)
  start_reading_from-Keeps _ b = absurd b

  start_writing_from-Keeps :
      (p : ParserState) → BeforeRecords p → Keeps IsInert (start_writing_from env p k)
  unfolding start_writing_from
  start_writing_from-Keeps ParserState.neutral b = start_marker-Keeps
  start_writing_from-Keeps ParserState.reading b = start_marker-Keeps
  start_writing_from-Keeps ParserState.read_marker b = start_marker-Keeps
  start_writing_from-Keeps ParserState.write_marker b = Keeps-ok IsInert inert
  start_writing_from-Keeps _ b = absurd b

  pub start_writing-Keeps : Keeps IsInert (kcf_start_writing env k)
  unfolding kcf_start_writing
  start_writing-Keeps = start_writing_from-Keeps k.parser_state inert.before_records

find_loop-Keeps :
    {S : Type 0} (fuel : ℕ) (w : Window) (k : Kcf S)
    → IsInert k
    → Keeps IsInert (find_loop fuel w k)
unfolding find_loop
find_loop-Keeps zero w k h = Keeps-diverged IsInert
find_loop-Keeps (suc fuel) w k h =
    let r = io_read k.stream (pos 1) in
    let h' = with_stream k r.2 h in
    Keeps-if IsInert _ (Keeps-ok IsInert h) (
      Keeps-if IsInert _ (find_loop-Keeps fuel (shift w r.1) (record k { stream = r.2 }) h')
        (Keeps-if IsInert _ (Keeps-fail IsInert h') (Keeps-fail IsInert h')))

module _ {S : Type 0} (env : Env) (k : Kcf S) (inert : IsInert k) where
  pub find_marker-Keeps : (fuel : ℕ) → Keeps IsInert (kcf_find_marker env fuel k)
  unfolding kcf_find_marker
  find_marker-Keeps fuel =
      let test = k.is_writing || not (k.reader_state == env.missing.rdstate_marker) in
      Keeps-bind IsInert (fail_if test invalid_state k) _
        (Keeps-fail_if IsInert test invalid_state inert)
        λ u t h.
          Keeps-bind IsInert (find_loop fuel empty_window t) _
            (find_loop-Keeps fuel empty_window t h)
            λ v t' h'. Keeps-ok IsInert (record {
              not_writing = h'.not_writing;
              no_stage = h'.no_stage;
              before_records = h'.before_records;
            })

  pub write_archive_header-Keeps : Keeps IsInert (kcf_write_archive_header env k)
  unfolding kcf_write_archive_header
  write_archive_header-Keeps =
      Keeps-bind IsInert
        (from_outcome
          (rec_from_archive_header env k.mallocs (some (record { archive_version = 1 }))
            blank_record)
          k)
        _ (Keeps-from_outcome IsInert _ inert)
        λ p t h.
          let t' = record t { mallocs = t.mallocs + 1 } in
          let h' : IsInert t' = record {
            not_writing = h.not_writing;
            no_stage = h.no_stage;
            before_records = h.before_records;
          } in
          rw (write_record_refused env t' h'.before_records p.1) (Keeps-fail IsInert h')

-- The loop of `KCF_skip_file` stops at its first record, whatever follows it.
skip_loop_stops :
    {S A : Type 0} (env : Env) (f : Unit {0} × KcfRecord → Action (Kcf S) A) (k : Kcf S)
    → IsInert k
    → (fuel : ℕ) → Keeps IsInert ((with_local blank_record (skip_file_loop env fuel) >>= f) k)
unfolding skip_file_loop
skip_loop_stops env f k h zero = Keeps-diverged IsInert
skip_loop_stops env f k h (suc fuel) =
    rw (read_record_refused env k h.before_records true blank_record) (Keeps-fail IsInert h)

module _ {S : Type 0} (env : Env) (k : Kcf S) (inert : IsInert k) where
  pub init_archive-Keeps : Keeps IsInert (kcf_init_archive env k)
  unfolding kcf_init_archive
  init_archive-Keeps =
      Keeps-bind IsInert (kcf_start_writing env k) _ (start_writing-Keeps env k inert)
        λ u t h. write_archive_header-Keeps env t h

  pub skip_file-Keeps :
      (fuel : ℕ) (nonnull : Bool) → Keeps IsInert (kcf_skip_file env fuel nonnull k)
  unfolding kcf_skip_file
  skip_file-Keeps fuel nonnull =
      Keeps-bind IsInert (fail_if (not nonnull) invalid_parameter k) _
        (Keeps-fail_if IsInert (not nonnull) invalid_parameter inert)
        λ u t h.
          Keeps-bind IsInert (fail_if t.is_writing invalid_state t) _
            (Keeps-fail_if IsInert t.is_writing invalid_state h)
            λ u' t' h'. skip_loop_stops env _ t' h' fuel

  pub start_reading-Keeps : Keeps IsInert (kcf_start_reading env k)
  unfolding kcf_start_reading
  start_reading-Keeps = start_reading_from-Keeps env k inert k.parser_state inert.before_records
