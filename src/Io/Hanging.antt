-- ===== src/Io/Hanging.antt =====
-- The loops of `_cfile_read` and `_fd_read` where size_t has 4 bytes, past the end of a file.
use kcf_old.Base.{ℕ, ◌+◌, ◌<◌, ◌≡◌, refl, arith, true, false, length, none, pos, []}
use kcf_old.Io.Stdio.{File, fread}
use kcf_old.Io.CFile.{cfile_read_4, cfile_read_round}
use kcf_old.Io.Posix.{regular_posix}
use kcf_old.Io.Chunks.{int32_max}
use kcf_old.Io.Chunks.Ends.{chunked_read-hangs}
use kcf_old.Io.Fd.{fd_read, fd_read_round}
use kcf_old.Io.Fd.Loops.{descriptor_at, large_size}

-- Where size_t has 4 bytes, or for `_fd_read` _WIN32 is defined, the loops of `_fd_read` and
-- `_cfile_read` do not end, whatever the number of rounds, if more than INT32_MAX bytes are asked
-- for and the file ends before. Conditions: the file can be read, and its error indicator is not
-- set.
pub reads_past_end-hang :
    (f : File) (p n fuel fuel' : ℕ)
    → f.can_read ≡ true
    → f.error ≡ false
    → int32_max < n
    → length f.content < p + n
    → (fd_read regular_posix true fuel (descriptor_at f p) (pos n) ≡ none)
      × (cfile_read_4 fuel' (record f { position = p }) (pos n) ≡ none)
unfolding fd_read cfile_read_4 fread
reads_past_end-hang f p n fuel fuel' can good large past = (
  rw (large_size n large) (
      chunked_read-hangs f.content (descriptor_at f) (fd_read_round regular_posix)
        (λ q m. rw can refl) fuel p n [] (omega arith) past),
  rw (large_size n large) (
      chunked_read-hangs f.content (λ q. record f { position = q }) cfile_read_round
        (λ q m. rw (can, good) refl) fuel' p n [] (omega arith) past),
)
