-- ===== src/Io/Fd/Loops.antt =====
-- The loops of `_fd_read` and `_fd_write` where size_t has 4 bytes, over a regular file.
use kcf_old.Base.{
  ℕ, ◌+◌, ◌*◌, ◌≤◌, ◌<◌, ◌≡◌, refl, ap, ◌∙◌, arith, true, List, [], ◌++◌, length, take, drop, some,
  pos, length-take, length-drop, ltb_ℤ, append_assoc, append-nil, sym,
}
use kcf_old.Io.Stdio.{File}
use kcf_old.Io.Posix.{Descriptor, regular_posix}
use kcf_old.Io.Chunks.{chunk_size, int32_max, Round, chunked_write}
use kcf_old.Io.Chunks.Whole.{chunked_read-whole, chunked_write-whole}
use kcf_old.Io.Fd.{fd_read, fd_write, fd_read_round, fd_write_round}
use kcf_old.Io.OnFile.{ended, appended}

abbrev pub descriptor_at : File → ℕ → Descriptor
descriptor_at f p = Descriptor.opened (record f { position = p })

pub large_size : (n : ℕ) → int32_max < n → ltb_ℤ (pos int32_max) (pos n) ≡ true
large_size n large = ground arith

module _ (f : File) (can : f.can_read ≡ true) where
  pub fd_read-whole :
      (fuel p n : ℕ)
      → int32_max < n
      → n ≤ fuel * chunk_size
      → p + n ≤ length f.content
      → fd_read regular_posix true fuel (descriptor_at f p) (pos n)
        ≡ some (pos n, take n (drop p f.content), descriptor_at f (p + n))
  unfolding fd_read
  fd_read-whole fuel p n large enough inside =
      let none_before : 0 + n ≡ n = omega arith in
      let answers : (q m : ℕ)
          → q + m ≤ length f.content
          → fd_read_round regular_posix (descriptor_at f q) m
            ≡ Round.moved (take m (drop q f.content)) (descriptor_at f (q + m)) =
        λ q m fits.
          let count : length (take m (drop q f.content)) ≡ m =
            length-take m (drop q f.content) ∙ omega (arith, length-drop q f.content) in
          rw (can, count) refl in
      rw
        (
          large_size n large,
          chunked_read-whole f.content (descriptor_at f) (fd_read_round regular_posix) answers fuel
              p n [] (omega arith) enough inside,
          none_before,
        )
        refl

pub fd_write-whole :
    (f : File)
    → f.can_write ≡ true
    → (fuel : ℕ) (pre bs : List ℕ) → int32_max < length bs
    → length bs ≤ fuel * chunk_size
    → fd_write regular_posix true fuel (Descriptor.opened (ended f pre)) bs (pos (length bs))
      ≡ some (pos (length bs), Descriptor.opened (ended f (pre ++ bs)))
unfolding fd_write
fd_write-whole f can fuel pre bs large enough =
    let none_before : 0 + length bs ≡ length bs = omega arith in
    let takes : (done xs : List ℕ)
        → 0 < length xs
        → fd_write_round regular_posix (Descriptor.opened (ended f (pre ++ done))) xs
          ≡ Round.moved (length xs) (Descriptor.opened (ended f (pre ++ (done ++ xs)))) =
      λ done xs some_bytes.
        rw (can, appended (record f { can_write = true }) (pre ++ done) xs, append_assoc) refl in
    rw
      (
        large_size (length bs) large,
        ap
              (λ c.
                chunked_write (fd_write_round regular_posix) fuel (Descriptor.opened (ended f c)) bs
                  (length bs) 0)
              (sym (append-nil pre))
            ∙ chunked_write-whole (λ done. Descriptor.opened (ended f (pre ++ done)))
                (fd_write_round regular_posix) takes fuel (length bs) 0 [] bs refl (omega arith)
                enough,
        none_before,
      )
      refl
