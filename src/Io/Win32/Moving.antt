-- ===== src/Io/Win32/Moving.antt =====
-- `_w32_read` and `_w32_write` over a regular file, whatever the size.
use kcf_old.Base.{
  ℕ, zero, suc, ◌+◌, ◌%◌, ◌^◌, ◌<◌, ◌≡◌, refl, ap, sym, ◌∙◌, arith, true, List, [], ◌∷◌, ◌++◌,
  length, take, drop, some, pos, ltb_ℤ, Bool-cases, inl, inr, append_assoc, append-nil, take_all,
}
use kcf_old.Io.Stdio.{File}
use kcf_old.Io.OnFile.{ended, appended}
use kcf_old.Io.Chunks.{int32_max, Round, chunked_write}
use kcf_old.Io.Chunks.Whole.{chunked_write-whole}
use kcf_old.Io.Chunks.ToEnd.{chunked_read-to_end}
use kcf_old.Base.{ℤ}
use kcf_old.Io.Chunks.Ends.{Gives}
use kcf_old.Io.Win32.{
  Win32, w32_read-Gives, w32_write-Gives, w32_read, w32_write, w32_read_round, w32_write_round,
  read_round, write_round,
}
use kcf_old.Io.Win32.Regular.{Handle, regular_win32}

abbrev pub handle_at : File → ℕ → ℕ → Handle
handle_at f e p = Handle.opened (record f { position = p }) e

read_round-some :
    (bytes : List ℕ) (h : Handle)
    → 0 < length bytes
    → read_round regular_win32 (some bytes, h) ≡ Round.moved bytes h
read_round-some [] h some_bytes = absurd (omega arith)
read_round-some (x ∷ bytes) h some_bytes = refl

read_round-none :
    (bytes : List ℕ) (h : Handle)
    → length bytes ≡ 0
    → read_round regular_win32 (some bytes, h) ≡ Round.broken h
read_round-none [] h nothing = refl
read_round-none (x ∷ bytes) h nothing = absurd (omega arith)

module _ (f : File) (e : ℕ) (can : f.can_read ≡ true) where
  pub w32_read-file :
      (p n : ℕ)
      → w32_read regular_win32 (handle_at f e p) (pos n)
        ≡ some (
          pos (length (take n (drop p f.content))),
          take n (drop p f.content),
          handle_at f e (p + length (take n (drop p f.content))),
        )
  unfolding w32_read
  w32_read-file p n = elim (Bool-cases (ltb_ℤ (pos int32_max) (pos n))) [
    | inl large ↦ rw large (
        chunked_read-to_end f.content (handle_at f e) (w32_read_round regular_win32)
          (λ q m some_bytes. rw can (
            read_round-some (take m (drop q f.content))
              (handle_at (record f { can_read = true }) e (q + length (take m (drop q f.content))))
              some_bytes))
          (λ q m nothing. rw can (
            read_round-none (take m (drop q f.content))
              (handle_at (record f { can_read = true }) e (q + length (take m (drop q f.content))))
              nothing
            ∙ ap (λ a. Round.broken (handle_at (record f { can_read = true }) e a))
                (let same : q + length (take m (drop q f.content)) ≡ q = omega (arith, nothing) in
                  same)))
          (n + 1) p n [] (ground arith) (omega arith))
    | inr small ↦ (let whole : n % 2 ^ 32 ≡ n = ground arith in rw (small, whole, can) refl)
  ]

write_round-some :
    (n : ℕ) (h : Handle) → 0 < n → write_round regular_win32 (some n, h) ≡ Round.moved n h
write_round-some zero h some_bytes = absurd (omega arith)
write_round-some (suc n) h some_bytes = refl

pub w32_write-file :
    (f : File) (e : ℕ)
    → f.can_write ≡ true
    → (pre bs : List ℕ)
    → w32_write regular_win32 (Handle.opened (ended f pre) e) bs (pos (length bs))
      ≡ some (pos (length bs), Handle.opened (ended f (pre ++ bs)) e)
unfolding w32_write
w32_write-file f e can pre bs = elim (Bool-cases (ltb_ℤ (pos int32_max) (pos (length bs)))) [
  | inl large ↦
      (let none_before : 0 + length bs ≡ length bs = omega arith in
        let takes : (done xs : List ℕ)
            → 0 < length xs
            → w32_write_round regular_win32 (Handle.opened (ended f (pre ++ done)) e) xs
              ≡ Round.moved (length xs) (Handle.opened (ended f (pre ++ (done ++ xs))) e) =
          λ done xs some_bytes.
            rw (can, appended (record f { can_write = true }) (pre ++ done) xs, append_assoc)
              (write_round-some (length xs)
                (Handle.opened (ended (record f { can_write = true }) (pre ++ (done ++ xs))) e)
                some_bytes) in
        rw
          (
            large,
            ap
                  (λ c.
                    chunked_write (w32_write_round regular_win32) (length bs + 1)
                      (Handle.opened (ended f c) e) bs (length bs) 0)
                  (sym (append-nil pre))
                ∙ chunked_write-whole (λ done. Handle.opened (ended f (pre ++ done)) e)
                    (w32_write_round regular_win32) takes (length bs + 1) (length bs) 0 [] bs refl
                    (ground arith) (omega arith),
            none_before,
          )
          refl)
  | inr small ↦
      (let whole : length bs % 2 ^ 32 ≡ length bs = ground arith in
        rw
          (
            small,
            whole,
            take_all (length bs) bs (omega arith),
            can,
            appended (record f { can_write = true }) pre bs,
          )
          refl)
]

-- On a regular file that can be read and written `_w32_read` gives the bytes that one read of the
-- whole size would, up to the file's end, and moves past them, and `_w32_write` at the file's end
-- appends the whole buffer, for every size: also where they move the bytes in pieces of
-- CHUNK_SIZE.
pub w32_read-w32_write :
    (f : File) (e p n : ℕ) (pre bs : List ℕ)
    → f.can_read ≡ true
    → f.can_write ≡ true
    → (w32_read regular_win32 (handle_at f e p) (pos n)
        ≡ some (
          pos (length (take n (drop p f.content))),
          take n (drop p f.content),
          handle_at f e (p + length (take n (drop p f.content))),
        ))
      × (w32_write regular_win32 (Handle.opened (ended f pre) e) bs (pos (length bs))
          ≡ some (pos (length bs), Handle.opened (ended f (pre ++ bs)) e))
w32_read-w32_write f e p n pre bs can_read can_write =
    (w32_read-file f e can_read p n, w32_write-file f e can_write pre bs)

-- `_w32_read` and `_w32_write` end with a result for every size, whatever ReadFile and WriteFile
-- do: their loops take no more rounds than there are bytes to move and one.
pub w32_loops-Gives :
    {H : Type 0} (w : Win32 H) (h : H) (buffer : List ℕ) (size : ℤ)
    → Gives (w32_read w h size) × Gives (w32_write w h buffer size)
w32_loops-Gives w h buffer size = (w32_read-Gives w h size, w32_write-Gives w h buffer size)
