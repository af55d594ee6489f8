-- ===== src/Kcf/Write/Announced.antt =====
-- `KCF_write_added_data` where the record has announced the size of its added data.
use native.Mathlib.Decide.{dec_le}
use kcf_old.Base.{
  zero, suc, ℕ, ◌+◌, ◌-◌, ◌%◌, ◌^◌, ◌≤◌, ◌<◌, ◌≡◌, refl, sym, ap, ◌∙◌, arith, true, false, List, [],
  ◌∷◌, ◌++◌, length,
}
use kcf_old.Base.{
  append_assoc, append-nil, length-append, length-take, take-append-drop, take_all, le→ltb_false,
  take, drop, pos, to_int64-small, lt→ltb, ltb, ◌==◌, ne→==_false, if◌then◌else◌, take-append,
}
use kcf_old.Env.{Env, CrcLaws}
use kcf_old.Action.{ok}
use kcf_old.Io.{io_write}
use kcf_old.Io.Stdio.{File}
use kcf_old.Io.OnFile.{file_stream, io_write-file, io_write-front, ended, written-ended}
use kcf_old.Kcf.{Kcf, ParserState}
use kcf_old.Kcf.Write.{kcf_write_added_data, append_added_data}
use kcf_old.Kcf.Write.Session.{write_chunks, concat}

take-append_any :
    (n : ℕ) (xs ys : List ℕ) → take n (xs ++ ys) ≡ take n xs ++ take (n - length xs) ys
take-append_any zero xs ys = let none_left : 0 - length xs ≡ 0 = omega arith in rw none_left refl
take-append_any (suc n) [] ys = let same : suc n - 0 ≡ suc n = omega arith in rw same refl
take-append_any (suc n) (x ∷ xs) ys =
    let same : suc n - suc (length xs) ≡ n - length xs = omega arith in
    rw (same, take-append_any n xs ys) refl

-- The archive that has written `old` of `total` bytes of added data.
abbrev pub announced : Env → Kcf File → File → ℕ → List ℕ → List ℕ → ℕ → Kcf File
announced env k f fl xs old total = record k {
  stream = file_stream (ended f xs) fl;
  parser_state = ParserState.write_added_data;
  added_data_total = total;
  added_data_done = length old;
  added_data_crc32 = env.crc32c 0 old;
  has_added_data_crc32 = true;
}

module _ (env : Env) (laws : CrcLaws env) (k : Kcf File) (f : File) (fl : ℕ)
    (can : f.can_write ≡ true) where
  -- The front of a buffer is written.
  append_front :
      (xs old front tail : List ℕ) (total : ℕ)
      → length old + length front < 2 ^ 63
      → append_added_data env (front ++ tail) (length front) (announced env k f fl xs old total)
        ≡ ok tt (announced env k f fl (xs ++ front) (old ++ front) total)
  unfolding append_added_data
  append_front xs old front tail total small =
      let io : io_write (file_stream (ended f xs) fl) (front ++ tail) (pos (length front))
          ≡ (pos (length front), file_stream (ended f (xs ++ front)) fl) =
        io_write-front (ended f xs) fl front tail
        ∙ io_write-file (ended f xs) fl front can (omega arith)
        ∙ ap (λ g. (pos (length front), file_stream g fl)) (written-ended f xs front) in
      let count : (length old + length front) % 2 ^ 64 ≡ length (old ++ front) =
        omega (arith, length-append old front) in
      rw
        (
          le→ltb_false (length (front ++ tail)) (length front)
              (omega (arith, length-append front tail)),
          to_int64-small (length front) (omega arith),
          io,
          take-append,
          laws.crc32c-append 0 old front,
          count,
        )
        refl

  -- One call writes what the announced size still allows.
  kcf_write_added_data-announced :
      (xs old chunk : List ℕ) (total : ℕ)
      → 0 < total
      → length old ≤ total
      → total < 2 ^ 62
      → kcf_write_added_data env chunk (length chunk) (announced env k f fl xs old total)
        ≡ ok tt (
            announced env k f fl
              (xs ++ take (total - length old) chunk)
              (old ++ take (total - length old) chunk)
              total)
  unfolding kcf_write_added_data
  kcf_write_added_data-announced xs old chunk total some_total within small =
      let left : (total + 2 ^ 64 - length old) % 2 ^ 64 ≡ total - length old = omega arith in
      let known : ltb 0 total ≡ true = lt→ltb 0 total some_total in
      let room = total - length old in
      elim (dec_le total (length old)) [
        | yes full ↦
            (let none_left : room ≡ 0 = omega arith in
              rw (known, left, none_left, append-nil, append-nil) refl)
        | no more ↦
            (let some_room : (room == 0) ≡ false = ne→==_false room 0 (omega arith) in
              let count = length-take room chunk in
              let cut : (if ltb room (length chunk) then room else length chunk)
                  ≡ length (take room chunk) =
                ground arith in
              rw (known, left, some_room, cut)
                (ap
                    (λ bs.
                      append_added_data env bs (length (take room chunk))
                        (announced env k f fl xs old total))
                    (sym (take-append-drop room chunk))
                  ∙ append_front xs old (take room chunk) (drop room chunk) total (omega arith)))
      ]

  -- Where a record has announced the size of its added data, calls of `kcf_write_added_data` for
  -- any chunks write as many of their bytes, in order, as the announced size still allows, and no
  -- more: the file, WrittenAddedData and the CRC are those of the bytes that fit. Conditions: the
  -- archive is writing added data with a CRC, the announced size is not 0, below 2^62 and not
  -- exceeded yet, the file can be written and is positioned at its end, and the CRC can be
  -- computed a chunk at a time.
  pub write_chunks-announced :
      (chunks : List (List ℕ)) (xs old : List ℕ) (total : ℕ)
      → 0 < total
      → length old ≤ total
      → total < 2 ^ 62
      → write_chunks env chunks (announced env k f fl xs old total)
        ≡ ok tt (
            announced env k f fl
              (xs ++ take (total - length old) (concat chunks))
              (old ++ take (total - length old) (concat chunks))
              total)
  unfolding write_chunks
  write_chunks-announced [] xs old total some_total within small =
      let nothing : take {A = ℕ} (total - length old) [] ≡ [] =
        take_all (total - length old) [] (omega arith) in
      rw (nothing, append-nil, append-nil) refl
  write_chunks-announced (chunk ∷ chunks) xs old total some_total within small =
      let room = total - length old in
      let front = take room chunk in
      let count = length-take room chunk in
      let old_count = length-append old front in
      let joined : front ++ take (total - length (old ++ front)) (concat chunks)
          ≡ take room (chunk ++ concat chunks) =
        ap (λ n. front ++ take n (concat chunks))
          (let same : total - length (old ++ front) ≡ room - length chunk =
              omega (arith, old_count, count) in
            same)
        ∙ sym (take-append_any room chunk (concat chunks)) in
      rw
        (
          kcf_write_added_data-announced xs old chunk total some_total within small,
          write_chunks-announced chunks (xs ++ front) (old ++ front) total some_total (omega arith)
              small,
          append_assoc,
          append_assoc,
          joined,
        )
        refl
