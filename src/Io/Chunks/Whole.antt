-- ===== src/Io/Chunks/Whole.antt =====
-- The loops of Io/Chunks over a file with enough bytes, or over a sink that takes all.
use kcf_old.Base.{
  ℕ, zero, suc, ◌+◌, ◌-◌, ◌*◌, ◌≤◌, ◌<◌, ◌≡◌, refl, ap, ◌∙◌, arith, List, [], ◌∷◌, ◌++◌, length,
  take, drop,
}
use native.Mathlib.Decide.{dec_le}
use kcf_old.Base.{
  append_assoc, length-append, length-take, length-drop, drop-drop, take-append-drop, some, pos,
  ltb, lt→ltb, le→ltb_false, if◌then◌else◌, take_all,
}
use kcf_old.Io.Chunks.{chunk_size, next_chunk, Round, chunked_read, chunked_write}

pub take-append-take-drop :
    (m n : ℕ) (xs : List ℕ) → take m xs ++ take n (drop m xs) ≡ take (m + n) xs
take-append-take-drop zero n xs = ap (λ k. take k xs) (omega arith)
take-append-take-drop (suc m) zero [] = let e : suc m + 0 ≡ suc m = omega arith in rw e refl
take-append-take-drop (suc m) (suc n) [] =
    let e : suc m + suc n ≡ suc (m + suc n) = omega arith in rw e refl
take-append-take-drop (suc m) n (x ∷ xs) =
    let e : suc m + n ≡ suc (m + n) = omega arith in rw (e, ← take-append-take-drop m n xs) refl

pub next_chunk-last : (size : ℕ) → size ≤ chunk_size → next_chunk size ≡ size
next_chunk-last size small = ground arith

pub next_chunk-full : (size : ℕ) → chunk_size < size → next_chunk size ≡ chunk_size
next_chunk-full size large = ground arith

pub piece :
    (content : List ℕ) (p n : ℕ) → p + n ≤ length content → length (take n (drop p content)) ≡ n
piece content p n inside = length-take n (drop p content) ∙ omega (arith, length-drop p content)

-- One round.
module _ {H : Type 0} (ask : H → ℕ → Round H (List ℕ)) (fuel : ℕ) (h : H) (size : ℕ)
    (got : List ℕ) where
  pub chunked_read-moved :
      (n : ℕ) (bytes : List ℕ) (h' : H)
      → next_chunk size ≡ n
      → ask h n ≡ Round.moved bytes h'
      → chunked_read ask (suc fuel) h size got ≡ (
          if ltb 0 (size - length bytes)
          then chunked_read ask fuel h' (size - length bytes) (got ++ bytes)
          else some (pos (length (got ++ bytes)), got ++ bytes, h'))
  unfolding chunked_read
  chunked_read-moved n bytes h' next moved = rw (next, moved) refl

module _ {H : Type 0} (content : List ℕ) (handle : ℕ → H) (ask : H → ℕ → Round H (List ℕ))
    (answers : (p n : ℕ)
      → p + n ≤ length content
      → ask (handle p) n ≡ Round.moved (take n (drop p content)) (handle (p + n))) where
  -- Where every round gets what it asks for, the loop gets the same bytes as one call would.
  pub chunked_read-whole :
      (fuel p size : ℕ) (got : List ℕ)
      → 0 < size
      → size ≤ fuel * chunk_size
      → p + size ≤ length content
      → chunked_read ask fuel (handle p) size got
        ≡ some (pos (length got + size), got ++ take size (drop p content), handle (p + size))
  chunked_read-whole zero p size got more fuel inside = absurd (omega arith)
  chunked_read-whole (suc fuel) p size got more enough inside = elim (dec_le size chunk_size) [
    | yes small ↦
        rw
          (
            chunked_read-moved ask fuel (handle p) size got size (take size (drop p content))
                (handle (p + size)) (next_chunk-last size small) (answers p size inside),
            length-append got (take size (drop p content)),
            piece content p size inside,
            le→ltb_false 0 (size - size) (omega arith),
          )
          refl
    | no large ↦
        (let rest : size - chunk_size ≤ fuel * chunk_size = omega arith in
          let all : length got + chunk_size + (size - chunk_size) ≡ length got + size =
            omega arith in
          let sum : chunk_size + (size - chunk_size) ≡ size = omega arith in
          let far : p + chunk_size + (size - chunk_size) ≡ p + size = omega arith in
          rw
            (
              chunked_read-moved ask fuel (handle p) size got chunk_size
                  (take chunk_size (drop p content)) (handle (p + chunk_size))
                  (next_chunk-full size (omega arith)) (answers p chunk_size (omega arith)),
              piece content p chunk_size (omega arith),
              lt→ltb 0 (size - chunk_size) (omega arith),
              chunked_read-whole fuel (p + chunk_size) (size - chunk_size)
                  (got ++ take chunk_size (drop p content)) (omega arith) rest (omega arith),
              length-append got (take chunk_size (drop p content)),
              piece content p chunk_size (omega arith),
              all,
              append_assoc,
              ← drop-drop p chunk_size content,
              take-append-take-drop chunk_size (size - chunk_size) (drop p content),
              sum,
              far,
            )
            refl)
  ]

module _ {H : Type 0} (handle : List ℕ → H) (ask : H → List ℕ → Round H ℕ)
    (takes : (done bs : List ℕ)
      → 0 < length bs
      → ask (handle done) bs ≡ Round.moved (length bs) (handle (done ++ bs))) where
  -- Where every round takes what it is given, the loop takes the whole buffer.
  pub chunked_write-whole :
      (fuel size total : ℕ) (done buffer : List ℕ)
      → length buffer ≡ size
      → 0 < size
      → size ≤ fuel * chunk_size
      → chunked_write ask fuel (handle done) buffer size total
        ≡ some (pos (total + size), handle (done ++ buffer))
  unfolding chunked_write
  chunked_write-whole zero size total done buffer all more enough = absurd (omega arith)
  chunked_write-whole (suc fuel) size total done buffer all more enough =
      let n = next_chunk size in
      let asked : n ≤ size = ground arith in
      let count : length (take n buffer) ≡ n = length-take n buffer ∙ omega arith in
      elim (dec_le size chunk_size) [
        | yes small ↦
            (let last : n ≡ size = ground arith in
              rw
                (
                  last,
                  take_all size buffer (omega arith),
                  takes done buffer (omega arith),
                  all,
                  le→ltb_false 0 (size - size) (omega arith),
                )
                refl)
        | no large ↦
            (let full : n ≡ chunk_size = ground arith in
              let sum : total + chunk_size + (size - chunk_size) ≡ total + size = omega arith in
              let count' : length (take chunk_size buffer) ≡ chunk_size =
                length-take chunk_size buffer ∙ omega arith in
              rw
                (
                  full,
                  takes done (take chunk_size buffer) (omega arith),
                  count',
                  lt→ltb 0 (size - chunk_size) (omega arith),
                  chunked_write-whole fuel (size - chunk_size) (total + chunk_size)
                      (done ++ take chunk_size buffer) (drop chunk_size buffer)
                      (length-drop chunk_size buffer ∙ omega arith) (omega arith) (omega arith),
                  sum,
                  append_assoc,
                  take-append-drop chunk_size buffer,
                )
                refl)
      ]
