-- ===== src/Io/Chunks/ToEnd.antt =====
-- The loop of Io/Chunks that reads, where a round at the file's end breaks it off.
use native.Mathlib.Decide.{dec_le}
use kcf_old.Base.{
  ℕ, zero, suc, ◌+◌, ◌-◌, ◌*◌, ◌≤◌, ◌<◌, ◌≡◌, refl, sym, ap, ◌∙◌, arith, List, [], ◌∷◌, ◌++◌,
  length, take, drop,
}
use kcf_old.Base.{
  append_assoc, append-nil, length-append, length-take, length-drop, drop-drop, Option, some, pos,
  lt→ltb, le→ltb_false, min, ◌⊎◌, take_all, drop_all, ℤ, inl, inr,
}
use kcf_old.Io.Chunks.{chunk_size, next_chunk, Round, chunked_read}
use kcf_old.Io.Chunks.Whole.{chunked_read-moved}

take-rest :
    (n size : ℕ) (xs : List ℕ)
    → n ≤ size
    → take n xs ++ take (size - length (take n xs)) (drop (length (take n xs)) xs) ≡ take size xs
take-rest zero size xs small = ap (λ k. take k xs) (omega arith)
take-rest (suc n) zero xs small = absurd (omega arith)
take-rest (suc n) (suc size) [] small = take_all (suc size - 0) [] (omega arith)
take-rest (suc n) (suc size) (x ∷ xs) small =
    let same : suc size - suc (length (take n xs)) ≡ size - length (take n xs) = omega arith in
    rw (same, take-rest n size xs (omega arith)) refl

module _ {H : Type 0} (content : List ℕ) (handle : ℕ → H) (ask : H → ℕ → Round H (List ℕ))
    (moves : (p n : ℕ)
      → 0 < length (take n (drop p content))
      → ask (handle p) n
        ≡ Round.moved (take n (drop p content)) (handle (p + length (take n (drop p content)))))
    (stops : (p n : ℕ)
      → length (take n (drop p content)) ≡ 0
      → ask (handle p) n ≡ Round.broken (handle p)) where
  at_end :
      (fuel p size : ℕ) (got : List ℕ)
      → length content ≤ p
      → chunked_read ask (suc fuel) (handle p) size got ≡ some (pos (length got), got, handle p)
  unfolding chunked_read
  at_end fuel p size got over =
      let none_left : drop p content ≡ [] = drop_all p content over in
      let nothing : length (take (next_chunk size) (drop p content)) ≡ 0 =
        length-take (next_chunk size) (drop p content) ∙ rw none_left (omega arith) in
      rw (stops p (next_chunk size) nothing) refl

  abbrev to_end : ℕ → ℕ → List ℕ → Option (ℤ × List ℕ × H)
  to_end p size got =
      let bytes = take size (drop p content) in
      some (pos (length (got ++ bytes)), got ++ bytes, handle (p + length bytes))

  -- The part of a result that a round gets, and the rest.
  to_end-step :
      (p n size : ℕ) (got : List ℕ)
      → n ≤ size
      → to_end
          (p + length (take n (drop p content)))
          (size - length (take n (drop p content)))
          (got ++ take n (drop p content))
        ≡ to_end p size got
  to_end-step p n size got small =
      let bytes = take n (drop p content) in
      let m = length bytes in
      let rest : bytes ++ take (size - m) (drop (p + m) content) ≡ take size (drop p content) =
        ap (λ t. bytes ++ take (size - m) t) (sym (drop-drop p m content))
        ∙ take-rest n size (drop p content) small in
      let far : p + m + length (take (size - m) (drop (p + m) content))
          ≡ p + length (take size (drop p content)) =
        omega
          (arith, length-append bytes (take (size - m) (drop (p + m) content)), ap length rest) in
      rw (far, append_assoc, rest) refl

  to_end-nothing :
      (p size : ℕ) (got : List ℕ)
      → take size (drop p content) ≡ []
      → to_end p size got ≡ some (pos (length got), got, handle p)
  to_end-nothing p size got nothing =
      let far : p + 0 ≡ p = omega arith in rw (nothing, append-nil, far) refl

  over_end :
      (fuel p size : ℕ) (got : List ℕ)
      → length content ≤ p
      → chunked_read ask (suc fuel) (handle p) size got ≡ to_end p size got
  over_end fuel p size got over =
      let none_left : drop p content ≡ [] = drop_all p content over in
      at_end fuel p size got over
      ∙ sym (to_end-nothing p size got (ap (take size) none_left ∙ take_all size [] (omega arith)))

  after_round :
      (fuel p n size : ℕ) (got : List ℕ)
      → n ≤ size
      → (size - length (take n (drop p content)) ≡ 0)
        ⊎ ((0 < size - length (take n (drop p content)))
            × (chunked_read ask fuel
                  (handle (p + length (take n (drop p content))))
                  (size - length (take n (drop p content)))
                  (got ++ take n (drop p content))
                ≡ to_end
                    (p + length (take n (drop p content)))
                    (size - length (take n (drop p content)))
                    (got ++ take n (drop p content))))
      → ask (handle p) n
        ≡ Round.moved (take n (drop p content)) (handle (p + length (take n (drop p content))))
      → next_chunk size ≡ n
      → chunked_read ask (suc fuel) (handle p) size got ≡ to_end p size got
  after_round fuel p n size got asked (inl done) moved next =
      let bytes = take n (drop p content) in
      let m = length bytes in
      chunked_read-moved ask fuel (handle p) size got n bytes (handle (p + m)) next moved
      ∙ rw (le→ltb_false 0 (size - m) (omega arith)) (
          sym (
            to_end-nothing (p + m) (size - m) (got ++ bytes)
              (ap (λ k. take k (drop (p + m) content)) done))
          ∙ to_end-step p n size got asked)
  after_round fuel p n size got asked (inr (more, rest)) moved next =
      let bytes = take n (drop p content) in
      let m = length bytes in
      chunked_read-moved ask fuel (handle p) size got n bytes (handle (p + m)) next moved
      ∙ rw (lt→ltb 0 (size - m) more) (rest ∙ to_end-step p n size got asked)

  -- A read to the file's end, at most, gets the same bytes as one call would.
  pub chunked_read-to_end :
      (fuel p size : ℕ) (got : List ℕ)
      → 0 < size
      → size + chunk_size ≤ fuel * chunk_size
      → chunked_read ask fuel (handle p) size got ≡ to_end p size got
  chunked_read-to_end zero p size got more enough = absurd (omega arith)
  chunked_read-to_end (suc zero) p size got more enough = absurd (omega arith)
  chunked_read-to_end (suc (suc fuel)) p size got more enough =
      let n = next_chunk size in
      let asked : n ≤ size = ground arith in
      let positive : 0 < n = ground arith in
      let count : length (take n (drop p content)) ≡ min n (length content - p) =
        length-take n (drop p content) ∙ ap (min n) (length-drop p content) in
      let m = length (take n (drop p content)) in
      let far = p + m in
      let got' = got ++ take n (drop p content) in
      elim (dec_le (length content) p) [
        | yes over ↦ over_end (suc fuel) p size got over
        | no inside ↦
            after_round (suc fuel) p n size got asked
              (elim (dec_le size m) [
                | yes all ↦ inl (omega arith)
                | no part ↦ inr (
                  omega arith,
                  elim (dec_le (length content) far) [
                    | yes over ↦ over_end fuel far (size - m) got' over
                    | no more_there ↦
                        (let full : m ≡ n = omega arith in
                          let large : n ≡ chunk_size = ground arith in
                          chunked_read-to_end (suc fuel) far (size - m) got' (omega arith)
                            (omega arith))
                  ],
                )
              ])
              (moves p n (omega arith)) refl
      ]
