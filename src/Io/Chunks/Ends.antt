-- ===== src/Io/Chunks/Ends.antt =====
-- How the loops of Io/Chunks end: at the file's end by `break`, or never.
use kcf_old.Base.{
  ℕ, zero, suc, ◌+◌, ◌-◌, ◌≤◌, ◌<◌, ◌≡◌, refl, ap, ◌∙◌, arith, List, ◌++◌, length, take, drop,
}
use kcf_old.Base.{
  length-take, length-drop, Option, some, none, ltb, lt→ltb, min, ℤ, Bool-cases, inl, inr,
}
use kcf_old.Io.Chunks.{chunked_write, after_write, next_chunk, Round, chunked_read, after_read}
use kcf_old.Io.Chunks.Whole.{chunked_read-moved}

-- What a round moves is not nothing.
abbrev pub Progress : {H : Type 0} → Round H (List ℕ) → Type 0
Progress (Round.moved bytes h) = 0 < length bytes
Progress (Round.returned r h) = Unit
Progress (Round.broken h) = Unit

abbrev pub Gives : {A : Type 0} → Option A → Type 0
Gives {A} o = (a : A) × (o ≡ some a)

Gives-after_read :
    {H : Type 0} (again : H → ℕ → List ℕ → Option (ℤ × List ℕ × H)) (size : ℕ) (got : List ℕ)
    (r : Round H (List ℕ))
    → Progress r
    → ((h : H) (left : ℕ) (g : List ℕ) → 0 < left → left < size → Gives (again h left g))
    → Gives (after_read again size got r)
Gives-after_read again size got (Round.moved bytes h) some_bytes ends =
    elim (Bool-cases (ltb 0 (size - length bytes))) [
      | inl more ↦
          rw more (ends h (size - length bytes) (got ++ bytes) (ground arith) (ground arith))
      | inr no_more ↦ rw no_more (_, refl)
    ]
Gives-after_read again size got (Round.returned r h) p ends = (_, refl)
Gives-after_read again size got (Round.broken h) p ends = (_, refl)

-- A loop whose rounds move at least a byte ends within as many rounds as there are bytes to move.
pub chunked_read-ends :
    {H : Type 0} (ask : H → ℕ → Round H (List ℕ))
    → ((h : H) (n : ℕ) → Progress (ask h n))
    → (fuel size : ℕ) (h : H) (got : List ℕ) → size < fuel
    → Gives (chunked_read ask fuel h size got)
unfolding chunked_read
chunked_read-ends ask progress zero size h got enough = absurd (omega arith)
chunked_read-ends ask progress (suc fuel) size h got enough =
    Gives-after_read (chunked_read ask fuel) size got (ask h (next_chunk size))
      (progress h (next_chunk size))
      λ h' left g more less. chunked_read-ends ask progress fuel left h' g (omega arith)

-- The loop that writes ends when every round takes at least a byte or is broken off.
abbrev pub Takes : {H : Type 0} → Round H ℕ → Type 0
Takes (Round.moved n h) = 0 < n
Takes (Round.returned r h) = Unit
Takes (Round.broken h) = Unit

Gives-after_write :
    {H : Type 0} (again : H → List ℕ → ℕ → ℕ → Option (ℤ × H)) (buffer : List ℕ) (size total : ℕ)
    (r : Round H ℕ)
    → Takes r
    → ((h : H) (bs : List ℕ) (left t : ℕ) → left < size → Gives (again h bs left t))
    → Gives (after_write again buffer size total r)
Gives-after_write again buffer size total (Round.moved n h) some_bytes ends =
    elim (Bool-cases (ltb 0 (size - n))) [
      | inl more ↦ rw more (ends h (drop n buffer) (size - n) (total + n) (ground arith))
      | inr no_more ↦ rw no_more (_, refl)
    ]
Gives-after_write again buffer size total (Round.returned r h) p ends = (_, refl)
Gives-after_write again buffer size total (Round.broken h) p ends = (_, refl)

pub chunked_write-ends :
    {H : Type 0} (ask : H → List ℕ → Round H ℕ)
    → ((h : H) (bs : List ℕ) → Takes (ask h bs))
    → (fuel size total : ℕ) (h : H) (buffer : List ℕ) → size < fuel
    → Gives (chunked_write ask fuel h buffer size total)
unfolding chunked_write
chunked_write-ends ask takes zero size total h buffer enough = absurd (omega arith)
chunked_write-ends ask takes (suc fuel) size total h buffer enough =
    Gives-after_write (chunked_write ask fuel) buffer size total
      (ask h (take (next_chunk size) buffer)) (takes h (take (next_chunk size) buffer))
      λ h' bs left t less. chunked_write-ends ask takes fuel left t h' bs (omega arith)

-- Where a round at the file's end gets no byte and the loop goes on, a read past the end never ends.
pub chunked_read-hangs :
    {H : Type 0} (content : List ℕ) (handle : ℕ → H) (ask : H → ℕ → Round H (List ℕ))
    → ((p n : ℕ)
        → ask (handle p) n
          ≡ Round.moved (take n (drop p content)) (handle (p + length (take n (drop p content)))))
    → (fuel p size : ℕ) (got : List ℕ) → 0 < size
    → length content < p + size
    → chunked_read ask fuel (handle p) size got ≡ none
unfolding chunked_read
chunked_read-hangs content handle ask answers zero p size got more past = refl
chunked_read-hangs content handle ask answers (suc fuel) p size got more past =
    let n = next_chunk size in
    let bytes = take n (drop p content) in
    let asked : n ≤ size = ground arith in
    let count : length bytes ≡ min n (length content - p) =
      length-take n (drop p content) ∙ ap (min n) (length-drop p content) in
    let left : 0 < size - length bytes = omega arith in
    chunked_read-moved ask fuel (handle p) size got n bytes (handle (p + length bytes)) refl
      (answers p n)
    ∙ rw (lt→ltb 0 (size - length bytes) left) (
        chunked_read-hangs content handle ask answers fuel (p + length bytes) (size - length bytes)
          (got ++ bytes) left (omega arith))
