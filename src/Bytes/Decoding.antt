-- ===== src/Bytes/Decoding.antt =====
-- Every string of bytes is the little-endian encoding of a number: the other half of what the
-- routines of kcf/bytepack.c are measured against.
use kcf_old.Base.{
  ℕ, zero, suc, ◌+◌, ◌*◌, ◌%◌, ◌/◌, ◌^◌, ◌≤◌, ◌<◌, ◌≡◌, refl, ap, sym, ◌∙◌, arith, List, [], ◌∷◌,
  length, take, drop, length-take,
}
use native.Mathlib.Nat.{pow-suc}
use kcf_old.Bytes.Encoding.{le, value}

-- All numbers of the list are bytes.
abbrev pub AllBytes : List ℕ → Type 0
AllBytes [] = Unit
AllBytes (x ∷ xs) = (x < 256) × AllBytes xs

pub AllBytes-take : (n : ℕ) (xs : List ℕ) → AllBytes xs → AllBytes (take n xs)
AllBytes-take zero xs all = tt
AllBytes-take (suc n) [] all = tt
AllBytes-take (suc n) (x ∷ xs) all = (all.0, AllBytes-take n xs all.1)

pub AllBytes-drop : (n : ℕ) (xs : List ℕ) → AllBytes xs → AllBytes (drop n xs)
AllBytes-drop zero xs all = all
AllBytes-drop (suc n) [] all = tt
AllBytes-drop (suc n) (x ∷ xs) all = AllBytes-drop n xs all.1

pub value-lt : (xs : List ℕ) → AllBytes xs → value xs < 256 ^ length xs
unfolding value
value-lt [] all = omega arith
value-lt (x ∷ xs) all = omega (arith, value-lt xs all.1, all.0, pow-suc 256 (length xs))

pub le-value : (xs : List ℕ) → AllBytes xs → le (length xs) (value xs) ≡ xs
unfolding le value
le-value [] all = refl
le-value (x ∷ xs) all =
    let low : (x + 256 * value xs) % 256 ≡ x = omega (arith, all.0) in
    let high : (x + 256 * value xs) / 256 ≡ value xs = omega (arith, all.0) in
    rw (low, high, le-value xs all.1) refl

-- The number in the first `k` bytes.
abbrev pub number : ℕ → List ℕ → ℕ
number k xs = value (take k xs)

pub le-number : (k : ℕ) (xs : List ℕ) → AllBytes xs → k ≤ length xs → le k (number k xs) ≡ take k xs
le-number k xs all enough =
    let size : length (take k xs) ≡ k = omega (arith, length-take k xs) in
    ap (λ n. le n (number k xs)) (sym size) ∙ le-value (take k xs) (AllBytes-take k xs all)

pub number-lt : (k : ℕ) (xs : List ℕ) → AllBytes xs → k ≤ length xs → number k xs < 256 ^ k
number-lt k xs all enough =
    let size : length (take k xs) ≡ k = omega (arith, length-take k xs) in
    rw size at (value-lt (take k xs) (AllBytes-take k xs all))
