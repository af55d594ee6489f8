-- ===== src/Bytes/Encoding.antt =====
-- The little-endian encoding of a number in `k` bytes, and the number that bytes encode: what the
-- routines of kcf/bytepack.c are measured against.
use kcf_old.Base.{ℕ, zero, suc, ◌+◌, ◌*◌, ◌/◌, ◌%◌, ◌^◌, ◌<◌, ◌≡◌, refl, ap, arith}
use native.Mathlib.Nat.{pow-suc}
use kcf_old.Base.{List, [], ◌∷◌, ◌++◌, length}

unfoldable pub le : ℕ → ℕ → List ℕ
le zero v = []
le (suc k) v = (v % 256) ∷ le k (v / 256)

unfoldable pub value : List ℕ → ℕ
value [] = 0
value (b ∷ bs) = b + 256 * value bs

pub length-le : (k v : ℕ) → length (le k v) ≡ k
unfolding le
length-le zero v = refl
length-le (suc k) v = ap suc (length-le k (v / 256))

pub value-le : (k v : ℕ) → v < 256 ^ k → value (le k v) ≡ v
unfolding le value
value-le zero v h = omega arith
value-le (suc k) v h = omega (arith, value-le k (v / 256) (omega (arith, pow-suc 256 k)))

-- The two halves of a number of 2, 4 and 8 bytes.
pub le_two : (v : ℕ) → le 1 (v % 2 ^ 8) ++ le 1 (v / 2 ^ 8 % 2 ^ 8) ≡ le 2 v
unfolding le
le_two v = ground arith

pub le_four : (v : ℕ) → le 2 (v % 2 ^ 16) ++ le 2 (v / 2 ^ 16 % 2 ^ 16) ≡ le 4 v
unfolding le
le_four v = ground arith

pub le_eight : (v : ℕ) → le 4 (v % 2 ^ 32) ++ le 4 (v / 2 ^ 32 % 2 ^ 32) ≡ le 8 v
unfolding le
le_eight v = ground arith

pub value-append :
    (k : ℕ) (xs ys : List ℕ) → length xs ≡ k → value (xs ++ ys) ≡ value xs + value ys * 256 ^ k
unfolding value
value-append zero [] ys e = omega arith
value-append zero (x ∷ xs) ys e = absurd (omega arith)
value-append (suc k) [] ys e = absurd (omega arith)
value-append (suc k) (x ∷ xs) ys e =
    omega (arith, value-append k xs ys (omega arith), ap (λ (t : ℕ). value ys * t) (pow-suc 256 k))
