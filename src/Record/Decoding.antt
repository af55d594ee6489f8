-- ===== src/Record/Decoding.antt =====
-- The record that a string of bytes stands for, by the layout of spec.md and without the code's
-- buffers, and that the layout loses nothing in this direction.
use kcf_old.Base.{
  ℕ, zero, suc, ◌∷◌, ◌+◌, ◌-◌, ◌≤◌, ◌≡◌, refl, ap, ◌∙◌, arith, List, [], ◌++◌, length, take, drop,
  some, Bool-cases, inl, inr, length-take, length-drop, append_assoc,
}
use kcf_old.Bytes.Encoding.{le}
use kcf_old.Bytes.Decoding.{AllBytes, AllBytes-drop, number, le-number}
use kcf_old.Record.{
  KcfRecord, added_size_field, added_data_crc32_field, flags_size_4, flags_size_8, flags_crc,
}
use kcf_old.Record.Layout.{
  added_size_bytes, added_data_crc32_bytes, encode, head_tail, head_length, payload, not_both,
}

abbrev pub flags_in : List ℕ → ℕ
flags_in bs = number 1 (drop 3 bs)

abbrev pub size_in : List ℕ → ℕ
size_in bs = number 2 (drop 4 bs)

-- The bytes behind the head that HeadSize counts.
abbrev pub data_in : List ℕ → List ℕ
data_in bs = take (size_in bs - head_length (flags_in bs)) (drop (head_length (flags_in bs)) bs)

abbrev pub decode : List ℕ → KcfRecord
decode bs = record {
  head_crc = number 2 bs;
  head_type = number 1 (drop 2 bs);
  head_flags = flags_in bs;
  head_size = size_in bs;
  added_size = number (added_size_field (flags_in bs)) (drop 6 bs);
  added_data_crc32 =
      number (added_data_crc32_field (flags_in bs)) (drop (6 + added_size_field (flags_in bs)) bs);
  bytes = some (data_in bs);
  data_size = length (data_in bs);
}

-- HeadSize counts the head, and no more bytes than there are.
pub record IsWhole (bs : List ℕ) : Type 0 where
  pub bytes : AllBytes bs
  pub head : head_length (flags_in bs) ≤ size_in bs
  pub enough : size_in bs ≤ length bs

added_size_bytes-number :
    (flags : ℕ) (bs : List ℕ)
    → AllBytes bs
    → added_size_field flags ≤ length bs
    → added_size_bytes flags (number (added_size_field flags) bs) ≡ take (added_size_field flags) bs
added_size_bytes-number flags bs all enough = elim (Bool-cases (flags_size_8 flags)) [
  | inl eight ↦
      (let four = not_both flags eight in
        rw (eight, four) (le-number 8 bs all (rw (four, eight) at enough)))
  | inr small ↦ elim (Bool-cases (flags_size_4 flags)) [
    | inl four ↦ rw (small, four) (le-number 4 bs all (rw four at enough))
    | inr neither ↦ rw (small, neither) refl
  ]
]

added_data_crc32_bytes-number :
    (flags : ℕ) (bs : List ℕ)
    → AllBytes bs
    → added_data_crc32_field flags ≤ length bs
    → added_data_crc32_bytes flags (number (added_data_crc32_field flags) bs)
      ≡ take (added_data_crc32_field flags) bs
added_data_crc32_bytes-number flags bs all enough = elim (Bool-cases (flags_crc flags)) [
  | inl crc ↦ rw crc (le-number 4 bs all (rw crc at enough))
  | inr none ↦ rw none refl
]

take_nil : (n : ℕ) → take {A = ℕ} n [] ≡ []
take_nil zero = refl
take_nil (suc n) = refl

take-join : (m n : ℕ) (xs : List ℕ) → take m xs ++ take n (drop m xs) ≡ take (m + n) xs
take-join zero n xs = let e : 0 + n ≡ n = omega arith in rw e refl
take-join (suc m) n [] = let e : suc m + n ≡ suc (m + n) = omega arith in take_nil n ∙ rw e refl
take-join (suc m) n (x ∷ xs) =
    let e : suc m + n ≡ suc (m + n) = omega arith in rw e (ap (λ t. x ∷ t) (take-join m n xs))

encode-chain :
    (r : KcfRecord)
    → encode r
      ≡ le 2 r.head_crc
        ++ le 1 r.head_type
        ++ le 1 r.head_flags
        ++ le 2 r.head_size
        ++ added_size_bytes r.head_flags r.added_size
        ++ added_data_crc32_bytes r.head_flags r.added_data_crc32
        ++ payload r.bytes
unfolding encode head_tail
encode-chain r = simp append_assoc refl

pub encode-decode : (bs : List ℕ) → IsWhole bs → encode (decode bs) ≡ take (size_in bs) bs
encode-decode bs whole =
    let flags = flags_in bs in
    let from : (n : ℕ) → AllBytes (drop n bs) = λ n. AllBytes-drop n bs whole.bytes in
    let left : (n : ℕ) → length (drop n bs) ≡ length bs - n = λ n. length-drop n bs in
    let total : head_length flags + (size_in bs - head_length flags) ≡ size_in bs =
      omega (arith, whole.head) in
    rw
      (
        encode-chain (decode bs),
        le-number 2 bs whole.bytes (omega (arith, whole.head, whole.enough)),
        le-number 1 (drop 2 bs) (from 2) (omega (arith, left 2, whole.head, whole.enough)),
        le-number 1 (drop 3 bs) (from 3) (omega (arith, left 3, whole.head, whole.enough)),
        le-number 2 (drop 4 bs) (from 4) (omega (arith, left 4, whole.head, whole.enough)),
        added_size_bytes-number flags (drop 6 bs) (from 6)
            (omega (arith, left 6, whole.head, whole.enough)),
        added_data_crc32_bytes-number flags (drop (6 + added_size_field flags) bs)
            (from (6 + added_size_field flags))
            (omega (arith, left (6 + added_size_field flags), whole.head, whole.enough)),
        take-join 2 1 bs,
        take-join 3 1 bs,
        take-join 4 2 bs,
        take-join 6 (added_size_field flags) bs,
        take-join (6 + added_size_field flags) (added_data_crc32_field flags) bs,
        take-join (head_length flags) (size_in bs - head_length flags) bs,
        total,
      )
      refl

pub length-data_in :
    (bs : List ℕ) → IsWhole bs → length (data_in bs) ≡ size_in bs - head_length (flags_in bs)
length-data_in bs whole = omega (
  arith,
  length-take (size_in bs - head_length (flags_in bs)) (drop (head_length (flags_in bs)) bs),
  length-drop (head_length (flags_in bs)) bs,
  whole.head,
  whole.enough,
)
