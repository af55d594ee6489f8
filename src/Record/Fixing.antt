-- ===== src/Record/Fixing.antt =====
-- What `rec_fix` establishes.
use kcf_old.Base.{
  ℕ, ◌+◌, ◌%◌, ◌^◌, ◌<◌, ◌≡◌, refl, sym, ap, ◌∙◌, arith, true, some, length, take, drop, ◌==◌,
  ==-self,
}
use kcf_old.Env.{Env, CrcLaws}
use kcf_old.Bytes.Encoding.{le}
use kcf_old.Record.{KcfRecord, rec_fix, rec_validate, rec_calculate_crc, fixed_head_size}
use kcf_old.Record.Layout.{head_length, length-encode, encode, payload, head_tail}
use kcf_old.Record.Buffers.{drop-encode, rec_calculate_crc_lem}

pub fixed_head_size_lem :
    (r : KcfRecord) → fixed_head_size r ≡ (head_length r.head_flags + r.data_size) % 2 ^ 16
unfolding fixed_head_size
fixed_head_size_lem r = ground arith

-- Every record that `rec_fix` has been over passes `rec_validate`.
pub rec_validate-rec_fix :
    (env : Env) (r : KcfRecord) → rec_validate env (some (rec_fix env r)) ≡ true
unfolding rec_validate rec_fix rec_calculate_crc
rec_validate-rec_fix env r = ==-self _

-- The bytes of a record begin with HeadCRC, and HeadSize follows the type and the flags.
first-encode : (r : KcfRecord) → take 2 (encode r) ≡ le 2 r.head_crc
unfolding encode le
first-encode r = refl

size-encode : (r : KcfRecord) → take 2 (drop 4 (encode r)) ≡ le 2 r.head_size
unfolding encode head_tail le
size-encode r = refl

-- HeadCRC is no part of the bytes that it covers.
without_crc :
    (r : KcfRecord) (crc : ℕ) → drop 2 (encode (record r { head_crc = crc })) ≡ drop 2 (encode r)
unfolding head_tail
without_crc r crc = drop-encode (record r { head_crc = crc }) ∙ sym (drop-encode r)

-- Where Data has DataSize bytes and the record less than 65536, `rec_fix` sets HeadSize to the
-- number of bytes of the record.
pub rec_fix-head_size :
    (env : Env) (r : KcfRecord)
    → length (payload r.bytes) ≡ r.data_size
    → head_length r.head_flags + r.data_size < 2 ^ 16
    → (rec_fix env r).head_size ≡ length (encode (rec_fix env r))
rec_fix-head_size env r block fits =
    let total = length-encode (rec_fix env r) in
    unfold rec_fix in omega (arith, fixed_head_size_lem r, total)

-- `rec_fix` on a record that it has been over changes nothing.
pub rec_fix-idempotent : (env : Env) (r : KcfRecord) → rec_fix env (rec_fix env r) ≡ rec_fix env r
unfolding rec_fix rec_calculate_crc fixed_head_size
rec_fix-idempotent env r = refl

-- What an earlier `rec_fix` set makes no difference.
pub rec_fix-refix :
    (env : Env) (r : KcfRecord) (before size crc : ℕ)
    → rec_fix env (record (rec_fix env (record r { added_size = before })) {
      added_size = size;
      added_data_crc32 = crc;
    })
      ≡ rec_fix env (record r { added_size = size; added_data_crc32 = crc })
unfolding rec_fix rec_calculate_crc fixed_head_size
rec_fix-refix env r before size crc = refl

pub rec_fix-head_crc : (env : Env) (r : KcfRecord) → (rec_fix env r).head_crc < 2 ^ 16
unfolding rec_fix rec_calculate_crc
rec_fix-head_crc env r = omega arith

-- HeadCRC is the CRC of the record with HeadSize set.
fixed_crc :
    (env : Env) (r : KcfRecord) → (rec_fix env r).head_crc ≡ rec_calculate_crc env (rec_fix env r)
unfolding rec_fix rec_calculate_crc
fixed_crc env r = refl

-- In the bytes, laid out as spec.md does, of a record that `rec_fix` has been over, the first two
-- are the low 16 bits of the CRC32C of all that follow, and the two behind the type and the flags
-- are the number of the record's bytes; and with any value in HeadCRC instead, `rec_validate`
-- accepts the record exactly if the value is that CRC, so it accepts the record as it is.
-- Conditions: Data has DataSize bytes, the whole record has less than 65536 bytes, and the CRC
-- can be computed a chunk at a time.
pub rec_fix_lem :
    (env : Env) (laws : CrcLaws env) (r : KcfRecord)
    → length (payload r.bytes) ≡ r.data_size
    → head_length r.head_flags + r.data_size < 2 ^ 16
    → (take 2 (encode (rec_fix env r))
        ≡ le 2 (env.crc32c 0 (drop 2 (encode (rec_fix env r))) % 2 ^ 16))
      × (take 2 (drop 4 (encode (rec_fix env r))) ≡ le 2 (length (encode (rec_fix env r))))
      × ((crc : ℕ)
          → rec_validate env (some (record (rec_fix env r) { head_crc = crc }))
            ≡ (env.crc32c 0 (drop 2 (encode (rec_fix env r))) % 2 ^ 16 == crc))
rec_fix_lem env laws r full fits =
    let w = rec_fix env r in
    let full' : length (payload w.bytes) ≡ w.data_size = unfold rec_fix in full in
    let crc_is : w.head_crc ≡ env.crc32c 0 (drop 2 (encode w)) % 2 ^ 16 =
      fixed_crc env r ∙ rec_calculate_crc_lem env laws w full' in
    (
      first-encode w ∙ ap (le 2) crc_is,
      size-encode w ∙ ap (le 2) (rec_fix-head_size env r full fits),
      λ crc.
          unfold rec_validate in
          ap (λ c. c == crc)
            (rec_calculate_crc_lem env laws (record w { head_crc = crc }) full'
              ∙ ap (λ bs. env.crc32c 0 bs % 2 ^ 16) (without_crc w crc)),
    )
