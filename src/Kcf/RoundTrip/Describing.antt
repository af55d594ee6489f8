-- ===== src/Kcf/RoundTrip/Describing.antt =====
-- The record that `KCF_write_record_with_added_data` writes: its flags, and what it says of its
-- added data.
use kcf_old.Base.{
  ℕ, ◌^◌, ◌≤◌, ◌<◌, ◌≡◌, refl, sym, ap, ◌∙◌, arith, true, false, Bool, List, length, ne→==_false,
  bit_or, ltb, le→ltb_false, Bool-cases, inl, inr, ◌&&◌, ◌||◌, not, ltb→lt, take_all,
}
use kcf_old.Base.Masks.{all_below, all_below_sound}
use kcf_old.Env.{Env}
use kcf_old.Record.{
  KcfRecord, rec_fix, flags_size, flags_crc, added_size_field, has_added_size_4_flag,
  has_added_size_8_flag,
}
use kcf_old.Kcf.Write.{describe_added_data, crc_of_added}
use kcf_old.Kcf.Write.WithData.{described}

-- The flags with the bits of `mask` set announce an AddedSize that holds `most` and less.
pub record Marks (mask most flags : ℕ) : Type 0 where
  pub flags_u8 : bit_or flags mask < 2 ^ 8
  pub some_size : flags_size (bit_or flags mask) ≡ true
  pub some_crc : flags_crc (bit_or flags mask) ≡ true
  pub room : most < 256 ^ added_size_field (bit_or flags mask)

abbrev marks : ℕ → ℕ → ℕ → Bool
marks mask most flags =
    not (flags_crc flags)
    || (ltb (bit_or flags mask) 256
        && (flags_size (bit_or flags mask)
            && (flags_crc (bit_or flags mask)
                && ltb most (256 ^ added_size_field (bit_or flags mask)))))

and_left : (a b : Bool) → (a && b) ≡ true → a ≡ true
and_left true b h = refl
and_left false b h = h

and_right : (a b : Bool) → (a && b) ≡ true → b ≡ true
and_right true b h = h
and_right false b h = cc

Marks-marks :
    (mask most flags : ℕ)
    → flags_crc flags ≡ true
    → marks mask most flags ≡ true
    → Marks mask most flags
Marks-marks mask most flags some_crc h =
    let h1 : (ltb (bit_or flags mask) 256
          && (flags_size (bit_or flags mask)
              && (flags_crc (bit_or flags mask)
                  && ltb most (256 ^ added_size_field (bit_or flags mask)))))
        ≡ true =
      ap
        (λ b.
          not b
          || (ltb (bit_or flags mask) 256
              && (flags_size (bit_or flags mask)
                  && (flags_crc (bit_or flags mask)
                      && ltb most (256 ^ added_size_field (bit_or flags mask))))))
        (sym some_crc)
      ∙ h in
    let h2 = and_right (ltb (bit_or flags mask) 256) _ h1 in
    let h3 = and_right (flags_size (bit_or flags mask)) _ h2 in
    record {
      flags_u8 = ltb→lt (bit_or flags mask) 256 (and_left (ltb (bit_or flags mask) 256) _ h1);
      some_size = and_left (flags_size (bit_or flags mask)) _ h2;
      some_crc = and_left (flags_crc (bit_or flags mask)) _ h3;
      room =
          ltb→lt most (256 ^ added_size_field (bit_or flags mask))
            (and_right (flags_crc (bit_or flags mask)) _ h3);
    }

Marks-4 :
    (flags : ℕ)
    → flags < 256
    → flags_crc flags ≡ true
    → Marks has_added_size_4_flag 2147483647 flags
unfolding all_below
Marks-4 flags small some_crc =
    Marks-marks has_added_size_4_flag 2147483647 flags some_crc
      (all_below_sound 256 (marks has_added_size_4_flag 2147483647) refl flags small)

Marks-8 :
    (flags : ℕ) → flags < 256 → flags_crc flags ≡ true → Marks has_added_size_8_flag (2 ^ 62) flags
unfolding all_below
Marks-8 flags small some_crc =
    Marks-marks has_added_size_8_flag (2 ^ 62) flags some_crc
      (all_below_sound 256 (marks has_added_size_8_flag (2 ^ 62)) refl flags small)

-- The record that is written announces its added data.
pub record Announces (env : Env) (added : List ℕ) (r : KcfRecord) : Type 0 where
  pub flags_u8 : (described env added r).head_flags < 2 ^ 8
  pub some_size : flags_size (described env added r).head_flags ≡ true
  pub some_crc : flags_crc (described env added r).head_flags ≡ true
  pub room : length added < 256 ^ added_size_field (described env added r).head_flags
  pub size_is : (described env added r).added_size ≡ length added
  pub crc_is : (described env added r).added_data_crc32 ≡ env.crc32c 0 added
  pub same_type : (described env added r).head_type ≡ r.head_type
  pub same_bytes : (described env added r).bytes ≡ r.bytes
  pub same_size : (described env added r).data_size ≡ r.data_size

-- The record `w` has the type and the data of `r`, and says how many bytes of added data there are,
-- with a field that has room for this number, and their CRC.
pub record Describes (env : Env) (added : List ℕ) (r w : KcfRecord) : Type 0 where
  pub type_is : w.head_type ≡ r.head_type
  pub data_is : w.bytes ≡ r.bytes
  pub data_size_is : w.data_size ≡ r.data_size
  pub has_size : flags_size w.head_flags ≡ true
  pub has_crc : flags_crc w.head_flags ≡ true
  pub has_room : length added < 256 ^ added_size_field w.head_flags
  pub added_size_is : w.added_size ≡ length added
  pub added_crc_is : w.added_data_crc32 ≡ env.crc32c 0 added

pub Describes-fixed :
    (env : Env) (added : List ℕ) (r : KcfRecord)
    → Announces env added r
    → Describes env added r (rec_fix env (described env added r))
unfolding rec_fix
Describes-fixed env added r a = record {
  type_is = a.same_type;
  data_is = a.same_bytes;
  data_size_is = a.same_size;
  has_size = a.some_size;
  has_crc = a.some_crc;
  has_room = a.room;
  added_size_is = a.size_is;
  added_crc_is = a.crc_is;
}

pub Announces-described :
    (env : Env) (added : List ℕ) (r : KcfRecord)
    → 0 < length added
    → length added < 2 ^ 62
    → r.head_flags < 2 ^ 8
    → flags_crc r.head_flags ≡ true
    → Announces env added r
unfolding describe_added_data crc_of_added
Announces-described env added r some_data small flags some_crc =
    let nonempty = ne→==_false (length added) 0 (omega arith) in
    let whole = take_all (length added) added (omega arith) in
    let within = le→ltb_false (length added) (length added) (omega arith) in
    elim (Bool-cases (ltb 2147483647 (length added))) [
      | inl large ↦
          (let m = Marks-8 r.head_flags flags some_crc in
            record {
              flags_u8 = rw (nonempty, large) m.flags_u8;
              some_size = rw (nonempty, large) m.some_size;
              some_crc = rw (nonempty, large) m.some_crc;
              room = rw (nonempty, large) (omega (arith, m.room));
              size_is = rw nonempty refl;
              crc_is = rw (nonempty, some_crc, within, whole) refl;
              same_type = rw nonempty refl;
              same_bytes = rw nonempty refl;
              same_size = rw nonempty refl;
            })
      | inr few ↦
          (let m = Marks-4 r.head_flags flags some_crc in
            let fits : length added ≤ 2147483647 = ground arith in
            record {
              flags_u8 = rw (nonempty, few) m.flags_u8;
              some_size = rw (nonempty, few) m.some_size;
              some_crc = rw (nonempty, few) m.some_crc;
              room = rw (nonempty, few) (omega (arith, m.room));
              size_is = rw nonempty refl;
              crc_is = rw (nonempty, some_crc, within, whole) refl;
              same_type = rw nonempty refl;
              same_bytes = rw nonempty refl;
              same_size = rw nonempty refl;
            })
    ]
