-- ===== src/Kcf/Read/AnyBytes.antt =====
-- `KCF_read_record` on a file of any bytes.
use kcf_old.Base.{
  ℕ, ◌+◌, ◌-◌, ◌≡◌, sym, ap, ◌∙◌, arith, true, List, ◌++◌, length, take, drop, some, length-drop,
  take-append-drop,
}
use kcf_old.Env.{Env}
use kcf_old.Action.{ok}
use kcf_old.Io.Stdio.{File}
use kcf_old.Bytes.Decoding.{AllBytes, AllBytes-drop, number-lt}
use kcf_old.Record.{KcfRecord, added_size_field, added_data_crc32_field}
use kcf_old.Record.Layout.{encode, length-encode}
use kcf_old.Record.Decoding.{
  decode, flags_in, size_in, data_in, IsWhole, encode-decode, length-data_in,
}
use kcf_old.Kcf.{Kcf, ParserState}
use kcf_old.Kcf.Read.{kcf_read_record}
use kcf_old.Kcf.Read.Header.{at}
use kcf_old.Kcf.Read.RoundTrip.{IsReadable, after_record, kcf_read_record-encode}

pub decode-IsReadable : (bs : List ℕ) → IsWhole bs → IsReadable (decode bs)
decode-IsReadable bs whole =
    let flags = flags_in bs in
    let from : (n : ℕ) → AllBytes (drop n bs) = λ n. AllBytes-drop n bs whole.bytes in
    let left : (n : ℕ) → length (drop n bs) ≡ length bs - n = λ n. length-drop n bs in
    record {
      crc_u16 = number-lt 2 bs whole.bytes (omega (arith, whole.head, whole.enough));
      type_u8 = number-lt 1 (drop 2 bs) (from 2) (omega (arith, left 2, whole.head, whole.enough));
      flags_u8 = number-lt 1 (drop 3 bs) (from 3) (omega (arith, left 3, whole.head, whole.enough));
      size_u16 = number-lt 2 (drop 4 bs) (from 4) (omega (arith, left 4, whole.head, whole.enough));
      added_size_fits =
          number-lt (added_size_field flags) (drop 6 bs) (from 6)
            (omega (arith, left 6, whole.head, whole.enough));
      added_data_crc32_fits =
          number-lt (added_data_crc32_field flags) (drop (6 + added_size_field flags) bs)
            (from (6 + added_size_field flags))
            (omega (arith, left (6 + added_size_field flags), whole.head, whole.enough));
      head_size_is = omega (arith, length-data_in bs whole, whole.head);
    }

-- The reader accepts every string of bytes that is a whole record: where the file holds, at the
-- archive's position, bytes whose HeadSize counts at least the head and no more bytes than there
-- are, `kcf_read_record` returns the record that they stand for and moves past HeadSize bytes,
-- and the encoding of this record by spec.md is exactly these bytes, so nothing of them is lost
-- or normalised. Conditions: the archive expects a record, the file can be read, and malloc gives
-- a block of the data's size.
pub kcf_read_record-any_bytes :
    (env : Env) (k : Kcf File) (f : File) (fl p : ℕ) (old : KcfRecord) (block : List ℕ)
    → f.can_read ≡ true
    → IsWhole (drop p f.content)
    → env.malloc k.mallocs (length (data_in (drop p f.content))) ≡ some block
    → length block ≡ length (data_in (drop p f.content))
    → (kcf_read_record env true
          (at (record k { parser_state = ParserState.read_record_header }) f fl p, old)
        ≡ ok tt (
          at (after_record k (decode (drop p f.content))) f fl (p + size_in (drop p f.content)),
          decode (drop p f.content),
        ))
      × (encode (decode (drop p f.content)) ≡ take (size_in (drop p f.content)) (drop p f.content))
kcf_read_record-any_bytes env k f fl p old block can whole got room =
    let bs = drop p f.content in
    let bytes = encode-decode bs whole in
    let there : bs ≡ encode (decode bs) ++ drop (size_in bs) bs =
      sym (ap (λ x. x ++ drop (size_in bs) bs) bytes ∙ take-append-drop (size_in bs) bs) in
    let far : p + length (encode (decode bs)) ≡ p + size_in bs =
      omega (arith, length-encode (decode bs), length-data_in bs whole, whole.head) in
    (
      kcf_read_record-encode env k f fl p (decode bs) old (drop (size_in bs) bs) block can
            (decode-IsReadable bs whole) there got room
          ∙ ap (λ n. ok tt (at (after_record k (decode bs)) f fl n, decode bs)) far,
      bytes,
    )
