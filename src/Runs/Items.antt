-- ===== src/Runs/Items.antt =====
-- Runs of the theorems on lists of records, on records with data, and on extraction.
use kcf_old.Base.{
  ◌+◌, ◌^◌, ◌<◌, ◌≡◌, refl, arith, List, [], ◌∷◌, ◌++◌, length, some, replicate, inl, inr,
}
use kcf_old.Action.{ok, ◌>>◌}
use kcf_old.Io.Stdio.{File}
use kcf_old.Io.OnFile.{file_stream, ended}
use kcf_old.Record.{KcfRecord, rec_fix}
use kcf_old.Record.Layout.{encode, head_tail}
use kcf_old.Bytes.Encoding.{le}
use kcf_old.Kcf.{Kcf, ParserState}
use kcf_old.Kcf.Read.Header.{at}
use kcf_old.Kcf.Read.Chunks.{read_pieces, between, read_pieces-file}
use kcf_old.Kcf.Read.RoundTrip.{IsReadable}
use kcf_old.Kcf.Write.{kcf_write_record_with_added_data, describe_added_data}
use kcf_old.Kcf.Write.OnFile.{over}
use kcf_old.Kcf.Items.{Item, IsStorable, archive_bytes, contents, write_items}
use kcf_old.Kcf.Items.Written.{idle}
use kcf_old.Kcf.Items.Recovered.{read_from, read_from-write_items}
use kcf_old.Kcf.RoundTrip.{read_back}
use kcf_old.Kcf.RoundTrip.Describing.{Describes}
use kcf_old.Kcf.RoundTrip.WithData.{written_record, read_again, read_back-with_added_data}
use kcf_old.Kcf.Extract.{extract_records}
use kcf_old.Kcf.Extract.Records.{
  copying, at_fragment, extract_records-single, extract_records-last_fragment,
}
use kcf_old.Runs.{
  test_env, test_laws, test_allocates, test_record, test_file, test_archive, test_chunks,
}

abbrev test_item : Item
test_item = record { described = test_record; chunks = test_chunks }

test_item-IsStorable : IsStorable test_item
test_item-IsStorable = record {
  full = refl;
  fits = omega arith;
  type_u8 = omega arith;
  flags_u8 = omega arith;
  kind = inl (record {
    some_size = refl;
    some_crc = refl;
    some_data = omega arith;
    data_fits = omega arith;
  });
}

-- A record without added data.
abbrev plain_item : Item
plain_item = record { described = record test_record { head_flags = 0 }; chunks = [] }

plain_item-IsStorable : IsStorable plain_item
plain_item-IsStorable = record {
  full = refl;
  fits = omega arith;
  type_u8 = omega arith;
  flags_u8 = omega arith;
  kind = inr (record { no_size = refl; no_crc = refl; zero_crc = refl; no_chunks = refl });
}

abbrev test_items : List Item
test_items = test_item ∷ plain_item ∷ test_item ∷ []

test_items-small : 3 + length (archive_bytes test_env test_items) < 2 ^ 61
unfolding rec_fix encode le head_tail
test_items-small = omega arith

read_from-write_items_example :
    (k' : Kcf File) × ((write_items test_env test_items
          >> read_from test_env 3 (replicate 4 0) 2 10 3)
        (idle test_archive test_file 0 (7 ∷ 8 ∷ 9 ∷ []))
      ≡ ok (contents test_env test_items) (
          at
            (record k' { parser_state = ParserState.read_record_header })
            (ended test_file ((7 ∷ 8 ∷ 9 ∷ []) ++ archive_bytes test_env test_items))
            0
            (length ((7 ∷ 8 ∷ 9 ∷ []) ++ archive_bytes test_env test_items))))
read_from-write_items_example =
    read_from-write_items test_env test_laws test_allocates test_archive test_file 0 refl refl
      (7 ∷ 8 ∷ 9 ∷ []) test_items (replicate 4 0) 2 10
      (test_item-IsStorable, (plain_item-IsStorable, (test_item-IsStorable, tt)))
      (omega arith, (omega arith, (omega arith, tt))) (omega arith) (omega arith) test_items-small

read_pieces-file_example :
    read_pieces test_env (replicate 2 0) 2 4 (between test_env test_archive test_file 0 0 [] 3)
    ≡ ok (7 ∷ 8 ∷ 9 ∷ []) (between test_env test_archive test_file 0 3 (7 ∷ 8 ∷ 9 ∷ []) 0)
read_pieces-file_example =
    read_pieces-file test_env test_laws test_archive test_file 0 refl 4 0 [] (7 ∷ 8 ∷ 9 ∷ []) []
      (replicate 2 0) 2 (omega arith) (omega arith) (omega arith) (omega arith) refl

-- The flags ask for the CRC; those of the size are set by the function.
abbrev crc_record : KcfRecord
crc_record = record test_record { head_flags = 0x20 }

read_back-with_added_data_example :
    ((kcf_write_record_with_added_data test_env (some (1 ∷ 2 ∷ 3 ∷ [])) 3
          >> read_back test_env 3 (replicate 4 0) 4)
        (
          over
              (record test_archive { parser_state = ParserState.write_record })
              (ended test_file (7 ∷ 8 ∷ 9 ∷ []))
              0,
          crc_record,
        )
      ≡ ok
          (3, 1 ∷ 2 ∷ 3 ∷ 0 ∷ [])
          (
            read_again test_env test_laws test_allocates test_archive test_file 0
                (7 ∷ 8 ∷ 9 ∷ [])
                (1 ∷ 2 ∷ 3 ∷ [])
                crc_record,
            record (written_record test_env test_laws test_allocates test_archive test_file 0
                (7 ∷ 8 ∷ 9 ∷ [])
                (1 ∷ 2 ∷ 3 ∷ [])
                crc_record) { bytes = some (1 ∷ 2 ∷ []); data_size = 2 },
          ))
    × Describes test_env (1 ∷ 2 ∷ 3 ∷ []) crc_record (
        written_record test_env test_laws test_allocates test_archive test_file 0
          (7 ∷ 8 ∷ 9 ∷ [])
          (1 ∷ 2 ∷ 3 ∷ [])
          crc_record)
unfolding rec_fix describe_added_data
read_back-with_added_data_example =
    read_back-with_added_data test_env test_laws test_allocates test_archive test_file 0
      (7 ∷ 8 ∷ 9 ∷ []) (1 ∷ 2 ∷ 3 ∷ []) crc_record (replicate 4 0) 4 refl refl (omega arith)
      (omega arith) refl (omega arith) (omega arith) (omega arith) refl (omega arith) (omega arith)

abbrev single_record : KcfRecord
single_record = record test_record { added_size = 3 }

extract_records-single_example :
    extract_records test_env 4 1 (replicate 4096 0) (
      copying test_env test_laws test_archive test_file 0 refl test_file 0 refl single_record 0 [] 3
        [])
    ≡ ok tt (
        copying test_env test_laws test_archive test_file 0 refl test_file 0 refl single_record 3
          (7 ∷ 8 ∷ 9 ∷ [])
          0
          (7 ∷ 8 ∷ 9 ∷ []))
extract_records-single_example =
    extract_records-single test_env test_laws test_archive test_file 0 refl test_file 0 refl 4 0 0
      single_record (7 ∷ 8 ∷ 9 ∷ []) [] (replicate 4096 0) [] refl refl (omega arith) (omega arith)
      (omega arith) refl refl

abbrev first_record : KcfRecord
first_record = record test_record { head_flags = 0xA1; added_size = 3 }

-- A data fragment with two bytes of added data.
abbrev pub fragment : KcfRecord
fragment = record {
  head_crc = 5;
  head_type = 0x44;
  head_flags = 0x80;
  head_size = 10;
  added_size = 2;
  added_data_crc32 = 0;
  bytes = some [];
  data_size = 0;
}

fragment-IsReadable : IsReadable fragment
fragment-IsReadable = record {
  crc_u16 = omega arith;
  type_u8 = omega arith;
  flags_u8 = omega arith;
  size_u16 = omega arith;
  added_size_fits = omega arith;
  added_data_crc32_fits = omega arith;
  head_size_is = refl;
}

abbrev two_pieces : File
two_pieces = ended test_file ((7 ∷ 8 ∷ 9 ∷ []) ++ (encode fragment ++ (5 ∷ 6 ∷ [])))

extract_records-last_fragment_example :
    extract_records test_env 4 1 (replicate 4096 0) (
      copying test_env test_laws test_archive two_pieces 0 refl test_file 0 refl first_record 0 [] 3
        [])
    ≡ ok tt (
      at_fragment test_env test_laws test_archive two_pieces 0 refl test_file 0 refl first_record
          fragment
          (7 ∷ 8 ∷ 9 ∷ [])
          (3 + length (encode fragment)),
      file_stream (ended test_file (7 ∷ 8 ∷ 9 ∷ [])) 0,
    )
extract_records-last_fragment_example =
    extract_records-last_fragment test_env test_laws test_archive two_pieces 0 refl test_file 0 refl
      4 0 0 first_record fragment (7 ∷ 8 ∷ 9 ∷ []) (5 ∷ 6 ∷ []) (replicate 4096 0) [] test_allocates
      refl refl (omega arith) (omega arith) (omega arith) refl refl fragment-IsReadable refl refl
