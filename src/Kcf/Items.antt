-- ===== src/Kcf/Items.antt =====
-- An archive as the list of its records with their added data, and what a client does to write and
-- to read such a list with kcf/write.c and kcf/read.c.
pub mod Written
pub mod Recovered
use kcf_old.Base.{
  ℕ, zero, suc, ◌+◌, ◌^◌, ◌<◌, ◌≡◌, true, false, List, [], ◌∷◌, ◌++◌, length, some, ◌⊎◌,
  if◌then◌else◌,
}
use kcf_old.Env.{Env}
use kcf_old.Action.{Action, pure, ◌>>=◌, with_local}
use kcf_old.Record.{KcfRecord, flags_size, flags_crc, added_size_field}
use kcf_old.Record.Layout.{encode, payload, head_length}
use kcf_old.Kcf.{Kcf, blank_record}
use kcf_old.Kcf.Read.{kcf_read_record}
use kcf_old.Kcf.Read.Chunks.{read_pieces}
use kcf_old.Kcf.Write.{kcf_write_record}
use kcf_old.Kcf.Write.Session.{concat}
use kcf_old.Kcf.Write.RoundTrip.{write_session, stored_record}

-- A record with the chunks in which its added data is written.
pub record Item : Type 0 where
  pub described : KcfRecord
  pub chunks : List (List ℕ)

abbrev pub added_of : Item → List ℕ
added_of i = concat i.chunks

-- The record with the size and the CRC of its added data.
abbrev pub stored_of : Env → Item → KcfRecord
stored_of env i = stored_record env i.described (added_of i)

-- What a reader gets for it.
abbrev pub seen : Env → Item → KcfRecord × List ℕ
seen env i = (
  record (stored_of env i) {
    bytes = some (payload i.described.bytes);
    data_size = length (payload i.described.bytes);
  },
  added_of i,
)

abbrev pub contents : Env → List Item → List (KcfRecord × List ℕ)
contents env [] = []
contents env (i ∷ items) = seen env i ∷ contents env items

-- The bytes that stand for the list.
abbrev pub archive_bytes : Env → List Item → List ℕ
archive_bytes env [] = []
archive_bytes env (i ∷ items) = (encode (stored_of env i) ++ added_of i) ++ archive_bytes env items

-- The flags ask for the size and the CRC of the added data, which is there and fits AddedSize.
pub record HasData (i : Item) : Type 0 where
  pub some_size : flags_size i.described.head_flags ≡ true
  pub some_crc : flags_crc i.described.head_flags ≡ true
  pub some_data : 0 < length (added_of i)
  pub data_fits : length (added_of i) < 256 ^ added_size_field i.described.head_flags

-- The record has no added data, and no fields about it.
pub record IsPlain (i : Item) : Type 0 where
  pub no_size : flags_size i.described.head_flags ≡ false
  pub no_crc : flags_crc i.described.head_flags ≡ false
  pub zero_crc : i.described.added_data_crc32 ≡ 0
  pub no_chunks : i.chunks ≡ []

-- The record's data has DataSize bytes, its fields are in range, and its flags are right about its
-- added data.
pub record IsStorable (i : Item) : Type 0 where
  pub full : length (payload i.described.bytes) ≡ i.described.data_size
  pub fits : head_length i.described.head_flags + i.described.data_size < 2 ^ 16
  pub type_u8 : i.described.head_type < 2 ^ 8
  pub flags_u8 : i.described.head_flags < 2 ^ 8
  pub kind : HasData i ⊎ IsPlain i

abbrev pub AllStorable : List Item → Type 0
AllStorable [] = Unit
AllStorable (i ∷ items) = IsStorable i × AllStorable items

module _ {S : Type 0} where
  -- A record with added data has a session of its own.
  abbrev pub write_item : Env → Item → Action (Kcf S × KcfRecord) (Unit {0})
  write_item env i =
      if flags_size i.described.head_flags then write_session env i.chunks else kcf_write_record env

  unfoldable pub write_items : Env → List Item → Action (Kcf S) (Unit {0})
  write_items env [] = pure tt
  write_items env (i ∷ items) =
      with_local (record (i.described) { added_size = 0 }) (write_item env i) >>= λ _.
      write_items env items

  -- Reads `n` records, and their added data through a buffer in at most `fuel` calls each.
  unfoldable pub read_items : Env → List ℕ → ℕ → ℕ → ℕ → Action (Kcf S) (List (KcfRecord × List ℕ))
  read_items env buffer size fuel zero = pure []
  read_items env buffer size fuel (suc n) =
      with_local blank_record (kcf_read_record env true) >>= λ (_, r).
      read_pieces env buffer size fuel >>= λ added.
      read_items env buffer size fuel n >>= λ rest. pure ((r, added) ∷ rest)
