-- ===== src/Archive/Write.antt =====
-- `serialize` of pipebomb/server.py. The three tables of types, lengths and values grow together, so
-- they are one list of fields here, which is split when the archive is put together.
use pipebomb.Base.{
  Bytes, Str, ℕ, List, [], ◌∷◌, ◌++◌, map, not, ◌==◌, if◌then◌else◌, length, concat,
}
use pipebomb.Base.Result.{Result, ok, err, value_error, ◌>>=◌}
use pipebomb.Base.Dict.{Dict}
use pipebomb.Wire.Struct.{pack_u32}
use pipebomb.Server.State.{Request, Response, Client, Server}
use pipebomb.Server.Monad.{encode_latin1}

-- `ZstdCompressor(level=22).compress`, and `ZstdDecompressor().decompress`, which may raise.
pub record Archiver : Type 0 where
  pub compress : Bytes → Bytes
  pub decompress : Bytes → Result Bytes

-- One entry of each table; `size` is the packed length of the value.
pub record Field : Type 0 where
  pub type_ : ℕ
  pub size : Bytes
  pub value : Bytes

-- `add_field`
unfoldable pub field : ℕ → Bytes → Result Field
field field_type value = do
  size ← pack_u32 (length value)
  ok (record { type_ = field_type; size = size; value = value })

-- A byte string behind its packed length.
unfoldable pub block : Bytes → Result Bytes
block b = do size ← pack_u32 (length b); ok (size ++ b)

unfoldable pub db_fields : Dict Bytes → Result (List Field)
unfolding field
db_fields [] = ok []
db_fields ((key, value) ∷ db) = do
  k ← field 0x10 key
  v ← field 0x11 value
  more ← db_fields db
  ok (k ∷ v ∷ more)

-- The address is packed behind its length, and then encoded.
unfoldable pub address_fields : Str → Str → Result (List Field)
unfolding field
address_fields key uuid = if not (length uuid == 36) then err value_error else do
  size ← pack_u32 (length key)
  encoded ← encode_latin1 key
  k ← field 0x20 (size ++ encoded)
  owner ← encode_latin1 uuid
  v ← field 0x21 owner
  ok (k ∷ v ∷ [])

unfoldable pub book_fields : Dict Str → Result (List Field)
unfolding address_fields
book_fields [] = ok []
book_fields ((key, uuid) ∷ book) = do
  entry ← address_fields key uuid
  more ← book_fields book
  ok (entry ++ more)

unfoldable pub pack_addresses : List Str → Result Bytes
unfolding block
pack_addresses [] = ok []
pack_addresses (address ∷ addresses) = do
  encoded ← encode_latin1 address
  item ← block encoded
  more ← pack_addresses addresses
  ok (item ++ more)

unfoldable pub pack_item : Request → Result Bytes
unfolding block
pack_item r = do
  a ← block r.return_uuid
  b ← block r.key
  d ← block r.request
  e ← block r.request_uuid
  ok (a ++ (b ++ (d ++ e)))

-- One item of the queue, before the rest of it.
abbrev pub after_item :
    Result Bytes → List Request → Result Bytes × List Request → Result Bytes × List Request
after_item (err e) rest more = (err e, rest)
after_item (ok item) rest more = (more.0 >>= λ items. ok (item ++ items), more.1)

-- `get_nowait` until the queue is empty: what was packed, and what is left in the queue, which is
-- nothing unless an item did not fit its length.
unfoldable pub drain : List Request → Result Bytes × List Request
unfolding pack_item
drain [] = (ok [], [])
drain (r ∷ rest) = after_item (pack_item r) rest (drain rest)

unfoldable pub pack_responses : Dict Response → Result Bytes
unfolding block
pack_responses [] = ok []
pack_responses ((uuid, r) ∷ outbox) = do
  a ← block r.key
  b ← block r.response
  d ← block r.response_uuid
  more ← pack_responses outbox
  ok ((a ++ (b ++ d)) ++ more)

-- The two fields of a session that come before its inbox is drained, behind its encoded UUID.
unfoldable pub owned_fields : Client → Result (Bytes × Field × Field)
unfolding field
owned_fields c = if not (length c.uuid == 36) then err value_error else do
  uuid ← encode_latin1 c.uuid
  named ← field 0x30 uuid
  addresses ← pack_addresses c.addresses_owned
  owned ← field 0x31 (uuid ++ addresses)
  ok (uuid, named, owned)

-- The four fields of a session, and the session with what is left in its inbox.
abbrev pub mail_fields : Result (Bytes × Field × Field) → Client → Result (List Field) × Client
mail_fields (err e) c = (err e, c)
mail_fields (ok (uuid, named, owned)) c = (
  do
    items ← (drain c.inbox).0
    inbox ← field 0x32 (uuid ++ items)
    responses ← pack_responses c.outbox
    outbox ← field 0x33 (uuid ++ responses)
    ok (named ∷ owned ∷ inbox ∷ outbox ∷ []),
  record c { inbox = (drain c.inbox).1 },
)

unfoldable pub client_fields : Client → Result (List Field) × Client
unfolding owned_fields
client_fields c = mail_fields (owned_fields c) c

-- One session, before the others.
abbrev pub after_client :
    Str
    → Result (List Field) × Client
    → Dict Client
    → Result (List Field) × Dict Client
    → Result (List Field) × Dict Client
after_client key (err e, c) rest more = (err e, (key, c) ∷ rest)
after_client key (ok fields, c) rest more =
    (more.0 >>= λ others. ok (fields ++ others), (key, c) ∷ more.1)

-- The fields of all sessions, and the sessions as they are left: drained up to the one that raised.
unfoldable pub clients_fields : Dict Client → Result (List Field) × Dict Client
unfolding client_fields
clients_fields [] = (ok [], [])
clients_fields ((key, c) ∷ rest) = after_client key (client_fields c) rest (clients_fields rest)

-- The lengths of the three tables, and the tables.
unfoldable pub join_tables : List Field → Result Bytes
join_tables fields = do
  let types = map (λ f. f.type_) fields
  let lengths = concat (map (λ f. f.size) fields)
  let values = concat (map (λ f. f.value) fields)
  a ← pack_u32 (length types)
  b ← pack_u32 (length lengths)
  d ← pack_u32 (length values)
  ok ((a ++ (b ++ d)) ++ (types ++ (lengths ++ values)))

abbrev pub archive_magic : ℕ
archive_magic = 0x91938038

-- What follows the tables of the sessions.
unfoldable pub seal : Archiver → List Field → Result Bytes
unfolding join_tables
seal archiver fields = do
  serialized ← join_tables fields
  magic ← pack_u32 archive_magic
  ok (magic ++ archiver.compress serialized)

-- The fields of the sessions behind the others, sealed; nothing is drained if the others raised.
abbrev pub after_tables : Archiver → Result (List Field) → Server → Result Bytes × Server
after_tables archiver (err e) s = (err e, s)
after_tables archiver (ok first) s = (
  (clients_fields s.client_db).0 >>= λ sessions. seal archiver (first ++ sessions),
  record s { client_db = (clients_fields s.client_db).1 },
)

-- The archive, and the server as it is left.
unfoldable pub serialize : Archiver → Server → Result Bytes × Server
unfolding db_fields book_fields clients_fields seal
serialize archiver s =
    after_tables archiver (do a ← db_fields s.db; b ← book_fields s.address_book; ok (a ++ b)) s
