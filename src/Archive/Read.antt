-- ===== src/Archive/Read.antt =====
-- `deserialize` of pipebomb/server.py. Where the code moves a cursor through a value, the rest of the
-- value from the cursor on is passed along.
use pipebomb.Base.{
  Bytes, Str, ℕ, zero, suc, ◌+◌, ◌/◌, List, [], ◌∷◌, ◌++◌, not, Option, none, some, leb, ◌==◌,
  if◌then◌else◌, length, take, drop, slice,
}
use pipebomb.Base.Result.{Result, ok, err, struct_error, value_error, key_error, ◌>>=◌}
use pipebomb.Base.Dict.{Dict, lookup, insert}
use pipebomb.Wire.Struct.{from_bytes}
use pipebomb.Server.State.{Request, Response, Client, Server}
use pipebomb.Server.Admin.{preset_client, apply_state}
use pipebomb.Archive.Write.{Archiver, archive_magic}

-- `struct.unpack_from(">I", b, offset)`
unfoldable pub unpack_from : Bytes → ℕ → Result ℕ
unpack_from b offset =
    if leb (offset + 4) (length b)
    then ok (from_bytes (slice offset (offset + 4) b))
    else err struct_error

-- A packed length and that many bytes, or as many as there are; and what is behind them.
unfoldable pub take_block : Bytes → Result (Bytes × Bytes)
unfolding unpack_from
take_block rest = do
  size ← unpack_from rest 0
  ok (take size (drop 4 rest), drop size (drop 4 rest))

-- `while cursor < len(value)`, on fuel; each item takes four bytes at least.
unfoldable pub read_items :
    {A : Type 0} → (Bytes → Result (A × Bytes)) → ℕ → Bytes → Result (List A)
read_items item zero rest = ok []
read_items item (suc fuel) [] = ok []
read_items item (suc fuel) (b ∷ rest) = do
  (first, behind) ← item (b ∷ rest)
  others ← read_items item fuel behind
  ok (first ∷ others)

unfoldable pub take_request : Bytes → Result (Request × Bytes)
take_request r0 = do
  (return_uuid, r1) ← take_block r0
  (key, r2) ← take_block r1
  (request, r3) ← take_block r2
  (request_uuid, r4) ← take_block r3
  ok (
    record { return_uuid = return_uuid; key = key; request = request; request_uuid = request_uuid },
    r4,
  )

unfoldable pub take_response : Bytes → Result (Response × Bytes)
take_response r0 = do
  (key, r1) ← take_block r0
  (response, r2) ← take_block r1
  (response_uuid, r3) ← take_block r2
  ok (record { key = key; response = response; response_uuid = response_uuid }, r3)

-- The tables under construction, and the key and the address that wait for their value.
pub record Loading : Type 0 where
  pub db : Dict Bytes
  pub address_book : Dict Str
  pub client_db : Dict Client
  pub pending_db_key : Option Bytes
  pub pending_address : Option Str

-- `client.outbox[response_uuid] = Response(…)` for each response.
unfoldable pub file_responses : List Response → Dict Response → Dict Response
file_responses [] outbox = outbox
file_responses (r ∷ rs) outbox = file_responses rs (insert r.response_uuid r outbox)

abbrev pub empty_client : Str → Client
empty_client uuid =
    preset_client (record { uuid = uuid; addresses_owned = []; inbox = []; outbox = [] })

-- The session that a field is for, changed by what the field holds behind the UUID.
abbrev pub change_client :
    {A : Type 0}
    → (Bytes → Result (A × Bytes))
    → (List A → Client → Client)
    → Bytes
    → Loading
    → Option Client
    → Result Loading
    → Result Loading
change_client item change value l none missing = missing
change_client item change value l (some client) missing = do
  items ← read_items item (length value) (drop 36 value)
  ok (record l { client_db = insert (take 36 value) (change items client) l.client_db })

abbrev pub add_addresses : List Bytes → Client → Client
add_addresses addresses c = record c { addresses_owned = c.addresses_owned ++ addresses }

abbrev pub add_requests : List Request → Client → Client
add_requests requests c = record c { inbox = c.inbox ++ requests }

abbrev pub add_responses : List Response → Client → Client
add_responses responses c = record c { outbox = file_responses responses c.outbox }

abbrev pub set_pending : Bytes → Option Bytes → Loading → Result Loading
set_pending value none l = err value_error
set_pending value (some key) l = ok (record l { db = insert key value l.db; pending_db_key = none })

abbrev pub set_address : Bytes → Option Str → Loading → Result Loading
set_address value none l = err value_error
set_address value (some address) l =
    ok (record l { address_book = insert address value l.address_book; pending_address = none })

-- One field, by its type; a type that is not known is passed over.
unfoldable pub load_field : ℕ → Bytes → Loading → Result Loading
unfolding take_block take_request take_response file_responses
load_field type_ value l =
    if type_ == 0x10
    then ok (record l { pending_db_key = some value })
    else if type_ == 0x11
    then set_pending value l.pending_db_key l
    else if type_ == 0x20
    then (do
      size ← unpack_from value 0
      ok (record l { pending_address = some (slice 4 (4 + size) value) }))
    else if type_ == 0x21
    then set_address value l.pending_address l
    else if type_ == 0x30
    then ok (record l { client_db = insert value (empty_client value) l.client_db })
    else if type_ == 0x31
    then change_client take_block add_addresses value l (lookup (take 36 value) l.client_db)
        (err value_error)
    else if type_ == 0x32
    then change_client take_request add_requests value l (lookup (take 36 value) l.client_db)
        (err key_error)
    else if type_ == 0x33
    then change_client take_response add_responses value l (lookup (take 36 value) l.client_db)
        (err key_error)
    else ok l

-- `zip(table_of_t, table_of_v, strict=True)`: a ValueError where one table is longer.
unfoldable pub load_fields : List ℕ → List Bytes → Loading → Result Loading
unfolding load_field
load_fields [] [] l = ok l
load_fields (type_ ∷ types) (value ∷ values) l =
    load_field type_ value l >>= λ l'. load_fields types values l'
load_fields [] (value ∷ values) l = err value_error
load_fields (type_ ∷ types) [] l = err value_error

-- The lengths at `range(0, length_table_length, 4)`.
unfoldable pub read_lengths : ℕ → Bytes → Result (List ℕ)
unfolding unpack_from
read_lengths zero rest = ok []
read_lengths (suc rounds) rest = do
  size ← unpack_from rest 0
  more ← read_lengths rounds (drop 4 rest)
  ok (size ∷ more)

unfoldable pub cut_values : List ℕ → Bytes → List Bytes
cut_values [] rest = []
cut_values (size ∷ sizes) rest = take size rest ∷ cut_values sizes (drop size rest)

abbrev pub nothing_loaded : Loading
nothing_loaded = record {
  db = [];
  address_book = [];
  client_db = [];
  pending_db_key = none;
  pending_address = none;
}

-- The tables of types, lengths and values, and the loading of the fields.
unfoldable pub split_tables : Bytes → Result Loading
unfolding unpack_from slice read_lengths cut_values load_fields
split_tables serialized = do
  types ← unpack_from serialized 0
  lengths ← unpack_from serialized 4
  values ← unpack_from serialized 8
  let o1 = 12 + types
  let o2 = o1 + lengths
  sizes ← read_lengths ((lengths + 3) / 4) (slice o1 o2 serialized)
  load_fields (slice 12 o1 serialized) (cut_values sizes (slice o2 (o2 + values) serialized))
      nothing_loaded

unfoldable pub deserialize : Archiver → Bytes → Result (Dict Bytes × Dict Str × Dict Client)
deserialize archiver archive = do
  magic ← unpack_from archive 0
  if not (magic == archive_magic) then err value_error else do
    serialized ← archiver.decompress (drop 4 archive)
    l ← split_tables serialized
    ok (l.db, l.address_book, l.client_db)

-- `deserialize` into a server: `apply_state`, with the rest of the server as it was.
unfoldable pub deserialize_into : Archiver → Bytes → Server → Result Server
unfolding deserialize apply_state
deserialize_into archiver archive s = do
  (db, address_book, client_db) ← deserialize archiver archive
  ok (apply_state db client_db address_book s).1
