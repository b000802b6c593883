-- ===== src/Tests/Archives.antt =====
-- The theorems about archives at a concrete server.
use pipebomb.Base.{Bytes, arith, eq_bytes_iff, Str, [], ◌∷◌, ◌≡◌, refl, false}
use pipebomb.Base.Result.{Result, ok, err, zstd_error}
use pipebomb.Base.Dict.{lookup}
use pipebomb.Wire.Struct.{pack_u32}
use pipebomb.Server.State.{Request, Response, Client, Server}
use pipebomb.Server.Monad.{encode_latin1}
use pipebomb.Archive.Write.{
  Archiver, db_fields, book_fields, pack_addresses, drain, pack_responses, clients_fields, seal,
  serialize,
}
use pipebomb.Archive.Read.{
  deserialize, deserialize_into, read_items, take_block, take_request, take_response,
}
use pipebomb.Archive.Clients.{restore_all, drain_all}
use pipebomb.Archive.RoundTrip.{IsArchiver, IsArchivable, deserialize-serialize, serialize-drains}
use pipebomb.Archive.Fuel.{items-enough}
use pipebomb.Archive.Checkpoint.{serialize-restored, deserialize_into-IsConsistent}
use pipebomb.Server.Registry.{IsConsistent}
use pipebomb.Server.Requests.{elem}
use pipebomb.Tests.{server, uuid_a, uuid_b, session}

-- A compressor that puts one byte in front.
unfoldable toy_decompress : Bytes → Result Bytes
toy_decompress [] = err zstd_error
toy_decompress (b ∷ bytes) = ok bytes

abbrev archiver : Archiver
archiver = record { compress = λ d. 40 ∷ d; decompress = toy_decompress }

archiver-IsArchiver : IsArchiver archiver
unfolding toy_decompress
archiver-IsArchiver = record { decompress-compress = λ d. refl }

-- A session with an address, a request that waits, and a response that was not collected.
abbrev x : Str
x = 120 ∷ []

abbrev waiting : Request
waiting = record { return_uuid = uuid_b; key = x; request = 1 ∷ 2 ∷ []; request_uuid = 9 ∷ [] }

abbrev answer : Response
answer = record { key = x; response = 3 ∷ []; response_uuid = 8 ∷ [] }

abbrev owner : Client
owner = record (session uuid_a (x ∷ [])) { inbox = waiting ∷ []; outbox = (8 ∷ [], answer) ∷ [] }

abbrev kept : Server
kept = record {
  db = (x, 7 ∷ []) ∷ [];
  client_db = (uuid_a, owner) ∷ [];
  address_book = (x, uuid_a) ∷ [];
  password = 112 ∷ [];
  keep_dead_sessions = false;
  sent = [];
  closed = [];
  drawn = 0;
}

kept-IsArchivable : IsArchivable kept
unfolding lookup
kept-IsArchivable = record {
  db = (refl, tt);
  book = (refl, tt);
  clients = (refl, tt);
  filed = ((refl, ((refl, tt), (refl, tt))), tt);
}

-- What the tables are joined to.
abbrev archive_of : Result Bytes → Bytes
archive_of (ok archive) = archive
archive_of (err e) = []

abbrev archive : Bytes
archive = archive_of (serialize archiver kept).0

came : (serialize archiver kept).0 ≡ ok archive
unfolding serialize db_fields book_fields clients_fields seal pack_u32 encode_latin1 pack_addresses
    drain pack_responses
came = refl

deserialize-serialize_example :
    deserialize archiver archive ≡ ok (kept.db, kept.address_book, restore_all kept.client_db)
deserialize-serialize_example =
    deserialize-serialize archiver archiver-IsArchiver kept kept-IsArchivable came

serialize-drains_example :
    (serialize archiver kept).1 ≡ record kept { client_db = drain_all kept.client_db }
serialize-drains_example = serialize-drains archiver kept came

-- A server that was just started.
abbrev fresh : Server
fresh = server [] []

serialize-restored_example :
    (u : Server) × (deserialize_into archiver archive fresh ≡ ok u)
    × ((serialize archiver u).0 ≡ ok archive)
serialize-restored_example =
    serialize-restored archiver archiver-IsArchiver kept kept-IsArchivable came fresh

kept-IsConsistent : IsConsistent kept
unfolding lookup elem
kept-IsConsistent = record {
  books = (refl, tt);
  clients = (refl, tt);
  once = λ u. ground (arith, eq_bytes_iff uuid_a u);
  agree = λ u a. ground (arith, eq_bytes_iff uuid_a u, eq_bytes_iff x a);
}

deserialize_into-IsConsistent_example :
    (u : Server) × (deserialize_into archiver archive fresh ≡ ok u) × IsConsistent u
deserialize_into-IsConsistent_example =
    deserialize_into-IsConsistent archiver archiver-IsArchiver kept kept-IsArchivable came fresh
      kept-IsConsistent

items-enough_example :
    (read_items take_block 6 (0 ∷ 0 ∷ 0 ∷ 1 ∷ 120 ∷ [])
      ≡ read_items take_block 5 (0 ∷ 0 ∷ 0 ∷ 1 ∷ 120 ∷ []))
    × (read_items take_request 6 (0 ∷ 0 ∷ 0 ∷ 1 ∷ 120 ∷ [])
        ≡ read_items take_request 5 (0 ∷ 0 ∷ 0 ∷ 1 ∷ 120 ∷ []))
    × (read_items take_response 6 (0 ∷ 0 ∷ 0 ∷ 1 ∷ 120 ∷ [])
        ≡ read_items take_response 5 (0 ∷ 0 ∷ 0 ∷ 1 ∷ 120 ∷ []))
items-enough_example = items-enough 6 5 (0 ∷ 0 ∷ 0 ∷ 1 ∷ 120 ∷ []) (omega arith) (omega arith)
