-- ===== src/Archive/RoundTrip.antt =====
-- From one server to another by way of an archive: `serialize` and `deserialize` of
-- pipebomb/server.py.
use pipebomb.Base.{
  Bytes, List, [], ◌++◌, ◌≡◌, ◌≢◌, refl, sym, ap, ◌∙◌, All, All-append, append_assoc,
  drop-append_left, arith, inl, inr,
}
use pipebomb.Base.Result.{Exn, Result, ok, err, ◌>>=◌, came-through, Result-cases}
use pipebomb.Base.Dict.{IsDict}
use pipebomb.Wire.Struct.{be_digits, pack_u32}
use pipebomb.Wire.Struct.Laws.{length-be_digits}
use pipebomb.Server.State.{Server}
use pipebomb.Archive.Write.{
  Archiver, Field, db_fields, book_fields, clients_fields, join_tables, archive_magic, seal,
  after_tables, serialize,
}
use pipebomb.Archive.Read.{nothing_loaded, deserialize}
use pipebomb.Archive.Blocks.{unpack_from-packed}
use pipebomb.Archive.Layout.{IsField, load_all, split_tables-join_tables}
use pipebomb.Archive.Restore.{
  loaded, db_list, db_fields-eq-ok, load_db, AddressFits, book_list, book_fields-eq-ok, load_book,
}
use pipebomb.Archive.Sessions.{ClientFits}
use pipebomb.Archive.Clients.{
  restore_all, restore_all-IsDict, drain_all, IsFiled, clients_list, clients_fields-eq-ok,
  load_clients,
}

-- What the documentation of zstandard promises of a frame that was compressed in one piece, so that
-- its header has the size of the content.
pub record IsArchiver (a : Archiver) : Type 0 where
  pub decompress-compress : (d : Bytes) → a.decompress (a.compress d) ≡ ok d

-- Tables as Python dicts are: no key twice, each session under its own UUID, each response of an
-- outbox once and under its own.
pub record IsArchivable (s : Server) : Type 0 where
  pub db : IsDict s.db
  pub book : IsDict s.address_book
  pub clients : IsDict s.client_db
  pub filed : IsFiled s.client_db

seal-eq-ok :
    (a : Archiver) (fields : List Field) {archive : Bytes}
    → seal a fields ≡ ok archive
    → (serialized : Bytes) × (join_tables fields ≡ ok serialized)
      × (archive ≡ be_digits 4 archive_magic ++ a.compress serialized)
unfolding seal
seal-eq-ok a fields h =
    let (serialized, e, h1) = came-through (join_tables fields) _ h in
    (serialized, e, unfold pack_u32 in ground arith)

deserialize-seal :
    (a : Archiver) (laws : IsArchiver a) (fields : List Field) {archive : Bytes}
    → All IsField fields
    → seal a fields ≡ ok archive
    → deserialize a archive
      ≡ (load_all fields nothing_loaded >>= λ l. ok (l.db, l.address_book, l.client_db))
unfolding deserialize
deserialize-seal a laws fields sized sealed =
    let (serialized, joined, e) = seal-eq-ok a fields sealed in
    let magic = be_digits 4 archive_magic in
    let body = a.compress serialized in
    rw e (
      rw (unpack_from-packed [] archive_magic 0 body (omega arith) refl) (
        rw (drop-append_left 4 magic body (omega (arith, length-be_digits 4 archive_magic))) (
          rw (laws.decompress-compress serialized)
            (rw (split_tables-join_tables fields sized joined)))))

-- The fields of the three tables, loaded one table after the other.
load_tables :
    (s : Server)
    → IsArchivable s
    → All AddressFits s.address_book
    → All (λ entry. ClientFits entry.1) s.client_db
    → load_all
        ((db_list s.db ++ book_list s.address_book) ++ clients_list s.client_db)
        nothing_loaded
      ≡ ok (loaded s.db s.address_book (restore_all s.client_db))
load_tables s h addresses sessions =
    ap (λ fields. load_all fields nothing_loaded)
      (append_assoc (db_list s.db) (book_list s.address_book) (clients_list s.client_db))
    ∙ load_db s.db [] (book_list s.address_book ++ clients_list s.client_db) [] [] h.db
    ∙ load_book s.address_book [] (clients_list s.client_db) s.db [] addresses h.book
    ∙ load_clients s.db s.address_book s.client_db [] sessions h.filed
        (restore_all-IsDict s.client_db h.clients)

-- What came through in `serialize`.
record Serialized (a : Archiver) (s : Server) (archive : Bytes) : Type 0 where
  pub fields : List Field
  pub listed : fields ≡ (db_list s.db ++ book_list s.address_book) ++ clients_list s.client_db
  pub sized : All IsField fields
  pub addresses : All AddressFits s.address_book
  pub sessions : All (λ entry. ClientFits entry.1) s.client_db
  pub sealed : seal a fields ≡ ok archive
  pub left : (serialize a s).1 ≡ record s { client_db = drain_all s.client_db }

-- The fields of the tables of texts, in front of those of the sessions.
abbrev text_fields : Server → Result (List Field)
text_fields s = do a ← db_fields s.db; b ← book_fields s.address_book; ok (a ++ b)

serialize-eq-ok :
    (a : Archiver) (s : Server) {archive : Bytes}
    → (serialize a s).0 ≡ ok archive
    → Serialized a s archive
unfolding serialize
serialize-eq-ok a s h = elim (Result-cases (text_fields s)) [
  | inl (e, raised) ↦ absurd (err-ne-ok (ap (λ r. (after_tables a r s).0) (sym raised) ∙ h))
  | inr (first, came) ↦
      let (texts, et, h1) = came-through (db_fields s.db) _ came in
      let (book, eb, h2) = came-through (book_fields s.address_book) _ h1 in
      let (sessions, es, h3) =
        came-through (clients_fields s.client_db).0 (λ sessions. seal a (first ++ sessions))
          (ap (λ r. (after_tables a r s).0) (sym came) ∙ h) in
      let x = db_fields-eq-ok s.db et in
      let y = book_fields-eq-ok s.address_book eb in
      let z = clients_fields-eq-ok s.client_db es in
      record {
        fields = first ++ sessions;
        listed = ground arith;
        sized =
            All-append IsField first sessions
              (ground (arith, All-append IsField texts book x.1 y.1)) z.sized;
        addresses = y.2;
        sessions = z.fits;
        sealed = h3;
        left = ap (λ r. (after_tables a r s).1) came ∙ ap (λ d. record s { client_db = d }) z.left;
      }
]
  where
    err-ne-ok : {e : Exn} {b : Bytes} → err e ≢ ok b
    err-ne-ok h = cc

-- For tables with no key twice, where each session and each response stands under its own UUID: an
-- archive that `serialize` gave is read back as the tables that went into it, the key-value table and
-- the address book as they were, and of each session its UUID, addresses, inbox and outbox, with no
-- peer, cipher or nonces.
pub deserialize-serialize :
    (a : Archiver) (laws : IsArchiver a) (s : Server) {archive : Bytes}
    → IsArchivable s
    → (serialize a s).0 ≡ ok archive
    → deserialize a archive ≡ ok (s.db, s.address_book, restore_all s.client_db)
deserialize-serialize a laws s h came =
    let r = serialize-eq-ok a s came in
    deserialize-seal a laws r.fields r.sized r.sealed
    ∙ rw (r.listed, load_tables s h r.addresses r.sessions) refl

-- A `serialize` that returns has emptied the inbox of every session of the server that it was called
-- on, and changed nothing else.
pub serialize-drains :
    (a : Archiver) (s : Server) {archive : Bytes}
    → (serialize a s).0 ≡ ok archive
    → (serialize a s).1 ≡ record s { client_db = drain_all s.client_db }
serialize-drains a s came = (serialize-eq-ok a s came).left
