-- ===== src/Archive/Checkpoint.antt =====
-- A server that was restored from an archive: `serialize`, and `deserialize` into a server, of
-- pipebomb/server.py.
use pipebomb.Base.{Bytes, Str, List, [], ◌∷◌, ◌++◌, ◌≡◌, refl, ap, ◌∙◌, arith}
use pipebomb.Base.Result.{Result, ok, err, ◌>>=◌}
use pipebomb.Base.Dict.{Dict, lookup}
use pipebomb.Server.State.{Client, Server}
use pipebomb.Server.Admin.{apply_state}
use pipebomb.Server.Addresses.{owned_by}
use pipebomb.Server.Registry.{IsConsistent, SameAddresses-IsConsistent}
use pipebomb.Archive.Write.{
  Archiver, Field, owned_fields, mail_fields, client_fields, after_client, clients_fields, seal,
  after_tables, serialize,
}
use pipebomb.Archive.Read.{deserialize_into}
use pipebomb.Archive.Clients.{restored, restore_all, restore_all-IsDict}
use pipebomb.Archive.RoundTrip.{IsArchiver, IsArchivable, deserialize-serialize}

-- What a session is packed to does not depend on its peer.
client_fields-restored : (c : Client) → (client_fields (restored c)).0 ≡ (client_fields c).0
unfolding client_fields owned_fields
client_fields-restored c = mail (owned_fields c)
  where
    mail :
        (r : Result (Bytes × Field × Field)) → (mail_fields r (restored c)).0 ≡ (mail_fields r c).0
    mail (err e) = refl
    mail (ok (uuid, named, owned)) = refl

after_client-same :
    (key : Str) (r : Result (List Field)) (c d : Client) (rest others : Dict Client)
    (more extra : Result (List Field) × Dict Client)
    → more.0 ≡ extra.0
    → (after_client key (r, c) rest more).0 ≡ (after_client key (r, d) others extra).0
after_client-same key (err e) c d rest others more extra same = refl
after_client-same key (ok fields) c d rest others more extra same =
    ap (λ m. m >>= λ fs. ok (fields ++ fs)) same

clients_fields-restore_all :
    (clients : Dict Client) → (clients_fields (restore_all clients)).0 ≡ (clients_fields clients).0
unfolding clients_fields
clients_fields-restore_all [] = refl
clients_fields-restore_all ((key, c) ∷ clients) =
    ap
      (λ r.
        (after_client key (r, (client_fields (restored c)).1) (restore_all clients)
          (clients_fields (restore_all clients))).0)
      (client_fields-restored c)
    ∙ after_client-same key (client_fields c).0 (client_fields (restored c)).1 (client_fields c).1
        (restore_all clients) clients (clients_fields (restore_all clients))
        (clients_fields clients) (clients_fields-restore_all clients)

owned_by-restore_all :
    (uuid : Str) (clients : Dict Client)
    → owned_by (lookup uuid (restore_all clients)) ≡ owned_by (lookup uuid clients)
unfolding lookup
owned_by-restore_all uuid [] = refl
owned_by-restore_all uuid ((key, c) ∷ clients) = ground (arith, owned_by-restore_all uuid clients)

-- The server, with the tables of the archive.
abbrev pub restored_into : Server → Server → Server
restored_into s t = record t {
  db = s.db;
  address_book = s.address_book;
  client_db = restore_all s.client_db;
}

module _ (a : Archiver) (laws : IsArchiver a) (s : Server) (h : IsArchivable s) {archive : Bytes}
    (came : (serialize a s).0 ≡ ok archive) (t : Server) where
  into-restored : deserialize_into a archive t ≡ ok (restored_into s t)
  unfolding deserialize_into apply_state
  into-restored = rw (deserialize-serialize a laws s h came)

  after_tables-same :
      (r : Result (List Field)) → (after_tables a r (restored_into s t)).0 ≡ (after_tables a r s).0
  after_tables-same (err e) = refl
  after_tables-same (ok first) =
      ap (λ m. m >>= λ sessions. seal a (first ++ sessions))
        (clients_fields-restore_all s.client_db)

  -- For an archive that `serialize` gave of tables with no key twice, where each session and each
  -- response stands under its own UUID: any server can be restored from it, and serializing the
  -- restored server gives the same archive, byte for byte.
  pub serialize-restored :
      (u : Server) × (deserialize_into a archive t ≡ ok u) × ((serialize a u).0 ≡ ok archive)
  unfolding serialize
  serialize-restored = (restored_into s t, into-restored, after_tables-same _ ∙ came)

  -- If the server that the archive was made of is consistent, its tables with no key twice, where each
  -- session and each response stands under its own UUID, then any server can be restored from the
  -- archive, and is consistent.
  pub deserialize_into-IsConsistent :
      IsConsistent s → (u : Server) × (deserialize_into a archive t ≡ ok u) × IsConsistent u
  deserialize_into-IsConsistent consistent = (
    restored_into s t,
    into-restored,
    SameAddresses-IsConsistent
        (record {
          book = refl;
          owned = λ uuid. owned_by-restore_all uuid s.client_db;
          clients = restore_all-IsDict s.client_db;
        })
        consistent,
  )
