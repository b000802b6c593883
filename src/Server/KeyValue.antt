-- ===== src/Server/KeyValue.antt =====
-- The key-value commands from end to end: the payloads of pipebomb/client.py through the dispatch of
-- pipebomb/server.py.
use pipebomb.Base.{
  Bytes, Str, ℕ, ◌+◌, ◌≤◌, ◌<◌, [], ◌∷◌, ◌≡◌, ◌∙◌, false, none, some, is_empty, length,
  if◌then◌else◌, eq_bytes, eq_bytes_refl, eq_bytes_iff, arith, Option-cases, inl, inr,
}
use pipebomb.Base.Result.{ok, err, runtime_error}
use pipebomb.Base.Dict.{lookup, insert, lookup-insert, lookup-erase, IsDict}
use pipebomb.Wire.Struct.{u32_limit}
use pipebomb.Wire.Crypto.{IsCrypto, max_plaintext}
use pipebomb.Wire.Packet.{ack}
use pipebomb.Server.State.{Client, Server, Runtime}
use pipebomb.Server.Monad.{pure, ◌>>=◌, ◌>>◌, reply}
use pipebomb.Server.Requests.{served, server_request, handle_set, handle_get, handle_delete}
use pipebomb.Server.Session.{dispatch}
use pipebomb.Server.Replies.{IsLive, IsAnswered, serve-db, refuse-db, reply-empty, reply-IsAnswered}
use pipebomb.Client.Messages.{set_payload}
use pipebomb.Client.Cutting.{set_value, set_payload_lem, set_fields-set_value}

module _ (rt : Runtime) (sock : ℕ) (uuid : Str) where
  -- The payload that `set` sends for a key and a value makes the server store that value under that
  -- key, and leaves every other entry.
  dispatch-set :
      (key value : Bytes) (s : Server)
      → length key < u32_limit
      → length value < u32_limit
      → (dispatch rt sock uuid (0x81 ∷ set_value key value) s).1.db ≡ insert key value s.db
  unfolding dispatch server_request handle_set
  dispatch-set key value s hk hv =
      rw (set_fields-set_value key value hk hv) (serve-db rt sock uuid ack _)

  pub dispatch-get :
      (key value : Bytes) (s : Server)
      → lookup key s.db ≡ some value
      → dispatch rt sock uuid (0x82 ∷ key) s ≡ (reply rt sock uuid value >> pure served) s
  unfolding dispatch server_request handle_get
  dispatch-get key value s found = rw found

  -- A SET, for a key and a value whose lengths fit in 32 bits: the payload is built, and the dispatch
  -- of it leaves the value under its key, and every other entry as it was.
  pub set-stores :
      (key value : Bytes) (s : Server)
      → length key < u32_limit
      → length value < u32_limit
      → (payload : Bytes) × (set_payload key value ≡ ok payload)
        × ((j : Bytes)
            → lookup j (dispatch rt sock uuid payload s).1.db
              ≡ (if eq_bytes key j then some value else lookup j s.db))
  set-stores key value s hk hv = (
    0x81 ∷ set_value key value,
    set_payload_lem key value hk hv,
    λ j. rw (dispatch-set key value s hk hv) (lookup-insert key j value s.db),
  )

  -- A GET of a value that is there is answered with it.
  pub get-answers :
      (laws : IsCrypto rt.crypto) (k value key : Bytes) (client : Client) (s : Server)
      → IsLive rt sock uuid client key s
      → lookup k s.db ≡ some value
      → is_empty value ≡ false
      → length value + 7 ≤ max_plaintext
      → IsAnswered rt sock uuid (dispatch rt sock uuid (0x82 ∷ k)) value key client s
  get-answers laws k value key client s live found nonempty short =
      let r = reply-IsAnswered rt sock uuid laws value key client s live nonempty short in
      record {
        packet = r.packet;
        state = dispatch-get k value s found ∙ r.state;
        verified = r.verified;
      }

  -- A GET of a value that is there and empty, on a session that is there, raises a RuntimeError, and
  -- nothing is sent.
  pub get_empty :
      (k : Bytes) (client : Client) (s : Server)
      → lookup uuid s.client_db ≡ some client
      → lookup k s.db ≡ some []
      → dispatch rt sock uuid (0x82 ∷ k) s ≡ (err runtime_error, s)
  unfolding ◌>>=◌
  get_empty k client s found empty =
      dispatch-get k [] s empty ∙ rw (reply-empty rt sock uuid client s found)

  -- In a table with no key twice, DELETE takes the key out, and leaves every other entry.
  pub delete-removes :
      (k j : Bytes) (s : Server)
      → IsDict s.db
      → lookup j (dispatch rt sock uuid (0x83 ∷ k) s).1.db
        ≡ (if eq_bytes k j then none else lookup j s.db)
  unfolding dispatch server_request handle_delete
  delete-removes k j s h = elim (Option-cases (lookup k s.db)) [
    | inl missing ↦ rw (missing, refuse-db rt sock uuid 5 s) (ground (arith, eq_bytes_iff k j))
    | inr (value, found) ↦ rw (found, serve-db rt sock uuid ack _) (lookup-erase k j s.db h)
  ]

module _ (rt : Runtime) (laws : IsCrypto rt.crypto) (writer reader : ℕ)
    (writer_uuid reader_uuid : Str) where
  -- A value that one client has set, not empty and within the size of a packet, is what another client
  -- gets, if that client's session is live: the reply is one packet, which its key and nonce open.
  pub get-set :
      (k value key : Bytes) (client : Client) (s : Server)
      → length k < u32_limit
      → is_empty value ≡ false
      → length value + 7 ≤ max_plaintext
      → IsLive rt reader reader_uuid client key
          (dispatch rt writer writer_uuid (0x81 ∷ set_value k value) s).1
      → IsAnswered rt reader reader_uuid
          (dispatch rt reader reader_uuid (0x82 ∷ k))
          value
          key
          client
          (dispatch rt writer writer_uuid (0x81 ∷ set_value k value) s).1
  get-set k value key client s hk nonempty short live =
      let t = (dispatch rt writer writer_uuid (0x81 ∷ set_value k value) s).1 in
      let stored : lookup k t.db ≡ some value =
        rw (dispatch-set rt writer writer_uuid k value s hk (omega arith))
          (lookup-insert k k value s.db ∙ rw eq_bytes_refl) in
      get-answers rt reader reader_uuid laws k value key client t live stored nonempty short
