-- ===== src/Conversation/Mail.antt =====
-- The four commands of the mailboxes as calls of a client: `request`, `read_inbox`, `respond` and
-- `read_outbox` of pipebomb/client.py, and what they leave in the sessions of pipebomb/server.py.
use pipebomb.Base.{Bytes, Str, ℕ, ◌+◌, ◌<◌, List, [], ◌∷◌, ◌++◌, ◌≡◌, refl, true, some, length}
use pipebomb.Base.Dict.{lookup, insert, erase}
use pipebomb.Wire.Struct.{u32_limit}
use pipebomb.Wire.Packet.{ack}
use pipebomb.Server.State.{Request, Response, Client, Server, Runtime}
use pipebomb.Server.Monad.{
  ◌>>=◌, ◌>>◌, pure, reply, is_latin1, encode_latin1, client_at, put_client,
}
use pipebomb.Server.Requests.{served}
use pipebomb.Server.Exchange.{
  draw, handle_put_inbox, handle_get_inbox, take_inbox, handle_put_outbox, handle_get_outbox,
  take_outbox, client_request,
}
use pipebomb.Server.Session.{dispatch}
use pipebomb.Client.Agreement.{
  request_value, inbox_fields-request_value, respond_value, outbox_fields-respond_value,
  pack_request_lem, response_value, pack_response_lem,
}

-- A session with one more request at the end of its inbox, and with a response filed in its outbox.
abbrev pub delivered : Request → Client → Client
delivered item receiver = record receiver { inbox = receiver.inbox ++ (item ∷ []) }

abbrev pub filed_in : Response → Client → Client
filed_in item receiver = record receiver { outbox = insert item.response_uuid item receiver.outbox }

module _ (rt : Runtime) (sock : ℕ) (uuid : Str) where
  -- What a session puts into an inbox, under the UUID that is drawn.
  abbrev pub letter_of : Bytes → Bytes → Server → Request
  letter_of request key s = record {
    return_uuid = uuid;
    key = key;
    request = request;
    request_uuid = rt.uuid4_bytes s.drawn;
  }

  -- The four commands, where the sessions and what they look for are there.
  pub dispatch-put_inbox :
      (target request key : Bytes) (receiver : Client) (s : Server)
      → length target < u32_limit
      → length request < u32_limit
      → length key < u32_limit
      → is_latin1 uuid ≡ true
      → lookup target s.client_db ≡ some receiver
      → dispatch rt sock uuid (0x2 ∷ request_value target request key) s
        ≡ (reply rt sock uuid (rt.uuid4_bytes s.drawn) >> pure served) (record s {
          drawn = s.drawn + 1;
          client_db = insert target (delivered (letter_of request key s) receiver) s.client_db;
        })
  unfolding ◌>>=◌ dispatch client_request handle_put_inbox draw client_at put_client encode_latin1
  dispatch-put_inbox target request key receiver s ht hr hk text found =
      rw (inbox_fields-request_value target request key ht hr hk, found) (rw text refl)

  pub dispatch-get_inbox :
      (item : Request) (inbox : List Request) (client : Client) (s : Server)
      → length item.return_uuid < u32_limit
      → length item.request < u32_limit
      → length item.key < u32_limit
      → length item.request_uuid < u32_limit
      → lookup uuid s.client_db ≡ some client
      → client.inbox ≡ item ∷ inbox
      → dispatch rt sock uuid (0x3 ∷ []) s
        ≡ (reply rt sock uuid
                (respond_value item.return_uuid item.request item.key item.request_uuid)
              >> pure served)
            (record s { client_db = insert uuid (record client { inbox = inbox }) s.client_db })
  unfolding ◌>>=◌ dispatch client_request handle_get_inbox take_inbox client_at put_client
  dispatch-get_inbox item inbox client s hu hr hk hq found queued = rw found (
      rw queued (
        rw (pack_request_lem item.return_uuid item.request item.key item.request_uuid hu hr hk hq)
          refl))

  pub dispatch-put_outbox :
      (target response key request_uuid : Bytes) (receiver : Client) (s : Server)
      → length target < u32_limit
      → length response < u32_limit
      → length key < u32_limit
      → length request_uuid < u32_limit
      → lookup target s.client_db ≡ some receiver
      → dispatch rt sock uuid (0x4 ∷ respond_value target response key request_uuid) s
        ≡ (reply rt sock uuid ack >> pure served) (record s {
          client_db =
              insert target
                (filed_in
                  (record { key = key; response = response; response_uuid = request_uuid })
                  receiver)
                s.client_db;
        })
  unfolding ◌>>=◌ dispatch client_request handle_put_outbox client_at put_client
  dispatch-put_outbox target response key request_uuid receiver s ht hr hk hq found =
      rw (outbox_fields-respond_value target response key request_uuid ht hr hk hq) (rw found refl)

  pub dispatch-get_outbox :
      (key response request_uuid : Bytes) (client : Client) (s : Server)
      → length response < u32_limit
      → length key < u32_limit
      → lookup uuid s.client_db ≡ some client
      → lookup request_uuid client.outbox
        ≡ some (record { key = key; response = response; response_uuid = request_uuid })
      → dispatch rt sock uuid (0x5 ∷ request_uuid) s
        ≡ (reply rt sock uuid (response_value key response) >> pure served) (record s {
          client_db =
              insert uuid (record client { outbox = erase request_uuid client.outbox }) s.client_db;
        })
  unfolding ◌>>=◌ dispatch client_request handle_get_outbox take_outbox client_at put_client
  dispatch-get_outbox key response request_uuid client s hr hk found there =
      rw found (rw there (rw (pack_response_lem key response request_uuid hk hr) refl))
