-- ===== src/Server/Exchange.antt =====
-- `handle_client` of pipebomb/server.py: the commands with bit 7 clear, by which clients find one
-- another and exchange requests and responses.
use pipebomb.Base.{Bytes, Str, ℕ, ◌+◌, List, [], ◌∷◌, ◌++◌, ◌==◌, if◌then◌else◌, Option, none, some}
use pipebomb.Base.Result.{ok}
use pipebomb.Base.Dict.{lookup, insert, erase}
use pipebomb.Wire.Packet.{ack}
use pipebomb.Server.State.{Request, Response, Client, Runtime}
use pipebomb.Server.Fields.{inbox_fields, outbox_fields, pack_request, pack_response}
use pipebomb.Server.Monad.{
  Exec, pure, lift, gets, ◌>>=◌, ◌>>◌, encode_latin1, client_at, put_client, reply, reply_error,
}
use pipebomb.Server.Requests.{Outcome, served, waiting, handle_unknown}

-- `uuid4()`: the next of the runtime's.
unfoldable pub draw : Exec ℕ
draw s = (ok s.drawn, record s { drawn = s.drawn + 1 })

module _ (rt : Runtime) (sock : ℕ) (uuid : Str) where
  -- The UUID that was found, or error 5.
  unfoldable pub reply_owner : Option Str → Exec (Unit {0})
  unfolding ◌>>=◌
  reply_owner (some owner) = do payload ← lift (encode_latin1 owner); reply rt sock uuid payload
  reply_owner none = reply_error rt sock uuid 5

  unfoldable pub handle_whohas : Bytes → Exec Outcome
  unfolding ◌>>=◌ reply_owner
  handle_whohas command = do
    found ← gets (λ s. lookup command s.address_book)
    reply_owner found
    pure served

  unfoldable pub handle_put_inbox : Bytes → Exec Outcome
  unfolding ◌>>=◌ client_at put_client draw
  handle_put_inbox value = do
    (target, request, key) ← lift (inbox_fields value)
    n ← draw
    receiver ← client_at target
    return_uuid ← lift (encode_latin1 uuid)
    let item : Request = record {
      return_uuid = return_uuid;
      key = key;
      request = request;
      request_uuid = rt.uuid4_bytes n;
    }
    put_client target (record receiver { inbox = receiver.inbox ++ (item ∷ []) })
    reply rt sock uuid (rt.uuid4_bytes n)
    pure served

  -- `await client.inbox.get()` on an empty inbox waits; the session does nothing meanwhile.
  unfoldable pub take_inbox : Client → List Request → Exec Outcome
  unfolding ◌>>=◌ put_client
  take_inbox client [] = pure waiting
  take_inbox client (request ∷ inbox) = do
    put_client uuid (record client { inbox = inbox })
    payload ← lift (pack_request request)
    reply rt sock uuid payload
    pure served

  unfoldable pub handle_get_inbox : Exec Outcome
  unfolding ◌>>=◌ client_at take_inbox
  handle_get_inbox = do client ← client_at uuid; take_inbox client client.inbox

  unfoldable pub handle_put_outbox : Bytes → Exec Outcome
  unfolding ◌>>=◌ client_at put_client
  handle_put_outbox value = do
    (target, res, key, req_uuid) ← lift (outbox_fields value)
    receiver ← client_at target
    let item : Response = record { key = key; response = res; response_uuid = req_uuid }
    put_client target (record receiver { outbox = insert req_uuid item receiver.outbox })
    reply rt sock uuid ack
    pure served

  -- `client.outbox.pop(req_uuid)`, and its reply.
  unfoldable pub take_outbox : Bytes → Client → Option Response → Exec (Unit {0})
  unfolding ◌>>=◌ put_client
  take_outbox req_uuid client none = reply_error rt sock uuid 7
  take_outbox req_uuid client (some response) = do
    put_client uuid (record client { outbox = erase req_uuid client.outbox })
    payload ← lift (pack_response response)
    reply rt sock uuid payload

  unfoldable pub handle_get_outbox : Bytes → Exec Outcome
  unfolding ◌>>=◌ client_at take_outbox
  handle_get_outbox req_uuid = do
    client ← client_at uuid
    take_outbox req_uuid client (lookup req_uuid client.outbox)
    pure served

  -- The dispatch on the low four bits of the command byte.
  unfoldable pub client_request : ℕ → Bytes → Exec Outcome
  client_request opcode value =
      if opcode == 1
      then handle_whohas value
      else if opcode == 2
      then handle_put_inbox value
      else if opcode == 3
      then handle_get_inbox
      else if opcode == 4
      then handle_put_outbox value
      else if opcode == 5
      then handle_get_outbox value
      else handle_unknown rt sock uuid
