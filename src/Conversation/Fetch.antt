-- ===== src/Conversation/Fetch.antt =====
-- Calls of `read_inbox` and `read_outbox` of pipebomb/client.py by a client that is linked with its
-- session.
use pipebomb.Base.{
  Bytes, Str, ℕ, ◌+◌, ◌≤◌, List, [], ◌∷◌, ◌≡◌, refl, ◌∙◌, false, some, length, eq_bytes, arith,
}
use pipebomb.Base.Dict.{lookup, insert, erase, lookup-insert}
use pipebomb.Wire.Crypto.{IsCrypto}
use pipebomb.Server.State.{Request, Server, Runtime}
use pipebomb.Client.Receive.{RawClient}
use pipebomb.Client.Agreement.{respond_value, response_value}
use pipebomb.Conversation.Call.{Linked, Called, answered_call, counted, listening, listening-InStep}
use pipebomb.Conversation.Mail.{dispatch-get_inbox, dispatch-get_outbox}
use pipebomb.Handshake.Serving.{lookup-insert_self}
use pipebomb.Conversation.Sizes.{
  field_limit, be_digits-plain, length-respond_value, length-response_value,
}
use pipebomb.Conversation.Apart.{InStep-kept, elsewhere, before}

module _ (rt : Runtime) (laws : IsCrypto rt.crypto) (sock : ℕ) (uuid : Str) (key : Bytes)
    (c : RawClient) (s : Server) (calls : ℕ) (link : Linked uuid key c s (calls + 1)) where
  -- `read_inbox` with a request in the inbox: it is answered with the oldest.
  pub read_inbox_call :
      (item : Request) (inbox : List Request) (other : Str)
      → link.session.inbox ≡ item ∷ inbox
      → eq_bytes uuid other ≡ false
      → length item.return_uuid + length item.request + length item.key + length item.request_uuid
        ≤ field_limit
      → (r : Called rt sock uuid
          (0x3 ∷ [])
          (respond_value item.return_uuid item.request item.key item.request_uuid)
          key
          c
          s
          calls)
        × (lookup other r.server.client_db ≡ lookup other s.client_db)
  read_inbox_call item inbox other queued apart short =
      let answer = respond_value item.return_uuid item.request item.key item.request_uuid in
      let sized = length-respond_value item.return_uuid item.request item.key item.request_uuid in
      let here = counted rt sock uuid laws (0x3 ∷ []) answer key c s calls link in
      let heard = listening rt sock uuid laws (0x3 ∷ []) answer key c s calls link in
      let step = listening-InStep rt sock uuid laws (0x3 ∷ []) answer key c s calls link in
      let standing = record heard { inbox = inbox } in
      let t : Server = record here { client_db = insert uuid standing here.client_db } in
      let (r, left) =
        answered_call rt sock uuid laws (0x3 ∷ []) answer key c s calls link t standing refl
          (omega arith) (ground (arith, sized)) (omega (arith, sized))
          (be_digits-plain (length item.return_uuid) _ (omega arith))
          (dispatch-get_inbox rt sock uuid item inbox heard here (omega arith) (omega arith)
            (omega arith) (omega arith) (lookup-insert_self uuid heard s.client_db) queued)
          (lookup-insert_self uuid standing here.client_db)
          (InStep-kept heard standing refl refl refl step) refl in
      (
        r,
        elsewhere rt laws sock uuid key c s calls link t r.server standing r.answer_packet other
              left apart
            ∙ lookup-insert uuid other standing here.client_db
            ∙ rw apart (before rt laws sock uuid key c s calls link (0x3 ∷ []) answer other apart),
      )

  -- `read_outbox` of a response that is there: it is answered with it.
  pub read_outbox_call :
      (response tag request_uuid : Bytes) (other : Str)
      → lookup request_uuid link.session.outbox
        ≡ some (record { key = tag; response = response; response_uuid = request_uuid })
      → eq_bytes uuid other ≡ false
      → length response + length tag + length request_uuid ≤ field_limit
      → (r : Called rt sock uuid (0x5 ∷ request_uuid) (response_value tag response) key c s calls)
        × (lookup other r.server.client_db ≡ lookup other s.client_db)
  read_outbox_call response tag request_uuid other there apart short =
      let payload = 0x5 ∷ request_uuid in
      let answer = response_value tag response in
      let sized = length-response_value tag response in
      let here = counted rt sock uuid laws payload answer key c s calls link in
      let heard = listening rt sock uuid laws payload answer key c s calls link in
      let step = listening-InStep rt sock uuid laws payload answer key c s calls link in
      let standing = record heard { outbox = erase request_uuid heard.outbox } in
      let t : Server = record here { client_db = insert uuid standing here.client_db } in
      let (r, left) =
        answered_call rt sock uuid laws payload answer key c s calls link t standing refl
          (omega arith) (ground (arith, sized)) (omega (arith, sized))
          (be_digits-plain (length tag) _ (omega arith))
          (dispatch-get_outbox rt sock uuid tag response request_uuid heard here (omega arith)
            (omega arith) (lookup-insert_self uuid heard s.client_db) there)
          (lookup-insert_self uuid standing here.client_db)
          (InStep-kept heard standing refl refl refl step) refl in
      (
        r,
        elsewhere rt laws sock uuid key c s calls link t r.server standing r.answer_packet other
              left apart
            ∙ lookup-insert uuid other standing here.client_db
            ∙ rw apart (before rt laws sock uuid key c s calls link payload answer other apart),
      )
