-- ===== src/Conversation/Post.antt =====
-- Calls of `request` and `respond` of pipebomb/client.py by a client that is linked with its session,
-- and what they do to the session of another.
use pipebomb.Base.{
  Bytes, Str, ℕ, ◌+◌, ◌≤◌, ◌∷◌, ◌≡◌, refl, ◌∙◌, true, false, some, length, take, eq_bytes,
  eq_bytes_iff, arith,
}
use pipebomb.Base.Dict.{lookup, insert, lookup-insert}
use pipebomb.Wire.Crypto.{IsCrypto}
use pipebomb.Wire.Packet.{ack}
use pipebomb.Server.State.{Response, Client, Server, Runtime}
use pipebomb.Server.Monad.{is_latin1}
use pipebomb.Client.Receive.{RawClient, err_prefix}
use pipebomb.Client.Agreement.{request_value, respond_value}
use pipebomb.Conversation.Call.{Linked, Called, answered_call, counted, listening, listening-InStep}
use pipebomb.Conversation.Mail.{
  delivered, filed_in, letter_of, dispatch-put_inbox, dispatch-put_outbox,
}
use pipebomb.Handshake.Serving.{lookup-insert_self}
use pipebomb.Conversation.Sizes.{field_limit, length-request_value, length-respond_value}
use pipebomb.Conversation.Apart.{elsewhere, before}

module _ (rt : Runtime) (laws : IsCrypto rt.crypto) (sock : ℕ) (uuid : Str) (key : Bytes)
    (c : RawClient) (s : Server) (calls : ℕ) (link : Linked uuid key c s (calls + 1)) where
  -- `request` for the session of another: it is answered with the UUID that is drawn, and stands at
  -- the end of the other's inbox.
  pub request_call :
      (target request tag : Bytes) (receiver : Client)
      → lookup target s.client_db ≡ some receiver
      → eq_bytes uuid target ≡ false
      → is_latin1 uuid ≡ true
      → length target + length request + length tag ≤ field_limit
      → length (rt.uuid4_bytes s.drawn) ≡ 16
      → eq_bytes (take 3 (rt.uuid4_bytes s.drawn)) err_prefix ≡ false
      → (r : Called rt sock uuid
          (0x2 ∷ request_value target request tag)
          (rt.uuid4_bytes s.drawn)
          key
          c
          s
          calls)
        × (lookup target r.server.client_db
            ≡ some (delivered (letter_of rt sock uuid request tag s) receiver))
  request_call target request tag receiver found apart text short sized plain =
      let payload = 0x2 ∷ request_value target request tag in
      let answer = rt.uuid4_bytes s.drawn in
      let here = counted rt sock uuid laws payload answer key c s calls link in
      let heard = listening rt sock uuid laws payload answer key c s calls link in
      let item = letter_of rt sock uuid request tag s in
      let t : Server = record here {
        drawn = s.drawn + 1;
        client_db = insert target (delivered item receiver) here.client_db;
      } in
      let mine : lookup uuid t.client_db ≡ some heard =
        lookup-insert target uuid (delivered item receiver) here.client_db
        ∙ ground (
          arith,
          eq_bytes_iff uuid target,
          eq_bytes_iff target uuid,
          lookup-insert_self uuid heard s.client_db,
        ) in
      let (r, left) =
        answered_call rt sock uuid laws payload answer key c s calls link t heard refl
          (omega (arith, length-request_value target request tag)) (ground arith) (omega arith)
          plain
          (dispatch-put_inbox rt sock uuid target request tag receiver here (omega arith)
            (omega arith) (omega arith) text
            (before rt laws sock uuid key c s calls link payload answer target apart ∙ found))
          mine (listening-InStep rt sock uuid laws payload answer key c s calls link) refl in
      (
        r,
        elsewhere rt laws sock uuid key c s calls link t r.server heard r.answer_packet target left
              apart
            ∙ lookup-insert_self target (delivered item receiver) here.client_db,
      )

  -- `respond` to the session of another: it is acknowledged, and filed in the other's outbox.
  pub respond_call :
      (target response tag request_uuid : Bytes) (receiver : Client)
      → lookup target s.client_db ≡ some receiver
      → eq_bytes uuid target ≡ false
      → length target + length response + length tag + length request_uuid ≤ field_limit
      → (r : Called rt sock uuid
          (0x4 ∷ respond_value target response tag request_uuid)
          ack
          key
          c
          s
          calls)
        × (lookup target r.server.client_db
            ≡ some (
                filed_in
                  (record { key = tag; response = response; response_uuid = request_uuid })
                  receiver))
  unfolding eq_bytes
  respond_call target response tag request_uuid receiver found apart short =
      let payload = 0x4 ∷ respond_value target response tag request_uuid in
      let here = counted rt sock uuid laws payload ack key c s calls link in
      let heard = listening rt sock uuid laws payload ack key c s calls link in
      let item : Response = record {
        key = tag;
        response = response;
        response_uuid = request_uuid;
      } in
      let t : Server = record here {
        client_db = insert target (filed_in item receiver) here.client_db;
      } in
      let mine : lookup uuid t.client_db ≡ some heard =
        lookup-insert target uuid (filed_in item receiver) here.client_db
        ∙ ground (
          arith,
          eq_bytes_iff uuid target,
          eq_bytes_iff target uuid,
          lookup-insert_self uuid heard s.client_db,
        ) in
      let (r, left) =
        answered_call rt sock uuid laws payload ack key c s calls link t heard refl
          (omega (arith, length-respond_value target response tag request_uuid)) refl (omega arith)
          refl
          (dispatch-put_outbox rt sock uuid target response tag request_uuid receiver here
            (omega arith) (omega arith) (omega arith) (omega arith)
            (before rt laws sock uuid key c s calls link payload ack target apart ∙ found))
          mine (listening-InStep rt sock uuid laws payload ack key c s calls link) refl in
      (
        r,
        elsewhere rt laws sock uuid key c s calls link t r.server heard r.answer_packet target left
              apart
            ∙ lookup-insert_self target (filed_in item receiver) here.client_db,
      )
