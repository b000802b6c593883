-- ===== src/Conversation/Mailbox.antt =====
-- A request from one client to another and the response to it, by `request`, `read_inbox`, `respond`
-- and `read_outbox` of pipebomb/client.py and the sessions of both in pipebomb/server.py.
use pipebomb.Base.{
  Bytes, Str, ℕ, ◌+◌, ◌≤◌, ◌<◌, [], ◌∷◌, ◌++◌, ◌≡◌, refl, ap, ◌∙◌, true, false, some, length, take,
  eq_bytes, eq_bytes_refl, eq_bytes_iff, arith,
}
use pipebomb.Base.Result.{ok}
use pipebomb.Base.Dict.{lookup, lookup-insert}
use pipebomb.Wire.Crypto.{IsCrypto}
use pipebomb.Wire.Packet.{ack}
use pipebomb.Server.State.{Request, Response, Client, Server, Runtime}
use pipebomb.Server.Monad.{is_latin1}
use pipebomb.Client.Receive.{RawClient, err_prefix}
use pipebomb.Client.Messages.{
  request_payload, read_inbox_payload, respond_payload, read_outbox_payload, inbox_of, outbox_of,
}
use pipebomb.Client.Agreement.{
  request_value, request_payload_lem, respond_value, respond_payload_lem, inbox_of-respond_value,
  response_value, outbox_of-response_value,
}
use pipebomb.Handshake.Agreement.{InStep}
use pipebomb.Conversation.Call.{Linked, Called}
use pipebomb.Conversation.Mail.{delivered, filed_in}
use pipebomb.Conversation.Sizes.{field_limit}
use pipebomb.Conversation.Apart.{InStep-kept}
use pipebomb.Conversation.Post.{request_call, respond_call}
use pipebomb.Conversation.Fetch.{read_inbox_call, read_outbox_call}

-- A client is linked as before when its session is where it was, in step as before.
abbrev relinked :
    {uuid : Str} {key : Bytes} {c : RawClient} {s : Server} {calls : ℕ} (t : Server)
    (session : Client) (link : Linked uuid key c s calls)
    → lookup uuid t.client_db ≡ some session
    → InStep key c session
    → Linked uuid key c t calls
relinked t session link there step = record {
  session = session;
  filed = there;
  in_step = step;
  idle = link.idle;
  may_send = link.may_send;
  may_hear = link.may_hear;
}

-- The client `a` asks, the client `b` answers, each on the socket of its session.
module _ (rt : Runtime) (laws : IsCrypto rt.crypto) (sock_a sock_b : ℕ) (a b : Str)
    (key_a key_b : Bytes) (ca cb : RawClient) (s : Server) (calls_a calls_b : ℕ)
    (request key response response_key : Bytes) where
  -- The UUID under which the request and its response go.
  abbrev pub operation : Bytes
  operation = rt.uuid4_bytes s.drawn

  -- What reaches `b`, and what comes back to `a`.
  abbrev pub asked : Request
  asked = record { return_uuid = a; key = key; request = request; request_uuid = operation }

  abbrev pub told : Response
  told = record { key = response_key; response = response; response_uuid = operation }

  -- The four calls, one after the other.
  pub record Delivered : Type 0 where
    pub ask : Bytes
    pub parcel : Bytes
    pub tell : Bytes
    pub letter : Bytes
    pub ask_built : request_payload b request key ≡ ok ask
    pub first : Called rt sock_a a ask operation key_a ca s (calls_a + 1)
    pub second : Called rt sock_b b read_inbox_payload parcel key_b cb first.server (calls_b + 1)
    pub read : inbox_of parcel ≡ ok asked
    pub tell_built : respond_payload asked.return_uuid response response_key operation ≡ ok tell
    pub third : Called rt sock_b b tell ack key_b second.client second.server calls_b
    pub fourth :
        Called rt sock_a a
          (read_outbox_payload operation)
          letter
          key_a
          first.client
          third.server
          calls_a
    pub got_back : outbox_of operation letter ≡ ok told
    pub still_linked : Linked b key_b third.client fourth.server calls_b

  -- Two clients, each linked with its session for two calls at least, the second one's inbox empty;
  -- the first one's UUID in latin-1; fields that are 1 GiB at most together, a response that is not
  -- all empty, and a UUID drawn that has no "ERR" in front. The first client's request is answered
  -- with that UUID; the second reads the request, with the first's UUID to answer to; its response is
  -- acknowledged; and the first reads the response under the UUID. Both are linked again.
  pub request-respond :
      (link_a : Linked a key_a ca s (calls_a + 1 + 1))
      (link_b : Linked b key_b cb s (calls_b + 1 + 1))
      → eq_bytes a b ≡ false
      → link_b.session.inbox ≡ []
      → is_latin1 a ≡ true
      → length operation ≡ 16
      → eq_bytes (take 3 operation) err_prefix ≡ false
      → length a + length b + length request + length key + 16 ≤ field_limit
      → length a + length response + length response_key + 16 ≤ field_limit
      → 0 < length response_key + length response
      → Delivered
  request-respond link_a link_b apart empty text sized plain short_request short_response given =
      let apart' : eq_bytes b a ≡ false = ground (arith, eq_bytes_iff a b, eq_bytes_iff b a) in
      let (first, put) =
        request_call rt laws sock_a a key_a ca s (calls_a + 1) link_a b request key link_b.session
          link_b.filed apart text (omega arith) sized plain in
      let link_b' = relinked first.server (delivered asked link_b.session) link_b put (
        InStep-kept link_b.session (delivered asked link_b.session) refl refl refl
          link_b.in_step) in
      let (second, same) =
        read_inbox_call rt laws sock_b b key_b cb first.server (calls_b + 1) link_b' asked [] a
          (ap (λ q. q ++ (asked ∷ [])) empty) apart' (omega (arith, sized)) in
      let alice = first.linked.session in
      let (third, filed) =
        respond_call rt laws sock_b b key_b second.client second.server calls_b second.linked a
          response response_key operation alice (same ∙ first.linked.filed) apart'
          (omega (arith, sized)) in
      let link_a' =
        relinked third.server (filed_in told alice) first.linked filed
          (InStep-kept alice (filed_in told alice) refl refl refl first.linked.in_step) in
      let found : lookup operation (filed_in told alice).outbox ≡ some told =
        lookup-insert operation operation told alice.outbox ∙ rw eq_bytes_refl in
      let (fourth, same') =
        read_outbox_call rt laws sock_a a key_a first.client third.server calls_a link_a' response
          response_key operation b found apart (omega (arith, sized)) in
      record {
        ask = 0x2 ∷ request_value b request key;
        parcel = respond_value a request key operation;
        tell = 0x4 ∷ respond_value a response response_key operation;
        letter = response_value response_key response;
        ask_built = request_payload_lem b request key (omega arith) (omega arith) (omega arith);
        first = first;
        second = second;
        read =
            inbox_of-respond_value a request key operation (omega arith) (omega arith) (omega arith)
              (omega (arith, sized));
        tell_built =
            respond_payload_lem a response response_key operation (omega arith) (omega arith)
              (omega arith) (omega (arith, sized));
        third = third;
        fourth = fourth;
        got_back =
            outbox_of-response_value response_key response operation (omega arith) (omega arith)
              given;
        still_linked =
            relinked fourth.server third.linked.session third.linked (same' ∙ third.linked.filed)
              third.linked.in_step;
      }
