-- ===== src/Conversation/Call.antt =====
-- One call of a client: `send` and the sending loop of pipebomb/client.py, `handle_client` of
-- pipebomb/server.py, and the receiving loop.
use pipebomb.Base.{
  Bytes, Str, ℕ, ◌+◌, ◌≤◌, [], ◌∷◌, ◌++◌, ◌≡◌, refl, sym, ap, ◌∙◌, false, some, none, is_empty,
  length, take, eq_bytes, append-nil, arith,
}
use pipebomb.Base.Result.{Result, ok}
use pipebomb.Base.Dict.{lookup, insert}
use pipebomb.Wire.Crypto.{IsCrypto, max_plaintext}
use pipebomb.Wire.Packet.{construct_packet, verify_packet, verify_frame, accepted}
use pipebomb.Wire.Construct.{nonce_limit, construct_total}
use pipebomb.Wire.RoundTrip.{verify-construct}
use pipebomb.Server.State.{Client, Server, Runtime}
use pipebomb.Server.Monad.{pure, continue, ◌>>=◌, ◌>>◌, client_at, add_rx_nonce, reply}
use pipebomb.Server.Requests.{Outcome, served}
use pipebomb.Server.Session.{done, dispatch, handle_verdict, handle_frame}
use pipebomb.Server.Replies.{sent_state, reply-IsAnswered}
use pipebomb.Client.Receive.{RawClient, err_prefix, task_done, on_result, receive_frame}
use pipebomb.Client.ReceiveLaws.{queued, on_verdict-queued}
use pipebomb.Client.Sending.{send, send_step}
use pipebomb.Handshake.Serving.{lookup-insert_self}
use pipebomb.Handshake.Agreement.{InStep}

-- A client and the session that it is in step with, at rest, with nonces to spare.
pub record Linked (uuid : Str) (key : Bytes) (c : RawClient) (s : Server) (calls : ℕ) : Type 0 where
  pub session : Client
  pub filed : lookup uuid s.client_db ≡ some session
  pub in_step : InStep key c session
  pub idle : c.tasks ≡ []
  pub may_send : c.tx_nonce + calls ≤ nonce_limit
  pub may_hear : c.rx_nonce + calls ≤ nonce_limit

module _ (rt : Runtime) (sock : ℕ) (uuid : Str) where
  -- The call of a payload that is answered: the client sends one packet, the session's handler takes
  -- it and sends one, and the client's receiving loop queues the answer. Both are linked again.
  pub record Called (payload answer key : Bytes) (c : RawClient) (s : Server) (calls : ℕ)
      : Type 0 where
    pub request_packet : Bytes
    pub answer_packet : Bytes
    pub waiting : RawClient
    pub client : RawClient
    pub server : Server
    pub sent : send_step (send rt.crypto payload c).1 ≡ (some request_packet, (ok tt, waiting))
    pub handled : handle_frame rt sock uuid (some request_packet) s ≡ (ok (done served), server)
    pub answered : server.sent ≡ (sock, answer_packet) ∷ s.sent
    pub heard : receive_frame rt.crypto answer_packet waiting ≡ (ok tt, client)
    pub got : client.input_packets ≡ c.input_packets ++ (answer ∷ [])
    pub linked : Linked uuid key client server calls

  module _ (laws : IsCrypto rt.crypto) (payload answer key : Bytes) (c : RawClient) (s : Server)
      (calls : ℕ) (link : Linked uuid key c s (calls + 1)) where
    -- The client when its packet is sent, and the server when the session has counted it.
    abbrev pub called : RawClient
    called = record c { tasks = []; tx_nonce = c.tx_nonce + 1 }

    abbrev pub listening : Client
    listening = record link.session { rx_nonce = link.session.rx_nonce + 1 }

    abbrev pub counted : Server
    counted = record s { client_db = insert uuid listening s.client_db }

    client_sends :
        (packet : Bytes)
        → construct_packet rt.crypto payload (some key) c.tx_nonce ≡ ok packet
        → send_step (send rt.crypto payload c).1 ≡ (some packet, (ok tt, called))
    unfolding send send_step task_done
    client_sends packet built = rw (link.in_step.client_key, built, link.idle) (ground arith)

    session_takes :
        (packet : Bytes)
        → verify_packet rt.crypto packet (some key) link.session.rx_nonce
          ≡ ok (accepted payload, none)
        → handle_frame rt sock uuid (some packet) s
          ≡ (dispatch rt sock uuid payload >>= λ outcome. pure (done outcome)) counted
    unfolding ◌>>=◌ handle_frame client_at verify_frame add_rx_nonce handle_verdict
    session_takes packet verified =
        let opened =
          ap (λ k. verify_packet rt.crypto packet k link.session.rx_nonce) link.in_step.server_key
          ∙ verified in
        rw link.filed (rw opened (rw link.filed refl))

    client_hears :
        (packet : Bytes)
        → verify_packet rt.crypto packet (some key) c.rx_nonce ≡ ok (accepted answer, none)
        → eq_bytes (take 3 answer) err_prefix ≡ false
        → receive_frame rt.crypto packet called ≡ (ok tt, queued answer called)
    unfolding receive_frame on_result
    client_hears packet verified plain =
        ap (λ k. on_result (verify_packet rt.crypto packet k c.rx_nonce) called)
          link.in_step.client_key
        ∙ rw verified (on_verdict-queued answer called plain)

    -- A call of which the dispatch leaves the session its cipher and nonces, and comes to an answer,
    -- with data.
    pub answered_call :
        (t : Server) (standing : Client)
        → is_empty payload ≡ false
        → length payload + 7 ≤ max_plaintext
        → is_empty answer ≡ false
        → length answer + 7 ≤ max_plaintext
        → eq_bytes (take 3 answer) err_prefix ≡ false
        → dispatch rt sock uuid payload counted ≡ (reply rt sock uuid answer >> pure served) t
        → lookup uuid t.client_db ≡ some standing
        → InStep key called standing
        → t.sent ≡ s.sent
        → (r : Called payload answer key c s calls) × (r.server
            ≡ sent_state rt sock uuid standing r.answer_packet t)
    unfolding ◌>>=◌
    answered_call t standing given short given_answer short_answer plain dispatched there step
          nothing_sent =
        let (packet, built) =
          construct_total rt.crypto laws payload key c.tx_nonce given (omega (arith, link.may_send))
            short in
        let verified = rw append-nil at (
          verify-construct rt.crypto laws payload key [] c.tx_nonce (omega (arith, link.may_send))
            (omega arith) built) in
        let taken = session_takes packet (
          ap (λ n. verify_packet rt.crypto packet (some key) n) (sym link.in_step.to_server)
          ∙ verified) in
        let reply_ =
          reply-IsAnswered rt sock uuid laws answer key standing t
            (record {
              found = there;
              keyed = step.server_key;
              fits = omega (arith, link.may_hear, step.to_client);
            })
            given_answer short_answer in
        (
          record {
            request_packet = packet;
            answer_packet = reply_.packet;
            waiting = called;
            client = queued answer called;
            server = sent_state rt sock uuid standing reply_.packet t;
            sent = client_sends packet built;
            handled =
                taken
                ∙ ap
                    (λ (r : Result Outcome × Server).
                      continue r.0 (λ outcome. pure (done outcome)) r.1)
                    (dispatched ∙ reply_.state);
            answered = ap (λ l. (sock, reply_.packet) ∷ l) nothing_sent;
            heard =
                client_hears reply_.packet
                  (ap (λ n. verify_packet rt.crypto reply_.packet (some key) n) (sym step.to_client)
                    ∙ reply_.verified)
                  plain;
            got = refl;
            linked = record {
              session = record standing { tx_nonce = standing.tx_nonce + 1 };
              filed = lookup-insert_self uuid _ t.client_db;
              in_step = record {
                client_key = step.client_key;
                server_key = step.server_key;
                to_server = step.to_server;
                to_client = ap (λ n. n + 1) step.to_client;
              };
              idle = refl;
              may_send = omega (arith, link.may_send);
              may_hear = omega (arith, link.may_hear);
            };
          },
          refl,
        )

    -- The session has counted the packet, and the client too.
    pub listening-InStep : InStep key called listening
    listening-InStep = record {
      client_key = link.in_step.client_key;
      server_key = link.in_step.server_key;
      to_server = ap (λ n. n + 1) link.in_step.to_server;
      to_client = link.in_step.to_client;
    }

    -- A call of which the dispatch does no more to the sessions than to answer it, with data.
    pub call_lem :
        (t : Server)
        → is_empty payload ≡ false
        → length payload + 7 ≤ max_plaintext
        → is_empty answer ≡ false
        → length answer + 7 ≤ max_plaintext
        → eq_bytes (take 3 answer) err_prefix ≡ false
        → dispatch rt sock uuid payload counted ≡ (reply rt sock uuid answer >> pure served) t
        → t.client_db ≡ counted.client_db
        → t.sent ≡ s.sent
        → (r : Called payload answer key c s calls) × (r.server.db ≡ t.db)
    call_lem t given short given_answer short_answer plain dispatched same_sessions nothing_sent =
        let (r, left) =
          answered_call t listening given short given_answer short_answer plain dispatched
            (ap (lookup uuid) same_sessions ∙ lookup-insert_self uuid listening s.client_db)
            listening-InStep nothing_sent in
        (r, ap (λ (v : Server). v.db) left)
