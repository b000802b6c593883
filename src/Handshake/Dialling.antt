-- ===== src/Handshake/Dialling.antt =====
-- `connect` of pipebomb/client.py, over the messages of a handshake that goes through.
use pipebomb.Base.{
  Bytes, ◌+◌, ◌≤◌, List, [], ◌∷◌, ◌++◌, ◌≡◌, refl, Option, some, length, eq_bytes, eq_bytes_refl,
  arith,
}
use pipebomb.Base.Result.{ok}
use pipebomb.Wire.Crypto.{Crypto, IsCrypto, max_output_size}
use pipebomb.Wire.Packet.{ack, construct_packet, verify_packet, Verdict}
use pipebomb.Wire.Stream.{read_packet_frame}
use pipebomb.Wire.Messages.{read_packet_frame-carried, verify-carried, packet-ne-nil}
use pipebomb.Client.Receive.{RawClient}
use pipebomb.Handshake.Keys.{KeyExchange, IsKeyExchange}
use pipebomb.Handshake.Connect.{
  Dial, connect, log_in as log_in_client, send_packet, receive_frame, verify_next, login_payload,
}
use pipebomb.Handshake.Script.{Script, Heard, heard-key}

-- The steps of the client that go through.
module _ (c : Crypto) (d : Dial) where
  send_packet_lem :
      (payload : Bytes) {packet : Bytes}
      → construct_packet c payload d.raw.cipher d.raw.tx_nonce ≡ ok packet
      → send_packet c payload d ≡ (
        ok tt,
        record d { raw = record d.raw { tx_nonce = d.raw.tx_nonce + 1 }; sent = packet ∷ d.sent },
      )
  unfolding send_packet
  send_packet_lem payload built = rw built

  verify_next_lem :
      (packet : Bytes) {verdict : Verdict} {remainder : Option Bytes}
      → verify_packet c packet d.raw.cipher d.raw.rx_nonce ≡ ok (verdict, remainder)
      → verify_next c packet d
        ≡ (ok verdict, record d { raw = record d.raw { rx_nonce = d.raw.rx_nonce + 1 } })
  unfolding verify_next
  verify_next_lem packet verified = rw verified

receive_frame_lem :
    (d : Dial) {found : Bytes} {rest : List Bytes}
    → read_packet_frame d.unread ≡ ok (found, rest)
    → receive_frame d ≡ (ok found, record d { unread = rest })
unfolding receive_frame
receive_frame_lem d read = rw read

-- The client's run over the same script, from a connection that has sent nothing yet.
module _ (c : Crypto) (laws : IsCrypto c) (x : KeyExchange) (xlaws : IsKeyExchange x)
    (private_key peer_key key password : Bytes) (relog_uuid : Option Bytes) {answer : Bytes}
    (raw : RawClient) (script : Script c key password (login_payload c relog_uuid) answer)
    (chunks rest : List Bytes)
    (heard : Heard chunks (x.public_key peer_key) script.ack_packet script.answer_packet rest) where
  -- The client as `__init__` and `close` leave it, and at the end of `connect`.
  abbrev pub idle : Dial
  idle = record { raw = record raw { tx_nonce = 0; rx_nonce = 0 }; unread = chunks; sent = [] }

  abbrev pub connected : Dial
  connected = record {
    raw = record raw { cipher = some key; tx_nonce = 2; rx_nonce = 2 };
    unread = rest;
    sent = script.login_packet ∷ script.password_packet ∷ x.public_key private_key ∷ [];
  }

  -- The client when it is acknowledged.
  abbrev halfway : Dial
  halfway = record {
    raw = record raw { cipher = some key; tx_nonce = 1; rx_nonce = 1 };
    unread = heard.second_chunks ++ rest;
    sent = script.password_packet ∷ x.public_key private_key ∷ [];
  }

  log_in_lem :
      length answer ≤ max_output_size
      → log_in_client c relog_uuid halfway ≡ (ok (eq_bytes answer ack), connected)
  unfolding log_in_client
  log_in_lem short =
      rw (send_packet_lem c halfway (login_payload c relog_uuid) script.login_built) (
        rw
          (receive_frame_lem
            (record halfway {
              raw = record raw { cipher = some key; tx_nonce = 2; rx_nonce = 1 };
              sent = script.login_packet ∷ halfway.sent;
            })
            (read_packet_frame-carried c laws answer key script.answer_packet 1 (omega arith)
              script.answer_built heard.second_chunks rest heard.second_carried))
          (rw
            (verify_next_lem c (record connected { raw = record connected.raw { rx_nonce = 1 } })
              script.answer_packet
              (verify-carried c laws answer key script.answer_packet 1 (omega arith)
                script.answer_built short))
            refl))

  -- The client when it has the server's public key, and when it has sent the password.
  abbrev keyed : Dial
  keyed = record {
    raw = record raw { cipher = some key; tx_nonce = 0; rx_nonce = 0 };
    unread = heard.first_chunks ++ (heard.second_chunks ++ rest);
    sent = x.public_key private_key ∷ [];
  }

  abbrev asked : Dial
  asked = record keyed {
    raw = record raw { cipher = some key; tx_nonce = 1; rx_nonce = 0 };
    sent = script.password_packet ∷ x.public_key private_key ∷ [];
  }

  abbrev told : Dial
  told = record asked { unread = heard.second_chunks ++ rest }

  pub connect_lem :
      (secret : Bytes)
      → x.exchange private_key (x.public_key peer_key) ≡ ok secret
      → x.derive secret ≡ key
      → length answer ≤ max_output_size
      → connect c x private_key password relog_uuid idle ≡ (ok (eq_bytes answer ack), connected)
  unfolding connect
  connect_lem secret exchanged derived short =
      let built = script.ack_built in
      rw
        (
          heard-key (x.public_key peer_key) heard (xlaws.length-public_key peer_key),
          xlaws.length-public_key peer_key,
        )
        (rw (exchanged, derived)
          (rw (send_packet_lem c keyed (0 ∷ password) script.password_built) (
            rw
              (receive_frame_lem asked (
                read_packet_frame-carried c laws ack key script.ack_packet 0 (omega arith) built
                  heard.first_chunks (heard.second_chunks ++ rest) heard.first_carried))
              (rw (packet-ne-nil c laws ack key script.ack_packet 0 (omega arith) built) (
                rw
                  (verify_next_lem c told script.ack_packet (
                    verify-carried c laws ack key script.ack_packet 0 (omega arith) built
                      (omega arith)))
                  (rw (eq_bytes_refl ack) (log_in_lem short)))))))
