-- ===== src/Handshake/Serving.antt =====
-- `accept_clients` of pipebomb/server.py, over the messages of a handshake that goes through.
use pipebomb.Base.{
  Bytes, Str, ℕ, ◌+◌, ◌≤◌, List, [], ◌∷◌, ◌++◌, ◌≡◌, refl, some, none, length, eq_bytes_refl, arith,
}
use pipebomb.Base.Result.{ok}
use pipebomb.Base.Dict.{Dict, lookup, insert, lookup-insert}
use pipebomb.Wire.Errors.{err_dispatch}
use pipebomb.Wire.Crypto.{IsCrypto, max_plaintext}
use pipebomb.Wire.Packet.{ack, construct_packet, accepted}
use pipebomb.Wire.Messages.{Carries, read_packet_frame-carried, verify-carried}
use pipebomb.Server.State.{Client, Server, Runtime}
use pipebomb.Handshake.Keys.{KeyExchange, IsKeyExchange}
use pipebomb.Handshake.Accept.{
  Incoming, logged_in, new_client, send_under, create_session, set_nonces, relog, first_login,
  log_in, after_password, check_password, accept,
}
use pipebomb.Handshake.Script.{Script, Heard, heard-key}

module _ (rt : Runtime) (laws : IsCrypto rt.crypto) (x : KeyExchange) (xlaws : IsKeyExchange x)
    (conn : Incoming) (peer_key key : Bytes) {login answer : Bytes} (s : Server)
    (script : Script rt.crypto key s.password login answer) (rest : List Bytes)
    (heard : Heard conn.chunks
      (x.public_key peer_key)
      script.password_packet
      script.login_packet
      rest) where
  -- The server as it is when it has the login.
  abbrev pub acknowledged : Server
  acknowledged = record s {
    sent = (conn.socket, script.ack_packet) ∷ (conn.socket, x.public_key conn.private_key) ∷ s.sent;
  }

  after_password-log_in :
      (chunks : List Bytes) (t : Server)
      → Carries chunks script.login_packet
      → length login + 7 ≤ max_plaintext
      → after_password rt x conn key (chunks ++ rest) t
        ≡ log_in rt x conn key rest
            (accepted login)
            (record t { sent = (conn.socket, script.ack_packet) ∷ t.sent })
  unfolding after_password send_under
  after_password-log_in chunks t carried short = rw script.ack_built (
      rw
        (read_packet_frame-carried rt.crypto laws login key script.login_packet 1 (omega arith)
          script.login_built chunks rest carried)
        (rw (
          verify-carried rt.crypto laws login key script.login_packet 1 (omega arith)
            script.login_built (omega arith))))

  pub accept-log_in :
      (secret : Bytes)
      → x.exchange conn.private_key (x.public_key peer_key) ≡ ok secret
      → x.derive secret ≡ key
      → length s.password + 8 ≤ max_plaintext
      → length login + 7 ≤ max_plaintext
      → accept rt x conn s ≡ log_in rt x conn key rest (accepted login) acknowledged
  unfolding accept check_password
  accept-log_in secret exchanged derived short_password short_login =
      rw
        (
          heard-key (x.public_key peer_key) heard (xlaws.length-public_key peer_key),
          xlaws.length-public_key peer_key,
        )
        (rw (exchanged, derived)
          (rw
            (read_packet_frame-carried rt.crypto laws (0 ∷ s.password) key script.password_packet 0
              (omega arith) script.password_built heard.first_chunks (heard.second_chunks ++ rest)
              heard.first_carried)
            (rw
              (verify-carried rt.crypto laws (0 ∷ s.password) key script.password_packet 0
                (omega arith) script.password_built (omega arith))
              (rw (eq_bytes_refl (0 ∷ s.password)) (
                after_password-log_in heard.second_chunks
                  (record s { sent = (conn.socket, x.public_key conn.private_key) ∷ s.sent })
                  heard.second_carried short_login)))))

pub lookup-insert_self :
    (uuid : Str) (client : Client) (d : Dict Client)
    → lookup uuid (insert uuid client d) ≡ some client
lookup-insert_self uuid client d =
    ground (arith, lookup-insert uuid uuid client d, eq_bytes_refl uuid)

-- What each login leaves, once its answer is built.
module _ (rt : Runtime) (x : KeyExchange) (conn : Incoming) (key : Bytes) (rest : List Bytes)
    (answer packet : Bytes) (built : construct_packet rt.crypto answer (some key) 1 ≡ ok packet)
    (t : Server) where
  -- A session that is filed and answered, with its nonces as they are at the end.
  abbrev pub admitted : Str → Client → ℕ → Server
  admitted uuid client drawn = record t {
    sent = (conn.socket, packet) ∷ t.sent;
    client_db =
        insert uuid (record client { tx_nonce = 2; rx_nonce = 2 }) (insert uuid client t.client_db);
    drawn = drawn;
  }

  pub log_in_first :
      answer ≡ ack
      → let uuid = rt.uuid4_str t.drawn in
        log_in rt x conn key rest (accepted (0xC5 ∷ [])) t ≡ (
          ok (logged_in uuid rest),
          admitted uuid (new_client conn.socket conn.address uuid key 1 2) (t.drawn + 1),
        )
  unfolding log_in first_login create_session send_under set_nonces
  log_in_first e = rw (rw e at built) (rw (lookup-insert_self _ _ t.client_db) refl)

  pub log_in_known :
      (uuid : Str) (client : Client)
      → lookup uuid t.client_db ≡ some client
      → answer ≡ ack
      → log_in rt x conn key rest (accepted (0xC4 ∷ uuid)) t ≡ (
        ok (logged_in uuid rest),
        admitted uuid
            (record client { address = conn.address; socket = conn.socket; cipher = some key })
            t.drawn,
      )
  unfolding log_in relog send_under set_nonces
  log_in_known uuid client found e =
      rw found (rw (rw e at built) (rw found (rw (lookup-insert_self uuid _ t.client_db) refl)))

  pub log_in_unknown :
      (uuid : Str)
      → lookup uuid t.client_db ≡ none
      → err_dispatch 7 ≡ some answer
      → let new_uuid = rt.uuid4_str t.drawn in
        log_in rt x conn key rest (accepted (0xC4 ∷ uuid)) t ≡ (
          ok (logged_in new_uuid rest),
          admitted new_uuid (new_client conn.socket conn.address new_uuid key 2 2) (t.drawn + 1),
        )
  unfolding log_in relog create_session send_under set_nonces
  log_in_unknown uuid missing e =
      rw missing (rw e (rw built (rw (lookup-insert_self _ _ t.client_db) refl)))
