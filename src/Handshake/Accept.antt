-- ===== src/Handshake/Accept.antt =====
-- `accept_clients` of pipebomb/server.py. What the peer sends is the list of what `sock_recv` will
-- return. The task of `handle_client` that a connection ends in is the answer `logged_in`.
use pipebomb.Base.{
  Bytes, Str, ℕ, List, [], ◌∷◌, true, not, ◌==◌, ◌||◌, if◌then◌else◌, some, length, eq_bytes,
}
use pipebomb.Base.Result.{Result, ok, err, key_error, type_error, index_error}
use pipebomb.Base.Dict.{contains}
use pipebomb.Wire.Packet.{ack, construct_packet, verify_packet, Verdict, accepted, rejected}
use pipebomb.Wire.Errors.{err_dispatch}
use pipebomb.Wire.Stream.{read_exact, read_packet_frame}
use pipebomb.Server.State.{Client, Server, Runtime}
use pipebomb.Server.Monad.{
  Exec, pure, raise, lift, gets, or_raise, ◌>>=◌, ◌>>◌, client_at, put_client, sendall,
  close_socket,
}
use pipebomb.Server.Exchange.{draw}
use pipebomb.Handshake.Keys.{KeyExchange}

-- A connection that comes in: its socket and address, the private key that is generated for it, and
-- what the peer sends.
pub record Incoming : Type 0 where
  pub socket : ℕ
  pub address : Str
  pub private_key : Bytes
  pub chunks : List Bytes

-- How a round of the loop ends: the peer is refused, or its session is handled from here on, with
-- what it has not yet been read of it.
pub data Admission : Type 0 where
  refused : Admission
  logged_in : Str → List Bytes → Admission

abbrev refuse : ℕ → Exec Admission
refuse sock = do close_socket sock; pure refused

-- A session for a peer that is connected.
abbrev pub new_client : ℕ → Str → Str → Bytes → ℕ → ℕ → Client
new_client sock address uuid key tx_nonce rx_nonce = record {
  socket = sock;
  address = address;
  addresses_owned = [];
  inbox = [];
  outbox = [];
  uuid = uuid;
  cipher = some key;
  rx_nonce = rx_nonce;
  tx_nonce = tx_nonce;
  active = true;
}

module _ (rt : Runtime) (x : KeyExchange) (conn : Incoming) where
  -- One packet of the handshake, under a nonce that the caller counts.
  unfoldable pub send_under : Bytes → ℕ → Bytes → Exec (Unit {0})
  unfolding ◌>>=◌ sendall
  send_under key nonce payload = do
    packet ← lift (construct_packet rt.crypto payload (some key) nonce)
    sendall conn.socket packet

  -- A new session under a UUID of the server's.
  unfoldable pub create_session : Bytes → ℕ → ℕ → Exec Str
  unfolding ◌>>=◌ draw put_client
  create_session key tx_nonce rx_nonce = do
    n ← draw
    let uuid = rt.uuid4_str n
    put_client uuid (new_client conn.socket conn.address uuid key tx_nonce rx_nonce)
    pure uuid

  -- `client.tx_nonce = tx_nonce` and `client.rx_nonce = rx_nonce`
  unfoldable pub set_nonces : Str → ℕ → ℕ → Exec (Unit {0})
  unfolding ◌>>=◌ client_at put_client
  set_nonces uuid tx_nonce rx_nonce = do
    client ← client_at uuid
    put_client uuid (record client { tx_nonce = tx_nonce; rx_nonce = rx_nonce })

  -- 0xC4: the session of that UUID is taken over as it stands; for a UUID that is not known there is
  -- error 7 and a new session.
  unfoldable pub relog : Bytes → Str → Exec Str
  unfolding ◌>>=◌ client_at put_client
  relog key uuid = do
    known ← gets (λ s. contains uuid s.client_db)
    if not known
        then (do
          payload ← or_raise (err_dispatch 7) key_error
          send_under key 1 payload
          create_session key 2 2)
        else (do
          client ← client_at uuid
          put_client uuid
              (record client { address = conn.address; socket = conn.socket; cipher = some key })
          send_under key 1 ack
          pure uuid)

  -- 0xC5: the session is filed before the answer is sent.
  unfoldable pub first_login : Bytes → Exec Str
  unfolding ◌>>=◌
  first_login key = do uuid ← create_session key 1 2; send_under key 1 ack; pure uuid

  abbrev finish : Str → List Bytes → Exec Admission
  finish uuid unread = do set_nonces uuid 2 2; pure (logged_in uuid unread)

  -- The second packet of the peer; where it is not a packet, the socket is left open.
  unfoldable pub log_in : Bytes → List Bytes → Verdict → Exec Admission
  unfolding ◌>>=◌ close_socket
  log_in key unread (rejected code) = pure refused
  log_in key unread (accepted []) = raise index_error
  log_in key unread (accepted (type_ ∷ uuid)) =
      if type_ == 0xC4
      then (do found ← relog key uuid; finish found unread)
      else if type_ == 0xC5
      then (do found ← first_login key; finish found unread)
      else refuse conn.socket

  -- The acknowledgement, and the second packet.
  unfoldable pub after_password : Bytes → List Bytes → Exec Admission
  unfolding ◌>>=◌
  after_password key unread = do
    send_under key 0 ack
    (found, rest) ← lift (read_packet_frame unread)
    (response, remainder) ← lift (verify_packet rt.crypto found (some key) 1)
    log_in key rest response

  -- The first packet, which carries the password behind a zero byte.
  unfoldable pub check_password : Bytes → List Bytes → Verdict → Exec Admission
  unfolding ◌>>=◌ close_socket
  check_password key unread (rejected code) =
      if code == 3 || code == 2 then refuse conn.socket else raise type_error
  check_password key unread (accepted password) = do
    expected ← gets (λ s. s.password)
    if not (eq_bytes password (0 ∷ expected)) then refuse conn.socket else after_password key unread

  -- One connection, from the exchange of the public keys on.
  unfoldable pub accept : Exec Admission
  unfolding ◌>>=◌ close_socket sendall
  accept = do
    let (client_public_key, r0) = read_exact 32 [] conn.chunks
    if not (length client_public_key == 32) then refuse conn.socket else do
      sendall conn.socket (x.public_key conn.private_key)
      secret ← lift (x.exchange conn.private_key client_public_key)
      let key = x.derive secret
      (found, r1) ← lift (read_packet_frame r0)
      (password, remainder) ← lift (verify_packet rt.crypto found (some key) 0)
      check_password key r1 password

module _ (rt : Runtime) (x : KeyExchange) where
  -- An exception is logged, and the loop goes on.
  abbrev after_accept : Result Admission → List Admission → List Admission
  after_accept (ok admission) others = admission ∷ others
  after_accept (err e) others = refused ∷ others

  -- `accept_clients`, for the connections that come in: they are taken one after the other.
  unfoldable pub accept_clients : List Incoming → Server → List Admission × Server
  unfolding accept
  accept_clients [] s = ([], s)
  accept_clients (conn ∷ conns) s =
      let (admission, s') = accept rt x conn s in
      let (others, s'') = accept_clients conns s' in (after_accept admission others, s'')
