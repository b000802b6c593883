-- ===== src/Handshake/Agreement.antt =====
-- Both ends of a handshake together: `accept_clients` of pipebomb/server.py and `connect` of
-- pipebomb/client.py come out of it in step.
use pipebomb.Base.{
  Bytes, Str, ℕ, ◌+◌, ◌≤◌, List, [], ◌∷◌, ◌≡◌, refl, sym, ap, ◌∙◌, ◌⊎◌, inl, Bool, true, false,
  Option, some, none, length, arith, eq_bytes, eq_bytes_refl, eq_bytes_iff,
}
use pipebomb.Base.Result.{Result, ok}
use pipebomb.Base.Dict.{lookup, insert, lookup-insert}
use pipebomb.Wire.Crypto.{IsCrypto, max_plaintext, max_output_size}
use pipebomb.Wire.Packet.{ack, accepted}
use pipebomb.Wire.Errors.{err_dispatch}
use pipebomb.Client.Receive.{RawClient}
use pipebomb.Server.State.{Client, Server, Runtime}
use pipebomb.Handshake.Keys.{KeyExchange, IsKeyExchange}
use pipebomb.Handshake.Accept.{Incoming, logged_in, new_client, log_in, accept}
use pipebomb.Handshake.Connect.{Dial, connect, login_payload}
use pipebomb.Handshake.Script.{Script, Heard}
use pipebomb.Handshake.Serving.{
  acknowledged, accept-log_in, lookup-insert_self, admitted, log_in_first, log_in_unknown,
}
use pipebomb.Handshake.Dialling.{connected, connect_lem}

-- Each end counts what the other sends, under the same key.
pub record InStep (key : Bytes) (raw : RawClient) (session : Client) : Type 0 where
  pub client_key : raw.cipher ≡ some key
  pub server_key : session.cipher ≡ some key
  pub to_server : raw.tx_nonce ≡ session.rx_nonce
  pub to_client : session.tx_nonce ≡ raw.rx_nonce

-- The key that both ends derive.
abbrev pub shared_key : (x : KeyExchange) → IsKeyExchange x → Bytes → Bytes → Bytes
shared_key x xlaws k l = x.derive (xlaws.exchange-total k l).0

-- A connection and a client that hear each other: each is sent what the other sends, in chunks.
pub record Meeting (rt : Runtime) (x : KeyExchange) (xlaws : IsKeyExchange x) (conn : Incoming)
    (s : Server) (client_private : Bytes) (relog_uuid : Option Bytes) (answer : Bytes)
    : Type 0 where
  pub key : Bytes
  pub is_shared : key ≡ shared_key x xlaws conn.private_key client_private
  pub script : Script rt.crypto key s.password (login_payload rt.crypto relog_uuid) answer
  pub rest : List Bytes
  pub heard :
      Heard conn.chunks
        (x.public_key client_private)
        script.password_packet
        script.login_packet
        rest
  pub chunks : List Bytes
  pub unread : List Bytes
  pub answered :
      Heard chunks (x.public_key conn.private_key) script.ack_packet script.answer_packet unread

-- A client whose nonces are at 0, where `__init__` sets them: `connect` does not.
unfoldable pub IsFresh : RawClient → Type 0
IsFresh raw = (raw.tx_nonce ≡ 0) × (raw.rx_nonce ≡ 0)

IsFresh-reset : (raw : RawClient) → IsFresh raw → record raw { tx_nonce = 0; rx_nonce = 0 } ≡ raw
unfolding IsFresh
IsFresh-reset raw (tx, rx) =
    ap (λ n. record raw { tx_nonce = n; rx_nonce = 0 }) (sym tx)
    ∙ ap (λ n. record raw { rx_nonce = n }) (sym rx)

module _ (rt : Runtime) (x : KeyExchange) (xlaws : IsKeyExchange x) (conn : Incoming) (s : Server)
    (client_private : Bytes) (raw : RawClient) (relog_uuid : Option Bytes) {answer : Bytes}
    (m : Meeting rt x xlaws conn s client_private relog_uuid answer) where
  -- The run of the client.
  abbrev pub dialled : Result Bool × Dial
  dialled =
      connect rt.crypto x client_private s.password relog_uuid
        (record { raw = raw; unread = m.chunks; sent = [] })

  -- How both ends come out: the server's admission under a UUID, with the session that is filed
  -- there; the client's answer; and that each has sent what the other heard.
  pub record Joined (uuid : Str) (acknowledged : Bool) : Type 0 where
    pub session : Client
    pub admission : (accept rt x conn s).0 ≡ ok (logged_in uuid m.rest)
    pub filed : lookup uuid (accept rt x conn s).1.client_db ≡ some session
    pub socket : session.socket ≡ conn.socket
    pub server_sent :
        (accept rt x conn s).1.sent
        ≡ (conn.socket, m.script.answer_packet)
          ∷ (conn.socket, m.script.ack_packet)
          ∷ (conn.socket, x.public_key conn.private_key)
          ∷ s.sent
    pub client_answer : dialled.0 ≡ ok acknowledged
    pub client_sent :
        dialled.1.sent
        ≡ m.script.login_packet ∷ m.script.password_packet ∷ x.public_key client_private ∷ []
    pub in_step : InStep m.key dialled.1.raw session
    pub nonces : (dialled.1.raw.tx_nonce ≡ 2) × (dialled.1.raw.rx_nonce ≡ 2)
    pub tasks : dialled.1.raw.tasks ≡ raw.tasks
    -- The other sessions are as they were, and the inbox is empty, or that of the session before.
    pub others :
        (other : Str)
        → eq_bytes uuid other ≡ false
        → lookup other (accept rt x conn s).1.client_db ≡ lookup other s.client_db
    pub mail :
        (session.inbox ≡ [])
        ⊎ ((before : Client) × (lookup uuid s.client_db ≡ some before)
            × (session.inbox ≡ before.inbox))

  module _ (laws : IsCrypto rt.crypto) (short_password : length s.password + 8 ≤ max_plaintext)
      (fresh : IsFresh raw) where
    answered :
        length answer ≤ max_output_size
        → dialled ≡ (
          ok (eq_bytes answer ack),
          connected rt.crypto laws x xlaws client_private conn.private_key m.key s.password
              relog_uuid raw m.script m.chunks m.unread m.answered,
        )
    answered short =
        ap
          (λ r.
            connect rt.crypto x client_private s.password relog_uuid
              (record { raw = r; unread = m.chunks; sent = [] }))
          (sym (IsFresh-reset raw fresh))
        ∙ connect_lem rt.crypto laws x xlaws client_private conn.private_key m.key s.password
            relog_uuid raw m.script m.chunks m.unread m.answered
            (xlaws.exchange-total conn.private_key client_private).0
            (xlaws.exchange_comm client_private conn.private_key
              ∙ (xlaws.exchange-total conn.private_key client_private).1)
            (sym m.is_shared) short

    -- The server when it has the login.
    abbrev waiting : Server
    waiting = acknowledged rt laws x xlaws conn client_private m.key s m.script m.rest m.heard

    -- A login that files a session for the connection joins both ends.
    joined :
        (uuid : Str) (session : Client) (drawn : ℕ) {acknowledged : Bool}
        → length (login_payload rt.crypto relog_uuid) + 7 ≤ max_plaintext
        → length answer ≤ max_output_size
        → log_in rt x conn m.key m.rest (accepted (login_payload rt.crypto relog_uuid)) waiting ≡ (
          ok (logged_in uuid m.rest),
          admitted rt x conn m.key m.rest answer m.script.answer_packet m.script.answer_built
              waiting uuid session drawn,
        )
        → session.socket ≡ conn.socket
        → session.cipher ≡ some m.key
        → eq_bytes answer ack ≡ acknowledged
        → (session.inbox ≡ [])
          ⊎ ((before : Client) × (lookup uuid s.client_db ≡ some before)
              × (session.inbox ≡ before.inbox))
        → Joined uuid acknowledged
    joined uuid session drawn short short_answer logged at_socket keyed same mail =
        let served =
          accept-log_in rt laws x xlaws conn client_private m.key s m.script m.rest m.heard
            (xlaws.exchange-total conn.private_key client_private).0
            (xlaws.exchange-total conn.private_key client_private).1 (sym m.is_shared)
            short_password short
          ∙ logged in
        let told = answered short_answer in
        record {
          session = record session { tx_nonce = 2; rx_nonce = 2 };
          admission = ap (λ r. r.0) served;
          filed =
              ap (λ r. lookup uuid r.1.client_db) served
              ∙ lookup-insert_self uuid (record session { tx_nonce = 2; rx_nonce = 2 })
                  (insert uuid session s.client_db);
          socket = at_socket;
          server_sent = ap (λ r. r.1.sent) served;
          client_answer = ap (λ r. r.0) told ∙ ap ok same;
          client_sent = ap (λ r. r.1.sent) told;
          nonces = (ap (λ r. r.1.raw.tx_nonce) told, ap (λ r. r.1.raw.rx_nonce) told);
          tasks = ap (λ r. r.1.raw.tasks) told;
          others = λ other apart.
              ap (λ r. lookup other r.1.client_db) served
              ∙ lookup-insert uuid other (record session { tx_nonce = 2; rx_nonce = 2 })
                  (insert uuid session s.client_db)
              ∙ rw apart (lookup-insert uuid other session s.client_db ∙ rw apart refl);
          mail = mail;
          in_step = record {
            client_key = ap (λ r. r.1.raw.cipher) told;
            server_key = keyed;
            to_server = ap (λ r. r.1.raw.tx_nonce) told;
            to_client = sym (ap (λ r. r.1.raw.rx_nonce) told);
          };
        }

-- An error reply is short, and no acknowledgement.
err_dispatch_size :
    (code : ℕ) {payload : Bytes}
    → err_dispatch code ≡ some payload
    → length payload ≤ max_output_size
unfolding err_dispatch
err_dispatch_size code found = ground arith

err_dispatch-ne-ack :
    (code : ℕ) {payload : Bytes} → err_dispatch code ≡ some payload → eq_bytes payload ack ≡ false
unfolding err_dispatch
err_dispatch-ne-ack code found = ground (arith, eq_bytes_iff (0 ∷ 69 ∷ 82 ∷ 82 ∷ code ∷ []) ack)

-- The three ways to log in.
module _ (rt : Runtime) (laws : IsCrypto rt.crypto) (x : KeyExchange) (xlaws : IsKeyExchange x)
    (conn : Incoming) (s : Server) (client_private : Bytes) (raw : RawClient) where
  -- A first login, of a client with its nonces at 0 that has the password, of at most the size of a
  -- packet, and hears what the server sends: the server
  -- files a session for it under the next UUID and leaves the others as they were, the client is
  -- acknowledged, and both have the same key and count the same nonces in both directions.
  pub first_login-Joined :
      (m : Meeting rt x xlaws conn s client_private none ack)
      → IsFresh raw
      → length s.password + 8 ≤ max_plaintext
      → Joined rt x xlaws conn s client_private raw none m (rt.uuid4_str s.drawn) true
  first_login-Joined m fresh short =
      let uuid = rt.uuid4_str s.drawn in
      joined rt x xlaws conn s client_private raw none m laws short fresh uuid
        (new_client conn.socket conn.address uuid m.key 1 2) (s.drawn + 1) (omega arith)
        (omega arith)
        (log_in_first rt x conn m.key m.rest ack m.script.answer_packet m.script.answer_built
          (waiting rt x xlaws conn s client_private raw none m laws short fresh) refl)
        refl refl (eq_bytes_refl ack) (inl refl)

  -- A login under a UUID that no session has, of a client with its nonces at 0 that has the password
  -- and hears what the server sends, password and UUID of at most the size of a packet: the client is
  -- not acknowledged, and there is a new session, with which it is in step all the same.
  pub relog_unknown-Joined :
      (uuid answer : Bytes) (m : Meeting rt x xlaws conn s client_private (some uuid) answer)
      → err_dispatch 7 ≡ some answer
      → lookup uuid s.client_db ≡ none
      → IsFresh raw
      → length s.password + 8 ≤ max_plaintext
      → length uuid + 8 ≤ max_plaintext
      → Joined rt x xlaws conn s client_private raw (some uuid) m (rt.uuid4_str s.drawn) false
  relog_unknown-Joined uuid answer m found missing fresh short short_uuid =
      let new_uuid = rt.uuid4_str s.drawn in
      let session = new_client conn.socket conn.address new_uuid m.key 2 2 in
      joined rt x xlaws conn s client_private raw (some uuid) m laws short fresh new_uuid session
        (s.drawn + 1) (omega arith) (err_dispatch_size 7 found)
        (log_in_unknown rt x conn m.key m.rest answer m.script.answer_packet m.script.answer_built
          (waiting rt x xlaws conn s client_private raw (some uuid) m laws short fresh) uuid missing
          found)
        refl refl (err_dispatch-ne-ack 7 found) (inl refl)
