-- ===== src/Handshake/Consistency.antt =====
-- A connection that comes in, admitted or not, keeps the address book and the sessions of
-- pipebomb/server.py in agreement.
use pipebomb.Base.{
  Bytes, Str, ℕ, ◌+◌, List, [], ◌∷◌, ◌≡◌, refl, not, ◌==◌, ◌||◌, some, none, length, eq_bytes,
  eq_bytes_iff, arith,
}
use pipebomb.Base.Result.{key_error}
use pipebomb.Base.Dict.{lookup, insert, contains, lookup-insert, insert-IsDict}
use pipebomb.Wire.Packet.{
  construct_packet, verify_packet, ack, Verdict, Verified, accepted, rejected,
}
use pipebomb.Wire.Errors.{err_dispatch}
use pipebomb.Wire.Stream.{read_exact, read_packet_frame}
use pipebomb.Server.State.{Client, Server, Runtime}
use pipebomb.Server.Monad.{
  Exec, pure, lift, gets, or_raise, ◌>>=◌, ◌>>◌, client_at, put_client, sendall, close_socket,
}
use pipebomb.Server.Addresses.{
  IsCalm, IsCalm-at, IsCalm-pure, IsCalm-raise, IsCalm-bind, bind-same, put_client-same, calm_rules,
}
use pipebomb.Server.Registry.{IsConsistent}
use pipebomb.Server.Requests.{elem}
use pipebomb.Handshake.Keys.{KeyExchange}
use pipebomb.Handshake.Accept.{
  Incoming, refused, logged_in, new_client, send_under, create_session, set_nonces, relog,
  first_login, log_in, after_password, check_password, accept,
}
use pipebomb.Handshake.Quiet.{
  Admits, Admits-Quiet, Admits-calm, Admits-if, Admits-then, Quiet, Quiet-gets, Quiet-lift,
  Quiet-lift_bind, Quiet-or_raise, Quiet-sendall,
}

-- A session with no addresses, filed under a UUID that none has.
module _ (uuid : Str) (client : Client) (bare : client.addresses_owned ≡ []) (s : Server)
    (fresh : lookup uuid s.client_db ≡ none) (h : IsConsistent s) where
  filed-IsConsistent :
      IsConsistent (record s { client_db = insert uuid client s.client_db; drawn = s.drawn + 1 })
  unfolding elem
  filed-IsConsistent = record {
    books = h.books;
    clients = insert-IsDict uuid client s.client_db h.clients;
    once = λ u. ground (arith, lookup-insert uuid u client s.client_db, h.once u);
    agree = λ u a.
        ground (arith, lookup-insert uuid u client s.client_db, h.agree u a, eq_bytes_iff uuid u);
  }

module _ (rt : Runtime) (x : KeyExchange) (conn : Incoming) where
  IsCalm-send_under :
      (key : Bytes) (nonce : ℕ) (payload : Bytes) → IsCalm (send_under rt x conn key nonce payload)
  unfolding send_under
  IsCalm-send_under key nonce payload = search calm_rules

  Quiet-send_under :
      (key : Bytes) (nonce : ℕ) (payload : Bytes) → Quiet (send_under rt x conn key nonce payload)
  unfolding send_under
  Quiet-send_under key nonce payload =
      Quiet-lift_bind (construct_packet rt.crypto payload (some key) nonce) (sendall conn.socket)
        (Quiet-sendall conn.socket)

  -- Reading a session and writing it back with the addresses that it had.
  IsCalm-rewrite :
      {B : Type 0} (uuid : Str) (f : Client → Client) (m : Exec B)
      → ((client : Client) → (f client).addresses_owned ≡ client.addresses_owned)
      → IsCalm m
      → IsCalm (client_at uuid >>= λ client. (put_client uuid (f client) >> m))
  IsCalm-rewrite uuid f m same calm =
      IsCalm-at uuid (λ client. put_client uuid (f client) >> m)
        (λ client s found.
          bind-same (put_client uuid (f client)) (λ _. m) s
            (put_client-same uuid client (f client) s found (same client)) (λ _. calm))

  IsCalm-set_nonces :
      (uuid : Str) (tx_nonce rx_nonce : ℕ) → IsCalm (set_nonces rt x conn uuid tx_nonce rx_nonce)
  unfolding set_nonces
  IsCalm-set_nonces uuid tx_nonce rx_nonce = IsCalm-at uuid _ (λ client s found.
      put_client-same uuid client (record client { tx_nonce = tx_nonce; rx_nonce = rx_nonce }) s
        found refl)

  Admits-create_session :
      (key : Bytes) (tx_nonce rx_nonce : ℕ)
      → Admits rt (create_session rt x conn key tx_nonce rx_nonce)
  unfolding create_session
  Admits-create_session key tx_nonce rx_nonce = record {
    at = λ s h fresh.
        filed-IsConsistent (rt.uuid4_str s.drawn)
          (new_client conn.socket conn.address (rt.uuid4_str s.drawn) key tx_nonce rx_nonce) refl s
          fresh h;
  }

  Admits-relog : (key : Bytes) (uuid : Str) → Admits rt (relog rt x conn key uuid)
  unfolding relog
  Admits-relog key uuid =
      Admits-Quiet rt (gets (λ s. contains uuid s.client_db)) _ (Quiet-gets _) λ known.
        Admits-if rt (not known) _ _
          (Admits-Quiet rt (or_raise (err_dispatch 7) key_error) _ (Quiet-or_raise _ _) λ payload.
            Admits-Quiet rt _ _ (Quiet-send_under key 1 payload) λ _. Admits-create_session key 2 2)
          (Admits-calm rt _ (
            IsCalm-rewrite uuid
              (λ client. record client {
                address = conn.address;
                socket = conn.socket;
                cipher = some key;
              })
              (send_under rt x conn key 1 ack >> pure uuid) (λ client. refl)
              (IsCalm-bind _ _ (IsCalm-send_under key 1 ack) (λ _. IsCalm-pure uuid))))

  Admits-first_login : (key : Bytes) → Admits rt (first_login rt x conn key)
  unfolding first_login
  Admits-first_login key =
      Admits-then rt _ _ (Admits-create_session key 1 2)
        λ uuid. IsCalm-bind _ _ (IsCalm-send_under key 1 ack) (λ _. IsCalm-pure uuid)

  refuse-IsCalm : (sock : ℕ) → IsCalm (close_socket sock >> pure refused)
  refuse-IsCalm sock = search calm_rules

  Admits-log_in :
      (key : Bytes) (unread : List Bytes) (verdict : Verdict)
      → Admits rt (log_in rt x conn key unread verdict)
  unfolding log_in
  Admits-log_in key unread (rejected code) = Admits-calm rt _ (IsCalm-pure _)
  Admits-log_in key unread (accepted []) = Admits-calm rt _ (IsCalm-raise _)
  Admits-log_in key unread (accepted (type_ ∷ uuid)) =
      let done = λ (found : Str).
        IsCalm-bind _ _ (IsCalm-set_nonces found 2 2) (λ _. IsCalm-pure (logged_in found unread)) in
      Admits-if rt (type_ == 0xC4) _ _ (Admits-then rt _ _ (Admits-relog key uuid) done) (
        Admits-if rt (type_ == 0xC5) _ _ (Admits-then rt _ _ (Admits-first_login key) done)
          (Admits-calm rt _ (refuse-IsCalm conn.socket)))

  Admits-after_password :
      (key : Bytes) (unread : List Bytes) → Admits rt (after_password rt x conn key unread)
  unfolding after_password
  Admits-after_password key unread = Admits-Quiet rt _ _ (Quiet-send_under key 0 ack) λ _.
      Admits-Quiet rt (lift (read_packet_frame unread)) _ (Quiet-lift (read_packet_frame unread))
        λ (packet : Bytes × List Bytes).
          Admits-Quiet rt (lift (verify_packet rt.crypto packet.0 (some key) 1)) _
            (Quiet-lift (verify_packet rt.crypto packet.0 (some key) 1))
            λ (verified : Verified). Admits-log_in key packet.1 verified.0

  Admits-check_password :
      (key : Bytes) (unread : List Bytes) (verdict : Verdict)
      → Admits rt (check_password rt x conn key unread verdict)
  unfolding check_password
  Admits-check_password key unread (rejected code) =
      Admits-if rt (code == 3 || code == 2) _ _ (Admits-calm rt _ (refuse-IsCalm conn.socket))
        (Admits-calm rt _ (IsCalm-raise _))
  Admits-check_password key unread (accepted password) =
      Admits-Quiet rt _ _ (Quiet-gets _) λ expected.
        Admits-if rt (not (eq_bytes password (0 ∷ expected))) _ _
          (Admits-calm rt _ (refuse-IsCalm conn.socket)) (Admits-after_password key unread)

  Admits-accept : Admits rt (accept rt x conn)
  unfolding accept
  Admits-accept =
      Admits-if rt (not (length (read_exact 32 [] conn.chunks).0 == 32)) _ _
        (Admits-calm rt _ (refuse-IsCalm conn.socket))
        (Admits-Quiet rt _ _ (Quiet-sendall _ _) λ _.
          Admits-Quiet rt (lift (x.exchange conn.private_key (read_exact 32 [] conn.chunks).0)) _
            (Quiet-lift (x.exchange conn.private_key (read_exact 32 [] conn.chunks).0))
            λ secret.
              Admits-Quiet rt (lift (read_packet_frame (read_exact 32 [] conn.chunks).1)) _
                (Quiet-lift (read_packet_frame (read_exact 32 [] conn.chunks).1))
                λ (packet : Bytes × List Bytes).
                  Admits-Quiet rt
                    (lift (verify_packet rt.crypto packet.0 (some (x.derive secret)) 0)) _
                    (Quiet-lift (verify_packet rt.crypto packet.0 (some (x.derive secret)) 0))
                    λ (verified : Verified).
                      Admits-check_password (x.derive secret) packet.1 verified.0)

  -- From a consistent state, where the UUID drawn next is no session's: a connection leaves a
  -- consistent state, whether its peer is admitted, refused, or the handshake raises.
  pub accept-IsConsistent :
      (s : Server)
      → IsConsistent s
      → lookup (rt.uuid4_str s.drawn) s.client_db ≡ none
      → IsConsistent (accept rt x conn s).1
  accept-IsConsistent s h fresh = Admits-accept.at s h fresh
