-- ===== src/Conversation/Joining.antt =====
-- A client that comes in while others are there, and the mail that it gets: `accept_clients` of
-- pipebomb/server.py, `connect` of pipebomb/client.py and the mailboxes.
use pipebomb.Base.{
  Bytes, Str, ℕ, ◌+◌, ◌≤◌, ◌<◌, [], ◌≡◌, sym, ap, ◌∙◌, ◌⊎◌, inl, inr, none, some, true, false,
  length, take, eq_bytes, eq_bytes_iff, Bool-cases, arith,
}
use pipebomb.Base.Dict.{lookup}
use pipebomb.Wire.Crypto.{IsCrypto, max_plaintext}
use pipebomb.Wire.Packet.{ack}
use pipebomb.Server.State.{Client, Server, Runtime}
use pipebomb.Server.Monad.{is_latin1}
use pipebomb.Client.Receive.{RawClient, err_prefix}
use pipebomb.Handshake.Keys.{KeyExchange, IsKeyExchange}
use pipebomb.Handshake.Accept.{Incoming, accept}
use pipebomb.Handshake.Agreement.{Meeting, IsFresh, dialled, first_login-Joined}
use pipebomb.Conversation.Call.{Linked}
use pipebomb.Conversation.Login.{Joined-Linked}
use pipebomb.Conversation.Sizes.{field_limit}
use pipebomb.Conversation.Mailbox.{Delivered, request-respond}

module _ (rt : Runtime) (laws : IsCrypto rt.crypto) (x : KeyExchange) (xlaws : IsKeyExchange x)
    (conn : Incoming) (s : Server) (client_private : Bytes) (raw : RawClient) where
  -- Under a fresh UUID, a session that is there has another.
  fresh-apart :
      (uuid other : Str) (session : Client)
      → lookup uuid s.client_db ≡ none
      → lookup other s.client_db ≡ some session
      → eq_bytes uuid other ≡ false
  fresh-apart uuid other session fresh filed = elim (Bool-cases (eq_bytes uuid other)) [
    | inl same ↦
        let missing : lookup other s.client_db ≡ none =
          ap (λ u. lookup u s.client_db) (sym ((eq_bytes_iff uuid other).0 same)) ∙ fresh in
        absurd (ground (arith, missing, filed))
    | inr apart ↦ apart
  ]

  mail-empty :
      (uuid : Str) (session : Client)
      → lookup uuid s.client_db ≡ none
      → (session.inbox ≡ [])
        ⊎ ((before : Client) × (lookup uuid s.client_db ≡ some before)
            × (session.inbox ≡ before.inbox))
      → session.inbox ≡ []
  mail-empty uuid session fresh (inl empty) = empty
  mail-empty uuid session fresh (inr (before, found, same)) = absurd (ground (arith, fresh, found))

  -- A client that is linked with its session, for two calls at least, and a second one with its
  -- nonces at 0 and nothing queued that has the password, of at most the size of a packet, hears
  -- what the server sends and logs in for the first time, under a UUID that no session has. The
  -- first, its UUID in latin-1, sends a request to the second, which reads it and responds, and
  -- the first reads the response: fields of 1 GiB at most together, a response that is not all
  -- empty, a UUID drawn for the request of 16 bytes with no "ERR" in front.
  pub join-respond :
      (m : Meeting rt x xlaws conn s client_private none ack) (sock_a : ℕ) (a : Str) (key_a : Bytes)
      (ca : RawClient) (request key response response_key : Bytes)
      → Linked a key_a ca s 2
      → raw.tasks ≡ []
      → IsFresh raw
      → length s.password + 8 ≤ max_plaintext
      → lookup (rt.uuid4_str s.drawn) s.client_db ≡ none
      → is_latin1 a ≡ true
      → length (rt.uuid4_bytes (accept rt x conn s).1.drawn) ≡ 16
      → eq_bytes (take 3 (rt.uuid4_bytes (accept rt x conn s).1.drawn)) err_prefix ≡ false
      → length a + length (rt.uuid4_str s.drawn) + length request + length key + 16 ≤ field_limit
      → length a + length response + length response_key + 16 ≤ field_limit
      → 0 < length response_key + length response
      → Delivered rt laws sock_a conn.socket a
          (rt.uuid4_str s.drawn)
          key_a
          m.key
          ca
          (dialled rt x xlaws conn s client_private raw none m).1.raw
          (accept rt x conn s).1
          0
          0
          request
          key
          response
          response_key
  join-respond m sock_a a key_a ca request key response response_key link idle new short_password
        fresh text sized plain short_request short_response given =
      let b = rt.uuid4_str s.drawn in
      let j = first_login-Joined rt laws x xlaws conn s client_private raw m new short_password in
      let apart = fresh-apart b a link.session fresh link.filed in
      let link_a : Linked a key_a ca (accept rt x conn s).1 2 = record {
        session = link.session;
        filed = j.others a apart ∙ link.filed;
        in_step = link.in_step;
        idle = link.idle;
        may_send = link.may_send;
        may_hear = link.may_hear;
      } in
      let link_b =
        Joined-Linked rt laws x xlaws conn s client_private raw none ack m b true 2 idle
          (omega arith) j in
      request-respond rt laws sock_a conn.socket a b key_a m.key ca _ (accept rt x conn s).1 0 0
        request key response response_key link_a link_b
        (ground (arith, apart, eq_bytes_iff a b, eq_bytes_iff b a))
        (mail-empty b j.session fresh j.mail) text sized plain short_request short_response given
