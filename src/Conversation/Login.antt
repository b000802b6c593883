-- ===== src/Conversation/Login.antt =====
-- From a connection that comes in to a value that is read back: all of pipebomb/client.py and
-- pipebomb/server.py that lies between.
use pipebomb.Base.{
  Bytes, Str, ℕ, ◌+◌, ◌≤◌, [], ◌≡◌, ◌∙◌, none, true, false, Bool, Option, is_empty, length, take,
  eq_bytes, arith,
}
use pipebomb.Wire.Crypto.{IsCrypto, max_plaintext}
use pipebomb.Wire.Packet.{ack}
use pipebomb.Wire.Construct.{nonce_limit}
use pipebomb.Server.State.{Server, Runtime}
use pipebomb.Client.Receive.{RawClient, err_prefix}
use pipebomb.Handshake.Keys.{KeyExchange, IsKeyExchange}
use pipebomb.Handshake.Accept.{Incoming, accept}
use pipebomb.Handshake.Agreement.{Meeting, IsFresh, Joined, dialled, first_login-Joined}
use pipebomb.Conversation.Call.{Linked}
use pipebomb.Conversation.KeyValue.{SetThenGet, set-get}

module _ (rt : Runtime) (laws : IsCrypto rt.crypto) (x : KeyExchange) (xlaws : IsKeyExchange x)
    (conn : Incoming) (s : Server) (client_private : Bytes) (raw : RawClient) where
  -- Both ends of a handshake are linked, for as many calls as the nonces are good for.
  abbrev pub Joined-Linked :
      (relog_uuid : Option Bytes) (answer : Bytes)
      (m : Meeting rt x xlaws conn s client_private relog_uuid answer) (uuid : Str)
      (acknowledged : Bool) (calls : ℕ)
      → raw.tasks ≡ []
      → calls + 2 ≤ nonce_limit
      → Joined rt x xlaws conn s client_private raw relog_uuid m uuid acknowledged
      → Linked uuid m.key
          (dialled rt x xlaws conn s client_private raw relog_uuid m).1.raw
          (accept rt x conn s).1
          calls
  Joined-Linked relog_uuid answer m uuid acknowledged calls idle enough j = record {
    session = j.session;
    filed = j.filed;
    in_step = j.in_step;
    idle = j.tasks ∙ idle;
    may_send = omega (arith, j.nonces.0);
    may_hear = omega (arith, j.nonces.1);
  }

  -- A client with its nonces at 0 and nothing queued that has the password, of at most the size of
  -- a packet, hears what the server sends and logs in for the first time: it sets a value, not
  -- empty, within the size of a packet, with no "ERR" in front, and gets it, and is answered with
  -- the acknowledgement and then with the value. Each call is one packet sent, one handled by the
  -- session and one queued by the client.
  pub login-set-get :
      (m : Meeting rt x xlaws conn s client_private none ack) (k value : Bytes)
      → raw.tasks ≡ []
      → IsFresh raw
      → length s.password + 8 ≤ max_plaintext
      → length k + length value + 16 ≤ max_plaintext
      → is_empty value ≡ false
      → eq_bytes (take 3 value) err_prefix ≡ false
      → SetThenGet rt laws conn.socket
          (rt.uuid4_str s.drawn)
          k
          value
          m.key
          (dialled rt x xlaws conn s client_private raw none m).1.raw
          (accept rt x conn s).1
          0
  login-set-get m k value idle new short_password short given plain =
      set-get rt laws conn.socket (rt.uuid4_str s.drawn) k value m.key _ _ 0
        (Joined-Linked none ack m (rt.uuid4_str s.drawn) true 2 idle (omega arith)
          (first_login-Joined rt laws x xlaws conn s client_private raw m new short_password))
        short given plain
