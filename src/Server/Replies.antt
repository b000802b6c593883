-- ===== src/Server/Replies.antt =====
-- `reply`, the end of every command of `handle_client` in pipebomb/server.py: what is sent, and what
-- of the server stays as it is.
use pipebomb.Base.{
  Bytes, Str, ℕ, ◌+◌, ◌≤◌, ◌<◌, [], ◌∷◌, ◌≡◌, refl, false, none, some, is_empty, length, append-nil,
  arith,
}
use pipebomb.Base.Result.{ok, err, runtime_error}
use pipebomb.Base.Dict.{lookup, insert}
use pipebomb.Wire.Crypto.{IsCrypto, max_plaintext}
use pipebomb.Wire.Packet.{construct_packet, accepted, verify_packet}
use pipebomb.Wire.Construct.{nonce_limit, construct_total}
use pipebomb.Wire.RoundTrip.{verify-construct}
use pipebomb.Server.State.{Client, Server, Runtime}
use pipebomb.Server.Monad.{Exec, pure, ◌>>=◌, ◌>>◌, reply, reply_error}
use pipebomb.Server.Requests.{Outcome, served}

module _ (rt : Runtime) (sock : ℕ) (uuid : Str) where
  -- A session that can be answered: it has a cipher, and its nonce fits.
  pub record IsLive (client : Client) (key : Bytes) (s : Server) : Type 0 where
    pub found : lookup uuid s.client_db ≡ some client
    pub keyed : client.cipher ≡ some key
    pub fits : client.tx_nonce < nonce_limit

  -- The state after one packet of the session has been sent.
  abbrev pub sent_state : Client → Bytes → Server → Server
  sent_state client packet s = record s {
    sent = (sock, packet) ∷ s.sent;
    client_db = insert uuid (record client { tx_nonce = client.tx_nonce + 1 }) s.client_db;
  }

  pub reply-packet :
      (payload packet : Bytes) (client : Client) (s : Server)
      → lookup uuid s.client_db ≡ some client
      → construct_packet rt.crypto payload client.cipher client.tx_nonce ≡ ok packet
      → reply rt sock uuid payload s ≡ (ok tt, sent_state client packet s)
  unfolding reply
  reply-packet payload packet client s found built = rw (found, built) (rw found refl)

  -- The key-value table and the address book do not change.
  pub serve-db :
      (payload : Bytes) (s : Server) → ((reply rt sock uuid payload >> pure served) s).1.db ≡ s.db
  unfolding reply
  serve-db payload s = ground arith

  pub refuse-db :
      (code : ℕ) (s : Server) → ((reply_error rt sock uuid code >> pure served) s).1.db ≡ s.db
  unfolding reply_error
  refuse-db code s = ground arith

  -- An empty payload raises, and nothing is sent.
  pub reply-empty :
      (client : Client) (s : Server)
      → lookup uuid s.client_db ≡ some client
      → reply rt sock uuid [] s ≡ (err runtime_error, s)
  unfolding reply construct_packet
  reply-empty client s found = rw found

  -- The payload reaches the peer: one packet is sent, and it is verified, under the session's key
  -- and the nonce that the packet was sent with, as that payload.
  pub record IsAnswered (m : Exec Outcome) (payload key : Bytes) (client : Client) (s : Server)
      : Type 0 where
    pub packet : Bytes
    pub state : m s ≡ (ok served, sent_state client packet s)
    pub verified :
        verify_packet rt.crypto packet (some key) client.tx_nonce ≡ ok (accepted payload, none)

  module _ (laws : IsCrypto rt.crypto) where
    pub reply-IsAnswered :
        (payload key : Bytes) (client : Client) (s : Server)
        → IsLive client key s
        → is_empty payload ≡ false
        → length payload + 7 ≤ max_plaintext
        → IsAnswered (reply rt sock uuid payload >> pure served) payload key client s
    unfolding ◌>>=◌
    reply-IsAnswered payload key client s live nonempty short =
        let n = client.tx_nonce in
        let (packet, built) =
          construct_total rt.crypto laws payload key n nonempty live.fits short in
        let built' = rw (← live.keyed) at built in
        record {
          packet = packet;
          state = rw (reply-packet payload packet client s live.found built');
          verified =
              rw append-nil at
                (verify-construct rt.crypto laws payload key [] n live.fits (omega arith) built);
        }
