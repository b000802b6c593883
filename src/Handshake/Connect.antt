-- ===== src/Handshake/Connect.antt =====
-- `connect` of `RawClient` in pipebomb/client.py, from the connected socket on.
use pipebomb.Base.{
  Bytes, ℕ, ◌+◌, List, [], ◌∷◌, Bool, false, not, ◌==◌, if◌then◌else◌, Option, none, some, length,
  eq_bytes, is_empty,
}
use pipebomb.Base.Result.{Exn, Result, ok, err, runtime_error}
use pipebomb.Wire.Crypto.{Crypto}
use pipebomb.Wire.Packet.{ack, construct_packet, verify_packet, Verdict, accepted, rejected}
use pipebomb.Wire.Stream.{read_exact, read_packet_frame}
use pipebomb.Client.Receive.{RawClient}
use pipebomb.Handshake.Keys.{KeyExchange}

-- The client under way: what the server will send, and what the client has sent, the latest first.
pub record Dial : Type 0 where
  pub raw : RawClient
  pub unread : List Bytes
  pub sent : List Bytes

abbrev pub Dialling : Type 0 → Type 0
Dialling A = Dial → Result A × Dial

module _ {A : Type 0} where
  abbrev pub pure : A → Dialling A
  pure a d = (ok a, d)

  abbrev pub raise : Exn → Dialling A
  raise e d = (err e, d)

  abbrev pub lift : Result A → Dialling A
  lift r d = (r, d)

abbrev pub continue : {A B : Type 0} → Result A → (A → Dialling B) → Dialling B
continue (ok a) f d = f a d
continue (err e) f d = (err e, d)

infixl 5 ◌>>=◌ ◌>>◌
unfoldable pub ◌>>=◌ : {A B : Type 0} → Dialling A → (A → Dialling B) → Dialling B
◌>>=◌ m f d = continue (m d).0 f (m d).1

abbrev pub ◌>>◌ : {A B : Type 0} → Dialling A → Dialling B → Dialling B
m >> k = m >>= λ _. k

-- `loop.sock_sendall(self.socket, b)`
unfoldable pub transmit : Bytes → Dialling (Unit {0})
transmit b d = (ok tt, record d { sent = b ∷ d.sent })

abbrev pub change : (RawClient → RawClient) → Dialling (Unit {0})
change f d = (ok tt, record d { raw = f d.raw })

-- `read_exact(self.socket, size)` and `read_packet_frame(self.socket)`
unfoldable pub receive_exact : ℕ → Dialling Bytes
receive_exact size d =
    let (found, rest) = read_exact size [] d.unread in (ok found, record d { unread = rest })

abbrev pub received : Result (Bytes × List Bytes) → Dialling Bytes
received (err e) d = (err e, d)
received (ok (found, rest)) d = (ok found, record d { unread = rest })

unfoldable pub receive_frame : Dialling Bytes
receive_frame d = received (read_packet_frame d.unread) d

module _ (c : Crypto) where
  -- A packet under the next nonce, which is counted on behind it.
  unfoldable pub send_packet : Bytes → Dialling (Unit {0})
  unfolding ◌>>=◌ transmit
  send_packet payload = do
    d ← (λ d. (ok d, d))
    packet ← lift (construct_packet c payload d.raw.cipher d.raw.tx_nonce)
    transmit packet
    change (λ raw. record raw { tx_nonce = raw.tx_nonce + 1 })

  -- The verdict on the next packet, with the nonce counted on whatever it is.
  unfoldable pub verify_next : Bytes → Dialling Verdict
  unfolding ◌>>=◌
  verify_next frame = do
    d ← (λ d. (ok d, d))
    (verdict, remainder) ← lift (verify_packet c frame d.raw.cipher d.raw.rx_nonce)
    change (λ raw. record raw { rx_nonce = raw.rx_nonce + 1 })
    pure verdict

  -- `ack != ACK`, where an error code is no acknowledgement.
  abbrev pub is_acknowledgement : Verdict → Bool
  is_acknowledgement (accepted payload) = eq_bytes payload ack
  is_acknowledgement (rejected code) = false

  -- 0xC4 and the UUID, or 0xC5.
  abbrev pub login_payload : Option Bytes → Bytes
  login_payload (some relog_uuid) = 0xC4 ∷ relog_uuid
  login_payload none = 0xC5 ∷ []

  -- The second exchange; the answer is whether it was acknowledged, which is warned of if not.
  unfoldable pub log_in : Option Bytes → Dialling Bool
  unfolding ◌>>=◌
  log_in relog_uuid = do
    send_packet (login_payload relog_uuid)
    answer ← receive_frame
    verdict ← verify_next answer
    pure (is_acknowledgement verdict)

  unfoldable pub connect : KeyExchange → Bytes → Bytes → Option Bytes → Dialling Bool
  unfolding ◌>>=◌ transmit receive_exact
  connect x private_key password relog_uuid = do
    transmit (x.public_key private_key)
    server_public_key ← receive_exact 32
    if not (length server_public_key == 32) then raise runtime_error else do
      secret ← lift (x.exchange private_key server_public_key)
      change (λ raw. record raw { cipher = some (x.derive secret) })
      send_packet (0 ∷ password)
      encrypted_ack ← receive_frame
      if is_empty encrypted_ack then raise runtime_error else do
        verdict ← verify_next encrypted_ack
        if not (is_acknowledgement verdict) then raise runtime_error else log_in relog_uuid
