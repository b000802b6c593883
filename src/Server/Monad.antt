-- ===== src/Server/Monad.antt =====
-- A step of the server: state and exceptions. What was written before a raise stays written.
use pipebomb.Base.{
  Bytes, Str, ℕ, ◌+◌, [], ◌∷◌, Bool, true, Option, none, some, ltb, ◌&&◌, if◌then◌else◌,
}
use pipebomb.Base.Result.{Exn, Result, ok, err, key_error, unicode_error}
use pipebomb.Base.Dict.{lookup, insert}
use pipebomb.Wire.Packet.{construct_packet}
use pipebomb.Wire.Errors.{err_dispatch}
use pipebomb.Server.State.{Client, Server, Runtime}

abbrev pub Exec : Type 0 → Type 0
Exec A = Server → Result A × Server

module _ {A : Type 0} where
  abbrev pub pure : A → Exec A
  pure a s = (ok a, s)

  abbrev pub raise : Exn → Exec A
  raise e s = (err e, s)

  abbrev pub lift : Result A → Exec A
  lift r s = (r, s)

  abbrev pub gets : (Server → A) → Exec A
  gets f s = (ok (f s), s)

  -- `d[k]` on a missing key
  abbrev pub or_raise : Option A → Exn → Exec A
  or_raise none e = raise e
  or_raise (some a) e = pure a

abbrev pub modify : (Server → Server) → Exec (Unit {0})
modify f s = (ok tt, f s)

abbrev pub continue : {A B : Type 0} → Result A → (A → Exec B) → Exec B
continue (ok a) f s = f a s
continue (err e) f s = (err e, s)

infixl 5 ◌>>=◌ ◌>>◌
unfoldable pub ◌>>=◌ : {A B : Type 0} → Exec A → (A → Exec B) → Exec B
◌>>=◌ m f s = let (r, s') = m s in continue r f s'

abbrev pub ◌>>◌ : {A B : Type 0} → Exec A → Exec B → Exec B
m >> k = m >>= λ _. k

-- `s.encode("latin1")`, which raises on a code point past 255; `b.decode("latin1")` is `b` itself.
abbrev pub is_latin1 : Str → Bool
is_latin1 [] = true
is_latin1 (x ∷ xs) = ltb x 256 && is_latin1 xs

unfoldable pub encode_latin1 : Str → Result Bytes
encode_latin1 s = if is_latin1 s then ok s else err unicode_error

-- `self.client_db[uuid]`
unfoldable pub client_at : Str → Exec Client
client_at uuid s = or_raise (lookup uuid s.client_db) key_error s

-- `self.client_db[uuid] = client`; also what a change of the shared `Client` object does.
unfoldable pub put_client : Str → Client → Exec (Unit {0})
put_client uuid client = modify (λ s. record s { client_db = insert uuid client s.client_db })

-- `sock_sendall(sock, packet)`
unfoldable pub sendall : ℕ → Bytes → Exec (Unit {0})
sendall sock packet = modify (λ s. record s { sent = (sock, packet) ∷ s.sent })

-- `sock.close()`
unfoldable pub close_socket : ℕ → Exec (Unit {0})
close_socket sock = modify (λ s. record s { closed = sock ∷ s.closed })

-- `self.client_db[uuid].tx_nonce += 1` and `self.client_db[uuid].rx_nonce += 1`
unfoldable pub add_tx_nonce : Str → Exec (Unit {0})
unfolding ◌>>=◌ client_at put_client
add_tx_nonce uuid = do
  client ← client_at uuid
  put_client uuid (record client { tx_nonce = client.tx_nonce + 1 })

unfoldable pub add_rx_nonce : Str → Exec (Unit {0})
unfolding ◌>>=◌ client_at put_client
add_rx_nonce uuid = do
  client ← client_at uuid
  put_client uuid (record client { rx_nonce = client.rx_nonce + 1 })

module _ (rt : Runtime) where
  -- What every handler ends with: the payload as a packet of the session, sent on its socket, and
  -- the nonce counted on.
  unfoldable pub reply : ℕ → Str → Bytes → Exec (Unit {0})
  unfolding ◌>>=◌ client_at sendall add_tx_nonce
  reply sock uuid payload = do
    client ← client_at uuid
    packet ← lift (construct_packet rt.crypto payload client.cipher client.tx_nonce)
    sendall sock packet
    add_tx_nonce uuid

  -- The reply `ERR_DISPATCH[code]`.
  unfoldable pub reply_error : ℕ → Str → ℕ → Exec (Unit {0})
  unfolding ◌>>=◌ reply
  reply_error sock uuid code = do
    payload ← or_raise (err_dispatch code) key_error
    reply sock uuid payload
