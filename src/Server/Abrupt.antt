-- ===== src/Server/Abrupt.antt =====
-- What becomes of a session of `handle_client` in pipebomb/server.py whose peer is gone without BYE.
use pipebomb.Base.{Bytes, Str, ℕ, zero, suc, ◌<◌, List, [], ◌≡◌, none, some, length, concat, arith}
use pipebomb.Base.Result.{ok, err, type_error}
use pipebomb.Base.Dict.{lookup}
use pipebomb.Wire.Packet.{verify_frame}
use pipebomb.Wire.Stream.{frame, end_of_stream, recv_frame}
use pipebomb.Wire.Construct.{to_bytes_little-fits, nonce_limit}
use pipebomb.Wire.Consumption.{pending, recv_frame-Consumes}
use pipebomb.Server.State.{Client, Server, Runtime}
use pipebomb.Server.Requests.{served}
use pipebomb.Server.Session.{
  done, handle_frame, on_received, after_turn, session_loop, handle_client, require_cipher,
}

module _ (rt : Runtime) (sock : ℕ) (uuid : Str) where
  -- A stream of commands that are served, one after another, and that breaks off behind them, with the
  -- state before and the state behind the last command.
  pub data BreaksOff : Bytes → List Bytes → Server → Server → Type 0 where
    gone :
        {buffer left : Bytes} {chunks : List Bytes} {s : Server}
        → recv_frame buffer chunks ≡ ok (end_of_stream left)
        → BreaksOff buffer chunks s s
    command :
        {buffer found left : Bytes} {chunks unread : List Bytes} {s t u : Server}
        → recv_frame buffer chunks ≡ ok (frame found left unread)
        → handle_frame rt sock uuid (some found) s ≡ (ok (done served), t)
        → BreaksOff left unread t u
        → BreaksOff buffer chunks s u

  handle_frame-gone :
      (client : Client) (s : Server)
      → lookup uuid s.client_db ≡ some client
      → client.rx_nonce < nonce_limit
      → handle_frame rt sock uuid none s ≡ (err type_error, s)
  unfolding handle_frame verify_frame
  handle_frame-gone client s found fits = rw (found, to_bytes_little-fits 12 client.rx_nonce fits)

  left-pending :
      (buffer : Bytes) (chunks : List Bytes) {found left : Bytes} {unread : List Bytes}
      → recv_frame buffer chunks ≡ ok (frame found left unread)
      → pending left unread < pending buffer chunks
  left-pending buffer chunks received =
      omega (arith, rw received at (recv_frame-Consumes buffer chunks))

  session_loop-BreaksOff :
      {buffer : Bytes} {chunks : List Bytes} {s t : Server} (fuel : ℕ) (client : Client)
      → BreaksOff buffer chunks s t
      → pending buffer chunks < fuel
      → lookup uuid t.client_db ≡ some client
      → client.rx_nonce < nonce_limit
      → session_loop rt sock uuid fuel buffer chunks s ≡ (err type_error, t)
  unfolding session_loop on_received after_turn
  session_loop-BreaksOff zero client b lt found fits = absurd (omega arith)
  session_loop-BreaksOff {s = s} (suc fuel) client (gone ended) lt found fits =
      rw (ended, handle_frame-gone client s found fits)
  session_loop-BreaksOff {buffer} {chunks} (suc fuel) client (command received handled rest) lt
        found fits =
      rw (received, handled)
        (session_loop-BreaksOff fuel client rest
          (omega (arith, left-pending buffer chunks received)) found fits)

  -- A session with a cipher, of which any number of commands is served, and whose peer is then gone
  -- without BYE: where the session is still there and its next nonce fits in 12 bytes, and with fuel
  -- for each byte of the stream, `handle_client` raises a TypeError, and the state is the one that the
  -- last command left: nothing is cleaned up, and the session stays.
  pub handle_client-abrupt :
      (fuel : ℕ) (chunks : List Bytes) (key : Bytes) (before client : Client) (s t : Server)
      → lookup uuid s.client_db ≡ some before
      → before.cipher ≡ some key
      → BreaksOff [] chunks s t
      → length (concat chunks) < fuel
      → lookup uuid t.client_db ≡ some client
      → client.rx_nonce < nonce_limit
      → handle_client rt sock uuid fuel chunks s ≡ (err type_error, t)
  unfolding handle_client require_cipher
  handle_client-abrupt fuel chunks key before client s t there keyed broken enough found fits =
      rw (there, keyed, session_loop-BreaksOff fuel client broken (omega arith) found fits)
