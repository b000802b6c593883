-- ===== src/Server/Session.antt =====
-- `handle_client` of pipebomb/server.py: one packet of a session, the loop, and the clean-up.
use pipebomb.Base.{
  Bytes, Str, ℕ, zero, suc, List, [], ◌∷◌, Bool, true, false, not, ◌==◌, if◌then◌else◌, Option,
  none, some, eq_bytes, bit_and,
}
use pipebomb.Base.Result.{ok, key_error, runtime_error, index_error}
use pipebomb.Base.Dict.{Dict, erase}
use pipebomb.Wire.Packet.{Verdict, accepted, rejected, verify_frame}
use pipebomb.Wire.Stream.{Received, frame, framing_error, end_of_stream, recv_frame}
use pipebomb.Wire.Errors.{err_dispatch}
use pipebomb.Server.State.{Runtime}
use pipebomb.Server.Monad.{
  Exec, pure, raise, lift, or_raise, ◌>>=◌, ◌>>◌, client_at, sendall, close_socket, add_rx_nonce,
  reply_error,
}
use pipebomb.Server.Requests.{Outcome, served, goodbye, waiting, server_request}
use pipebomb.Server.Exchange.{client_request, handle_get_inbox}

-- `for key, client_uuid in self.address_book.items(): if client_uuid == uuid: del …; break`
unfoldable pub drop_first_of : Str → Dict Str → Dict Str
drop_first_of uuid [] = []
drop_first_of uuid ((key, owner) ∷ book) =
    if eq_bytes owner uuid then book else (key, owner) ∷ drop_first_of uuid book

-- How one round of the loop ends: an `Outcome`, or a refused packet, which breaks off the session.
pub data Turn : Type 0 where
  done : Outcome → Turn
  refused : Turn

module _ (rt : Runtime) (sock : ℕ) (uuid : Str) where
  -- Bit 7 of the command byte chooses between the two groups of commands.
  unfoldable pub dispatch : Bytes → Exec Outcome
  dispatch [] = raise index_error
  dispatch (type_ ∷ value) =
      if not (bit_and type_ 0x80 == 0)
      then server_request rt sock uuid (bit_and type_ 0xF) value
      else client_request rt sock uuid (bit_and type_ 0xF) value

  unfoldable pub handle_verdict : Verdict → Exec Turn
  unfolding ◌>>=◌ dispatch
  handle_verdict (rejected code) = do reply_error rt sock uuid code; close_socket sock; pure refused
  handle_verdict (accepted payload) = do outcome ← dispatch payload; pure (done outcome)

  -- One round from the frame on; the frame is None after a framing error or the end of the stream.
  unfoldable pub handle_frame : Option Bytes → Exec Turn
  unfolding ◌>>=◌ client_at add_rx_nonce handle_verdict
  handle_frame found = do
    client ← client_at uuid
    (verdict, remainder) ← lift (verify_frame rt.crypto found client.cipher client.rx_nonce)
    add_rx_nonce uuid
    handle_verdict verdict

  -- The framing error is answered with the bare, unencrypted `ERR_DISPATCH[code]`.
  unfoldable pub refuse_framing : ℕ → Exec (Unit {0})
  unfolding ◌>>=◌ sendall close_socket
  refuse_framing code = do
    payload ← or_raise (err_dispatch code) key_error
    sendall sock payload
    close_socket sock

  -- What stands behind the loop, unless dead sessions are kept.
  unfoldable pub clean_up : Exec (Unit {0})
  unfolding drop_first_of
  clean_up s = if s.keep_dead_sessions then (ok tt, s) else (
    ok tt,
    record s {
      address_book = drop_first_of uuid s.address_book;
      client_db = erase uuid s.client_db;
      closed = sock ∷ s.closed;
    },
  )

-- How `handle_client` is left: through its end, with `clean_exit` or not; for a while, as it waits at an
-- empty inbox, with what is buffered and unread; or never, for want of fuel.
pub data Exit : Type 0 where
  finished : Bool → Exit
  waits : Bytes → List Bytes → Exit
  out_of_fuel : Exit

-- `if self.client_db[uuid].cipher is None: raise`
unfoldable pub require_cipher : Option Bytes → Exec (Unit {0})
require_cipher none = raise runtime_error
require_cipher (some key) = pure tt

module _ (rt : Runtime) (sock : ℕ) (uuid : Str) where
  -- What follows a round: the next one, or the end of the loop.
  unfoldable pub after_turn :
      Turn → Bytes → List Bytes → (Bytes → List Bytes → Exec Exit) → Exec Exit
  after_turn (done served) left unread next_round = next_round left unread
  after_turn (done goodbye) left unread next_round = pure (finished true)
  after_turn (done waiting) left unread next_round = pure (waits left unread)
  after_turn refused left unread next_round = pure (finished false)

  -- What was received: a frame, or a framing error or the end of the stream, which leave the inner
  -- loop with no frame.
  unfoldable pub on_received : Received → (Bytes → List Bytes → Exec Exit) → Exec Exit
  unfolding ◌>>=◌ handle_frame refuse_framing after_turn
  on_received (frame found left unread) next_round = do
    turn ← handle_frame rt sock uuid (some found)
    after_turn turn left unread next_round
  on_received (framing_error code unread) next_round = do
    refuse_framing rt sock uuid code
    turn ← handle_frame rt sock uuid none
    after_turn turn [] unread next_round
  on_received (end_of_stream left) next_round = do
    turn ← handle_frame rt sock uuid none
    after_turn turn left [] next_round

  -- The loop: a round for each frame, until one of them ends it.
  unfoldable pub session_loop : ℕ → Bytes → List Bytes → Exec Exit
  unfolding ◌>>=◌ on_received
  session_loop zero buffer chunks = pure out_of_fuel
  session_loop (suc fuel) buffer chunks = do
    received ← lift (recv_frame buffer chunks)
    on_received received (session_loop fuel)

  -- The clean-up follows where the loop was broken off.
  unfoldable pub after_loop : Exit → Exec Exit
  unfolding ◌>>=◌ clean_up
  after_loop (finished clean_exit) = do clean_up rt sock uuid; pure (finished clean_exit)
  after_loop (waits left unread) = pure (waits left unread)
  after_loop out_of_fuel = pure out_of_fuel

  -- `handle_client`: a session without a cipher is refused.
  unfoldable pub handle_client : ℕ → List Bytes → Exec Exit
  unfolding ◌>>=◌ client_at require_cipher session_loop after_loop
  handle_client fuel chunks = do
    client ← client_at uuid
    require_cipher client.cipher
    exit ← session_loop fuel [] chunks
    after_loop exit

  -- `await client.inbox.get()`, from where it waits on: with a request there, the loop goes on.
  unfoldable pub resume : ℕ → Bytes → List Bytes → Exec Exit
  unfolding ◌>>=◌ handle_get_inbox after_turn session_loop after_loop
  resume fuel buffer chunks = do
    outcome ← handle_get_inbox rt sock uuid
    exit ← after_turn (done outcome) buffer chunks (session_loop fuel)
    after_loop exit
