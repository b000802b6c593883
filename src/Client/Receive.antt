-- ===== src/Client/Receive.antt =====
-- `recv_loop` of `RawClient` in pipebomb/client.py, over the chunks that `sock_recv` returns.
use pipebomb.Base.{
  Bytes, ℕ, zero, suc, ◌+◌, ◌-◌, ◌==◌, List, [], ◌∷◌, ◌++◌, Bool, true, false, not, ◌&&◌,
  if◌then◌else◌, take, eq_bytes, Option, none,
}
use pipebomb.Base.Result.{Result, ok, err, runtime_error, value_error}
use pipebomb.Wire.Stream.{Received, frame, framing_error, end_of_stream, recv_frame}
use pipebomb.Wire.Crypto.{Crypto}
use pipebomb.Wire.Packet.{Verdict, accepted, rejected, Verified, verify_packet}

-- The connection: its nonces and cipher, the packets that wait to be sent, the count of those not
-- yet marked as done, and the packets received.
pub record RawClient : Type 0 where
  pub tasks : List Bytes
  pub unfinished : ℕ
  pub input_packets : List Bytes
  pub tx_nonce : ℕ
  pub rx_nonce : ℕ
  pub cipher : Option Bytes

-- A connection that was made, and is not connected: `__init__`.
abbrev pub new_raw_client : RawClient
new_raw_client = record {
  tasks = [];
  unfinished = 0;
  input_packets = [];
  tx_nonce = 0;
  rx_nonce = 0;
  cipher = none;
}

-- "ERR", and "ERR" with a zero byte
abbrev pub err_prefix : Bytes
err_prefix = 69 ∷ 82 ∷ 82 ∷ []

abbrev pub err_zero : Bytes
err_zero = 69 ∷ 82 ∷ 82 ∷ 0 ∷ []

abbrev has_task : List Bytes → Bool
has_task [] = false
has_task (t ∷ ts) = true

-- `task_done()`, which raises where no task is unfinished.
unfoldable pub task_done : RawClient → Result (Unit {0}) × RawClient
task_done c =
    if c.unfinished == 0
    then (err value_error, c)
    else (ok tt, record c { unfinished = c.unfinished - 1 })

-- `if packet == b"ERR\x00" and not self.tasks.empty(): self.tasks.task_done()`
unfoldable pub mark_done : Bytes → RawClient → Result (Unit {0}) × RawClient
unfolding task_done
mark_done packet c =
    if eq_bytes packet err_zero && has_task c.tasks then task_done c else (ok tt, c)

-- Once it is marked, the packet is counted, and raised or queued.
abbrev pub take_in : Bytes → Result (Unit {0}) × RawClient → Result (Unit {0}) × RawClient
take_in packet (err e, c) = (err runtime_error, c)
take_in packet (ok done, c) =
    let counted = record c { rx_nonce = c.rx_nonce + 1 } in
    if eq_bytes (take 3 packet) err_prefix && not (eq_bytes packet err_zero)
    then (err runtime_error, counted)
    else (ok tt, record counted { input_packets = counted.input_packets ++ (packet ∷ []) })

unfoldable pub on_verdict : Verdict → RawClient → Result (Unit {0}) × RawClient
unfolding mark_done
on_verdict (rejected code) c = (err runtime_error, c)
on_verdict (accepted packet) c = take_in packet (mark_done packet c)

-- One frame: verified under the client's cipher and nonce, then queued.
unfoldable pub on_result : Result Verified → RawClient → Result (Unit {0}) × RawClient
unfolding on_verdict
on_result (err e) c = (err runtime_error, c)
on_result (ok (verdict, remainder)) c = on_verdict verdict c

unfoldable pub receive_frame : Crypto → Bytes → RawClient → Result (Unit {0}) × RawClient
unfolding on_result
receive_frame crypto found c = on_result (verify_packet crypto found c.cipher c.rx_nonce) c

-- How the loop ends, unless it raises: with the stream, or never, for want of fuel.
pub data Ending : Type 0 where
  stream_ended : Ending
  out_of_rounds : Ending

abbrev pub Loop : Type 0
Loop = Bytes → List Bytes → RawClient → Result Ending × RawClient

-- Every exception of a round is raised again as a RuntimeError.
abbrev pub after_frame :
    Result (Unit {0}) × RawClient
    → (RawClient → Result Ending × RawClient)
    → Result Ending × RawClient
after_frame (err e, c) next = (err runtime_error, c)
after_frame (ok done, c) next = next c

abbrev pub on_arrival : Crypto → Result Received → Loop → RawClient → Result Ending × RawClient
on_arrival crypto (err e) next c = (err runtime_error, c)
on_arrival crypto (ok (framing_error code unread)) next c = (err runtime_error, c)
on_arrival crypto (ok (end_of_stream left)) next c = (ok stream_ended, c)
on_arrival crypto (ok (frame found left unread)) next c =
    after_frame (receive_frame crypto found c) (next left unread)

-- `recv_loop`, on fuel: a round for each packet.
unfoldable pub recv_loop : Crypto → ℕ → Loop
unfolding receive_frame recv_frame
recv_loop crypto zero buffer chunks c = (ok out_of_rounds, c)
recv_loop crypto (suc fuel) buffer chunks c =
    on_arrival crypto (recv_frame buffer chunks) (recv_loop crypto fuel) c
