-- ===== src/Client/Endings.antt =====
-- The receiving loop of pipebomb/client.py comes to its end.
use pipebomb.Base.{Bytes, ℕ, zero, suc, ◌<◌, List, ◌≢◌, arith}
use pipebomb.Base.Result.{Result, ok, err}
use pipebomb.Wire.Crypto.{Crypto}
use pipebomb.Wire.Stream.{Received, frame, framing_error, end_of_stream, recv_frame}
use pipebomb.Wire.Consumption.{pending, Consumes, recv_frame-Consumes}
use pipebomb.Client.Receive.{
  RawClient, Ending, out_of_rounds, Loop, after_frame, on_arrival, receive_frame, recv_loop,
}

module _ (crypto : Crypto) where
  abbrev Ends : ℕ → Loop → Type 0
  Ends fuel loop =
      (buffer : Bytes) (chunks : List Bytes) (c : RawClient)
      → pending buffer chunks < fuel
      → (loop buffer chunks c).0 ≢ ok out_of_rounds

  after_frame-ends :
      (r : Result (Unit {0}) × RawClient) (next : RawClient → Result Ending × RawClient)
      → ((c : RawClient) → (next c).0 ≢ ok out_of_rounds)
      → (after_frame r next).0 ≢ ok out_of_rounds
  after_frame-ends (err e, c) next ends = λ p. cc
  after_frame-ends (ok done, c) next ends = ends c

  on_arrival-Ends :
      (fuel n : ℕ) (arrived : Result Received) (loop : Loop) (c : RawClient)
      → Consumes n arrived
      → n < suc fuel
      → Ends fuel loop
      → (on_arrival crypto arrived loop c).0 ≢ ok out_of_rounds
  on_arrival-Ends fuel n (err e) loop c h lt ends = λ p. cc
  on_arrival-Ends fuel n (ok (framing_error code unread)) loop c h lt ends = λ p. cc
  on_arrival-Ends fuel n (ok (end_of_stream left)) loop c h lt ends = λ p. cc
  on_arrival-Ends fuel n (ok (frame found left unread)) loop c h lt ends =
      after_frame-ends (receive_frame crypto found c) (loop left unread)
        (λ d. ends left unread d (omega (arith, h)))

  -- With fuel for more rounds than bytes are pending, in the buffer and on the connection, the
  -- receiving loop does not run out of it: it returns or raises.
  pub recv_loop-ends :
      (fuel : ℕ) (buffer : Bytes) (chunks : List Bytes) (c : RawClient)
      → pending buffer chunks < fuel
      → (recv_loop crypto fuel buffer chunks c).0 ≢ ok out_of_rounds
  unfolding recv_loop
  recv_loop-ends zero buffer chunks c lt = absurd (omega arith)
  recv_loop-ends (suc fuel) buffer chunks c lt =
      on_arrival-Ends fuel (pending buffer chunks) (recv_frame buffer chunks)
        (recv_loop crypto fuel) c (recv_frame-Consumes buffer chunks) lt (recv_loop-ends fuel)
