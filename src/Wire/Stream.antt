-- ===== src/Wire/Stream.antt =====
-- Reading frames off a socket: the loop that pipebomb/server.py (`handle_client`,
-- `read_packet_frame`) and pipebomb/client.py (`recv_loop`, `read_packet_frame`) run round
-- `extract_packet_frame`, and `read_exact`. A socket is the list of what its `sock_recv` calls will
-- return; an empty chunk, or the end of the list, is the end of the stream.
use pipebomb.Base.{
  Bytes, ℕ, List, [], ◌∷◌, ◌++◌, ltb, if◌then◌else◌, length, is_empty, Option, none, some,
}
use pipebomb.Base.Result.{Result, ok, err, runtime_error, ◌>>=◌}
use pipebomb.Wire.Packet.{extract_packet_frame}

-- How the loop ends: with a frame, what is left of the buffer and the chunks not yet received; with
-- a framing error; or with the stream.
pub data Received : Type 0 where
  frame : Bytes → Bytes → List Bytes → Received
  framing_error : ℕ → List Bytes → Received
  end_of_stream : Bytes → Received

-- One round: an error or a frame ends the loop, else `receive` goes on with the buffer.
abbrev pub settle :
    Option Bytes × Bytes × Option ℕ → List Bytes → (Bytes → Result Received) → Result Received
settle (found, buffer, some code) chunks receive = ok (framing_error code chunks)
settle (some found, buffer, none) chunks receive = ok (frame found buffer chunks)
settle (none, buffer, none) chunks receive = receive buffer

unfoldable pub recv_frame : Bytes → List Bytes → Result Received
recv_frame buffer [] = do r ← extract_packet_frame buffer; settle r [] (λ b. ok (end_of_stream b))
recv_frame buffer (chunk ∷ chunks) = do
  r ← extract_packet_frame buffer
  settle r (chunk ∷ chunks)
      (λ b. if is_empty chunk then ok (end_of_stream b) else recv_frame (b ++ chunk) chunks)

-- `read_packet_frame`: the frame, and the chunks not yet received. What is left of its buffer is
-- dropped.
abbrev framed_or_raise : Received → Result (Bytes × List Bytes)
framed_or_raise (frame found buffer chunks) = ok (found, chunks)
framed_or_raise (framing_error code chunks) = err runtime_error
framed_or_raise (end_of_stream buffer) = err runtime_error

unfoldable pub read_packet_frame : List Bytes → Result (Bytes × List Bytes)
unfolding recv_frame
read_packet_frame chunks = do r ← recv_frame [] chunks; framed_or_raise r

-- `read_exact`: what was read, and the chunks not yet received.
unfoldable pub read_exact : ℕ → Bytes → List Bytes → Bytes × List Bytes
read_exact size buffer [] = (buffer, [])
read_exact size buffer (chunk ∷ chunks) =
    let more = read_exact size (buffer ++ chunk) chunks in
    if ltb (length buffer) size
    then (if is_empty chunk then (buffer, chunks) else more)
    else (buffer, chunk ∷ chunks)
