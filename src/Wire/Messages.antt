-- ===== src/Wire/Messages.antt =====
-- A message at a time, as the handshake of pipebomb/server.py and pipebomb/client.py reads: the chunks
-- that carry one message are read, and those of what follows it are not.
use pipebomb.Base.{
  Bytes, ℕ, ◌≤◌, ◌<◌, List, [], ◌∷◌, ◌++◌, ◌≡◌, refl, sym, ap, ◌∙◌, true, false, ltb, is_empty,
  some, none, length, concat, length-append, append_assoc, append-nil, arith,
}
use pipebomb.Base.Result.{ok}
use pipebomb.Wire.Struct.{u32_limit}
use pipebomb.Wire.Crypto.{Crypto, IsCrypto, max_output_size}
use pipebomb.Wire.Packet.{construct_packet, verify_packet, accepted}
use pipebomb.Wire.Framing.{frame_of, extract_partial}
use pipebomb.Wire.Stream.{frame, recv_frame, read_packet_frame, read_exact}
use pipebomb.Wire.Construct.{nonce_limit, construct_lem}
use pipebomb.Wire.RoundTrip.{verify-construct}
use pipebomb.Wire.Reassembly.{IsOpen, recv_frame-whole, recv_frame-partial}

-- The chunks carry the message, cut in any way.
abbrev pub Carries : List Bytes → Bytes → Type 0
Carries chunks message = IsOpen chunks × (concat chunks ≡ message)

le-length-open : (b : Bytes) → is_empty b ≡ false → 1 ≤ length b
le-length-open [] h = cc
le-length-open (x ∷ b) h = omega arith

read_exact-fill :
    (size : ℕ) (buffer message : Bytes) (chunks rest : List Bytes)
    → length message ≡ size
    → IsOpen chunks
    → buffer ++ concat chunks ≡ message
    → read_exact size buffer (chunks ++ rest) ≡ (message, rest)
unfolding read_exact
read_exact-fill size buffer message [] [] sized h e = ap (λ b. (b, [])) (rw append-nil at e)
read_exact-fill size buffer message [] (r ∷ rest) sized h e =
    let whole : buffer ≡ message = rw append-nil at e in
    let full : ltb (length buffer) size ≡ false = ground (arith, ap length whole) in
    rw full (ap (λ b. (b, r ∷ rest)) whole)
read_exact-fill size buffer message (chunk ∷ chunks) rest sized h e =
    let some_bytes = le-length-open chunk h.0 in
    let short : ltb (length buffer) size ≡ true = ground (
      arith,
      some_bytes,
      ap length e,
      length-append buffer (chunk ++ concat chunks),
      length-append chunk (concat chunks),
    ) in
    rw (short, h.0)
      (read_exact-fill size (buffer ++ chunk) message chunks rest sized h.1
        (append_assoc buffer chunk (concat chunks) ∙ e))

recv_frame-fill :
    (buffer ct : Bytes) (chunks rest : List Bytes)
    → length ct < u32_limit
    → IsOpen chunks
    → buffer ++ concat chunks ≡ frame_of ct
    → recv_frame buffer (chunks ++ rest) ≡ ok (frame (frame_of ct) [] rest)
recv_frame-fill buffer ct [] rest fits h e =
    recv_frame-whole buffer [] rest ct fits (rw append-nil at e ∙ sym (append-nil (frame_of ct)))
recv_frame-fill buffer ct (chunk ∷ chunks) rest fits h e =
    let some_bytes = le-length-open chunk h.0 in
    let waits = extract_partial ct buffer (chunk ++ concat chunks) fits e (
      omega (
        arith,
        some_bytes,
        ap length e,
        length-append buffer (chunk ++ concat chunks),
        length-append chunk (concat chunks),
      )) in
    recv_frame-partial buffer chunk (chunks ++ rest) h.0 waits
    ∙ recv_frame-fill (buffer ++ chunk) ct chunks rest fits h.1
        (append_assoc buffer chunk (concat chunks) ∙ e)

-- A message of known length, and a packet, are read off whole, and no byte behind them.
pub read_exact-carried :
    (message : Bytes) (chunks rest : List Bytes)
    → Carries chunks message
    → read_exact (length message) [] (chunks ++ rest) ≡ (message, rest)
read_exact-carried message chunks rest h =
    read_exact-fill (length message) [] message chunks rest refl h.0 h.1

module _ (c : Crypto) (laws : IsCrypto c) (payload key packet : Bytes) (n : ℕ)
    (fits : n < nonce_limit) (built : construct_packet c payload (some key) n ≡ ok packet) where
  pub read_packet_frame-carried :
      (chunks rest : List Bytes)
      → Carries chunks packet
      → read_packet_frame (chunks ++ rest) ≡ ok (packet, rest)
  unfolding read_packet_frame
  read_packet_frame-carried chunks rest h =
      let p = construct_lem c laws payload key n fits built in
      rw (recv_frame-fill [] p.ciphertext chunks rest p.fits h.0 (h.1 ∙ p.framed))
        (ap (λ f. ok (f, rest)) (sym p.framed))

  -- The packet that was carried alone is the payload.
  pub verify-carried :
      length payload ≤ max_output_size
      → verify_packet c packet (some key) n ≡ ok (accepted payload, none)
  verify-carried short =
      rw append-nil at (verify-construct c laws payload key [] n fits short built)

  pub packet-ne-nil : is_empty packet ≡ false
  packet-ne-nil = rw (construct_lem c laws payload key n fits built).framed refl
