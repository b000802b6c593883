-- ===== src/Client/Streaming.antt =====
-- The receiving loop of pipebomb/client.py over a whole stream of packets.
use pipebomb.Base.{
  Bytes, ℕ, zero, suc, ◌+◌, ◌≤◌, ◌<◌, List, [], ◌∷◌, ◌++◌, ◌≡◌, refl, sym, ap, ◌∙◌, false, some,
  length, take, concat, All, eq_bytes, append_assoc, append-nil, arith,
}
use pipebomb.Base.Result.{Result, ok, ◌>>=◌, came-through}
use pipebomb.Wire.Crypto.{Crypto, IsCrypto, max_output_size}
use pipebomb.Wire.Packet.{construct_packet, extract_packet_frame}
use pipebomb.Wire.Stream.{recv_frame, end_of_stream}
use pipebomb.Wire.Construct.{nonce_limit, construct_lem}
use pipebomb.Wire.Reassembly.{IsOpen, recv_frame-reassembles}
use pipebomb.Client.Receive.{
  RawClient, err_prefix, receive_frame, stream_ended, after_frame, on_arrival, recv_loop,
}
use pipebomb.Client.ReceiveLaws.{queued, receive-construct}

-- What a sender that counts its nonces builds of one payload after the other.
unfoldable pub construct_all : Crypto → Bytes → ℕ → List Bytes → Result (List Bytes)
unfolding construct_packet
construct_all crypto key n [] = ok []
construct_all crypto key n (payload ∷ payloads) = do
  packet ← construct_packet crypto payload (some key) n
  packets ← construct_all crypto key (n + 1) payloads
  ok (packet ∷ packets)

-- A payload that the loop takes for data: no longer than it decompresses, with no "ERR" in front.
abbrev pub IsData : Bytes → Type 0
IsData payload = (length payload ≤ max_output_size) × (eq_bytes (take 3 payload) err_prefix ≡ false)

-- The connection when all of them have come.
abbrev pub queued_all : List Bytes → RawClient → RawClient
queued_all payloads c = record c {
  rx_nonce = c.rx_nonce + length payloads;
  input_packets = c.input_packets ++ payloads;
}

queued_all-queued :
    (payload : Bytes) (payloads : List Bytes) (c : RawClient)
    → queued_all payloads (queued payload c) ≡ queued_all (payload ∷ payloads) c
queued_all-queued payload payloads c =
    let counted : c.rx_nonce + 1 + length payloads ≡ c.rx_nonce + length (payload ∷ payloads) =
      omega arith in
    ap
      (λ n. record c {
        rx_nonce = n;
        input_packets = (c.input_packets ++ (payload ∷ [])) ++ payloads;
      })
      counted
    ∙ ap
        (λ ps. record c { rx_nonce = c.rx_nonce + length (payload ∷ payloads); input_packets = ps })
        (append_assoc c.input_packets (payload ∷ []) payloads)

IsOpen-nil : (chunks : List Bytes) → IsOpen chunks → concat chunks ≡ [] → chunks ≡ []
IsOpen-nil [] h e = refl
IsOpen-nil ([] ∷ chunks) h e = absurd (ground arith)
IsOpen-nil ((b ∷ bs) ∷ chunks) h e = cc

append-nil_both : (xs ys : Bytes) → xs ++ ys ≡ [] → (xs ≡ []) × (ys ≡ [])
append-nil_both [] ys e = (refl, e)
append-nil_both (x ∷ xs) ys e = cc

stream_over :
    (buffer : Bytes) (chunks : List Bytes)
    → IsOpen chunks
    → buffer ++ concat chunks ≡ []
    → recv_frame buffer chunks ≡ ok (end_of_stream [])
unfolding recv_frame extract_packet_frame
stream_over buffer chunks h e =
    let (no_bytes, no_more) = append-nil_both buffer (concat chunks) e in
    rw (no_bytes, IsOpen-nil chunks h no_more)

module _ (crypto : Crypto) (laws : IsCrypto crypto) (key : Bytes) where
  -- The packets of a sender that counts its nonces from the client's, whose payloads are data, cut
  -- into chunks in any way: the loop, with a round for each and one for the end, queues the payloads
  -- in their order and nothing else, and counts its nonce on by their number.
  pub recv_loop-queues :
      (payloads packets : List Bytes) (fuel : ℕ) (buffer : Bytes) (chunks : List Bytes)
      (c : RawClient)
      → c.cipher ≡ some key
      → construct_all crypto key c.rx_nonce payloads ≡ ok packets
      → All IsData payloads
      → c.rx_nonce + length payloads ≤ nonce_limit
      → IsOpen chunks
      → buffer ++ concat chunks ≡ concat packets
      → length payloads < fuel
      → recv_loop crypto fuel buffer chunks c ≡ (ok stream_ended, queued_all payloads c)
  unfolding recv_loop construct_all
  recv_loop-queues payloads packets zero buffer chunks c keyed built data_ fits h e rounds =
      absurd (omega arith)
  recv_loop-queues [] packets (suc fuel) buffer chunks c keyed built data_ fits h e rounds =
      let nothing_counted : c.rx_nonce ≡ c.rx_nonce + 0 = omega arith in
      let none_left : buffer ++ concat chunks ≡ [] = ground arith in
      rw (stream_over buffer chunks h none_left, append-nil c.input_packets)
        (ap (λ n. (ok stream_ended, record c { rx_nonce = n })) nothing_counted)
  recv_loop-queues (payload ∷ payloads) packets (suc fuel) buffer chunks c keyed built data_ fits h
        e rounds =
      let (packet, now, later) =
        came-through (construct_packet crypto payload (some key) c.rx_nonce) _ built in
      let (others, then_, same) =
        came-through (construct_all crypto key (c.rx_nonce + 1) payloads) _ later in
      let listed : packets ≡ packet ∷ others = cc same in
      let framed = construct_lem crypto laws payload key c.rx_nonce (omega arith) now in
      let r =
        recv_frame-reassembles buffer chunks framed.ciphertext (concat others) framed.fits h
          (e ∙ ap concat listed ∙ ap (λ p. p ++ concat others) framed.framed) in
      ap (λ a. on_arrival crypto a (recv_loop crypto fuel) c) r.received
      ∙ ap (λ f. after_frame (receive_frame crypto f c) (recv_loop crypto fuel r.left r.unread))
          (sym framed.framed)
      ∙ ap (λ q. after_frame q (recv_loop crypto fuel r.left r.unread))
          (receive-construct crypto laws payload packet key c keyed (omega arith) data_.0.0
            data_.0.1 now)
      ∙ recv_loop-queues payloads others fuel r.left r.unread (queued payload c) keyed then_ data_.1
          (omega arith) r.still_open r.rest (omega arith)
      ∙ ap (λ d. (ok stream_ended, d)) (queued_all-queued payload payloads c)
