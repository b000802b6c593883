-- ===== src/Client/ReceiveLaws.antt =====
-- What the receiving loop of pipebomb/client.py does with the packets that pipebomb/server.py sends.
use pipebomb.Base.{
  Bytes, ℕ, ◌+◌, ◌≤◌, ◌<◌, [], ◌∷◌, ◌++◌, ◌≡◌, ap, ◌∙◌, false, Bool-cases, some, ◌≢◌, inl, inr,
  eq_bytes_iff, length, take, eq_bytes, append-nil, arith,
}
use pipebomb.Base.Result.{ok}
use pipebomb.Wire.Crypto.{Crypto, IsCrypto, max_output_size}
use pipebomb.Wire.Packet.{construct_packet, accepted, verify_packet}
use pipebomb.Wire.Construct.{nonce_limit}
use pipebomb.Wire.RoundTrip.{verify-construct}
use pipebomb.Wire.Errors.{err_dispatch}
use pipebomb.Client.Receive.{RawClient, err_prefix, err_zero, on_verdict, on_result, receive_frame}

-- The connection after a packet that was taken for data.
abbrev pub queued : Bytes → RawClient → RawClient
queued packet c = record c {
  rx_nonce = c.rx_nonce + 1;
  input_packets = c.input_packets ++ (packet ∷ []);
}

pub on_verdict-queued :
    (packet : Bytes) (c : RawClient)
    → eq_bytes (take 3 packet) err_prefix ≡ false
    → on_verdict (accepted packet) c ≡ (ok tt, queued packet c)
unfolding on_verdict
on_verdict-queued packet c plain = elim (Bool-cases (eq_bytes packet err_zero)) [
  | inr other ↦ rw (other, plain)
  | inl same ↦
      let e = (eq_bytes_iff packet err_zero).0 same in absurd (err_zero_prefixed (rw e at plain))
]
  where
    err_zero_prefixed : eq_bytes (take 3 err_zero) err_prefix ≢ false
    err_zero_prefixed h = unfold eq_bytes in cc

-- Client and server stay in step: a packet that was built under the client's key and its next nonce,
-- and whose payload does not begin with "ERR", is queued, and the nonce counted on.
pub receive-construct :
    (crypto : Crypto) (laws : IsCrypto crypto) (payload packet key : Bytes) (c : RawClient)
    → c.cipher ≡ some key
    → c.rx_nonce < nonce_limit
    → length payload ≤ max_output_size
    → eq_bytes (take 3 payload) err_prefix ≡ false
    → construct_packet crypto payload (some key) c.rx_nonce ≡ ok packet
    → receive_frame crypto packet c ≡ (ok tt, queued payload c)
unfolding receive_frame
receive-construct crypto laws payload packet key c keyed fits short plain built =
    let verified = verify-construct crypto laws payload key [] c.rx_nonce fits short built in
    ap (λ k. on_result (verify_packet crypto packet k c.rx_nonce) c) keyed
    ∙ ap (λ r. on_result r c) (rw append-nil at verified)
    ∙ on_verdict-queued payload c plain

-- An error reply has six bytes at most, and no "ERR" at the front.
err_dispatch-plain :
    (code : ℕ) {payload : Bytes}
    → err_dispatch code ≡ some payload
    → (length payload ≤ max_output_size) × (eq_bytes (take 3 payload) err_prefix ≡ false)
unfolding err_dispatch eq_bytes
err_dispatch-plain code found = ground arith

-- An error reply to a command, as the server builds it under the client's key and the next nonce that
-- the client hears, is not an error to the client: its loop looks for "ERR" at the front, where the
-- reply has a zero byte, so that it is queued as data and nothing is raised.
pub error_replies_queued :
    (crypto : Crypto) (laws : IsCrypto crypto) (code : ℕ) (payload packet key : Bytes)
    (c : RawClient)
    → err_dispatch code ≡ some payload
    → c.cipher ≡ some key
    → c.rx_nonce < nonce_limit
    → construct_packet crypto payload (some key) c.rx_nonce ≡ ok packet
    → receive_frame crypto packet c ≡ (ok tt, queued payload c)
error_replies_queued crypto laws code payload packet key c found keyed fits built =
    let (short, plain) = err_dispatch-plain code found in
    receive-construct crypto laws payload packet key c keyed fits short plain built
