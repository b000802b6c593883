-- ===== src/Wire/Size.antt =====
-- How large a packet of pipebomb/utils.py is.
use pipebomb.Base.{
  Bytes, ℕ, ◌+◌, ◌≤◌, ◌<◌, ◌++◌, ◌≡◌, ap, ◌∙◌, some, is_empty, false, length, length-append, arith,
}
use pipebomb.Base.Result.{ok}
use pipebomb.Wire.Struct.{be_digits}
use pipebomb.Wire.Struct.Laws.{length-be_digits}
use pipebomb.Wire.Crypto.{Crypto, IsCrypto}
use pipebomb.Wire.Packet.{header, footer, packet_body, construct_packet}
use pipebomb.Wire.Framing.{frame_of}
use pipebomb.Wire.Construct.{
  nonce_limit, construct_lem, construct-ne-nil, plaintext_of, length-plaintext_of,
}

length-frame_of : (ct : Bytes) → length (frame_of ct) ≡ length ct + 6
length-frame_of ct = omega (
  arith,
  length-append header (be_digits 4 (length ct) ++ ct),
  length-append (be_digits 4 (length ct)) ct,
  length-be_digits 4 (length ct),
)

module _ (c : Crypto) (laws : IsCrypto c) where
  packet_body_size :
      (payload : Bytes) → is_empty payload ≡ false → 2 ≤ length (packet_body c payload)
  unfolding packet_body
  packet_body_size payload given = ground (arith, laws.compress-ne-nil payload)

  plaintext_of_size :
      (payload : Bytes) → is_empty payload ≡ false → 8 ≤ length (plaintext_of c laws payload)
  plaintext_of_size payload given = omega (
    arith,
    length-append (packet_body c payload) (be_digits 4 (c.crc32 payload) ++ footer),
    length-append (be_digits 4 (c.crc32 payload)) footer,
    length-be_digits 4 (c.crc32 payload),
    packet_body_size payload given,
  )

  -- A packet that was built has 30 bytes at least, and 29 more than its payload at most, whether the
  -- payload was compressed or not.
  pub length-construct :
      (payload key : Bytes) (n : ℕ) {packet : Bytes}
      → n < nonce_limit
      → construct_packet c payload (some key) n ≡ ok packet
      → (30 ≤ length packet) × (length packet ≤ length payload + 29)
  length-construct payload key n fits built =
      let p = construct_lem c laws payload key n fits built in
      let given = construct-ne-nil c laws payload key n built in
      let sized = ap length p.framed ∙ length-frame_of p.ciphertext in
      let tagged = laws.length-encrypt key _ (plaintext_of c laws payload) p.encrypted in
      (
        omega (arith, sized, tagged, plaintext_of_size payload given),
        omega (arith, sized, tagged, length-plaintext_of c laws payload),
      )
