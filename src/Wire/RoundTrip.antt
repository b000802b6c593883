-- ===== src/Wire/RoundTrip.antt =====
-- `verify_packet` of pipebomb/utils.py gives back what `construct_packet` was given.
use pipebomb.Base.{
  Bytes, ℕ, ◌+◌, ◌-◌, ◌≤◌, ◌<◌, [], ◌∷◌, ◌++◌, ◌≡◌, false, ltb, if◌then◌else◌, Option, some, length,
  slice, length-append, slice-middle, drop-append_left, eq_bytes, eq_bytes_refl, is_empty, arith,
  append_assoc,
}
use pipebomb.Base.Result.{ok}
use pipebomb.Wire.Struct.{be_digits, le_digits, u32_limit}
use pipebomb.Wire.Struct.Laws.{length-be_digits, unpack_u32-packed}
use pipebomb.Wire.Crypto.{Crypto, IsCrypto, max_output_size}
use pipebomb.Wire.Packet.{
  header, footer, packet_body, construct_packet, accepted, verify_checksum, payload_of, verify_body,
  verify_plaintext, verify_decrypted, verify_packet, or_none,
}
use pipebomb.Wire.Framing.{frame_of}
use pipebomb.Wire.Construct.{
  to_bytes_big-fits, to_bytes_little-fits, nonce_limit, plaintext_of, construct_lem,
  construct-ne-nil,
}

module _ (c : Crypto) (laws : IsCrypto c) where
  open laws use {
    crc32-lt, decompress-compress, compress-ne-nil, encrypt-fits, length-encrypt, encrypt-le-max,
    decrypt-encrypt,
  }

  -- The flag byte and the body of the packet's text.
  abbrev flags_of : Bytes → ℕ
  flags_of payload = if ltb (length (c.compress payload)) (length payload) then 1 else 0

  abbrev body_of : Bytes → Bytes
  body_of payload =
      if ltb (length (c.compress payload)) (length payload) then c.compress payload else payload

  packet_body_lem : (payload : Bytes) → packet_body c payload ≡ flags_of payload ∷ body_of payload
  unfolding packet_body
  packet_body_lem payload = ground arith

  body_of-ne-nil : (payload : Bytes) → is_empty payload ≡ false → is_empty (body_of payload) ≡ false
  body_of-ne-nil payload h = ground (arith, compress-ne-nil payload)

  payload_of-body_of :
      (payload : Bytes)
      → length payload ≤ max_output_size
      → payload_of c (flags_of payload) (body_of payload) ≡ some payload
  unfolding payload_of
  payload_of-body_of payload h = ground (arith, decompress-compress payload h)

  verify_checksum_lem :
      (payload : Bytes) (remainder : Option Bytes)
      → verify_checksum c payload (be_digits 4 (c.crc32 payload)) remainder
        ≡ ok (accepted payload, remainder)
  unfolding verify_checksum
  verify_checksum_lem payload remainder =
      rw (to_bytes_big-fits 4 (c.crc32 payload) (crc32-lt payload), eq_bytes_refl)

  -- A text in three parts is taken apart again.
  verify_plaintext_lem :
      (flags : ℕ) (body checksum : Bytes) (remainder : Option Bytes)
      → is_empty body ≡ false
      → length checksum ≡ 4
      → verify_plaintext c (flags ∷ (body ++ (checksum ++ footer))) remainder
        ≡ verify_body c (payload_of c flags body) checksum remainder
  unfolding verify_plaintext
  verify_plaintext_lem flags [] checksum remainder he hc = cc
  verify_plaintext_lem flags (b ∷ body) checksum remainder he hc =
      let front : Bytes = flags ∷ b ∷ body in
      let size = length front + 6 in
      let measured : length (front ++ (checksum ++ footer)) ≡ size =
        omega (arith, length-append front (checksum ++ footer), length-append checksum footer) in
      ground (
        arith,
        measured,
        slice-middle 1 (size - 6) (flags ∷ []) (b ∷ body) (checksum ++ footer) (omega arith)
            (omega arith),
        slice-middle (size - 6) (size - 2) front checksum footer (omega arith) (omega arith),
        drop-append_left (size - 2) (front ++ checksum) footer
            (omega (arith, length-append front checksum)),
        append_assoc front checksum footer,
        eq_bytes_refl footer,
      )

  verify_plaintext_of :
      (payload : Bytes) (remainder : Option Bytes)
      → is_empty payload ≡ false
      → length payload ≤ max_output_size
      → verify_plaintext c (plaintext_of c laws payload) remainder
        ≡ ok (accepted payload, remainder)
  verify_plaintext_of payload remainder he hl =
      let checksum = be_digits 4 (c.crc32 payload) in
      rw
        (
          packet_body_lem,
          verify_plaintext_lem (flags_of payload) (body_of payload) checksum remainder
              (body_of-ne-nil payload he) (length-be_digits 4 (c.crc32 payload)),
          payload_of-body_of payload hl,
        )
        (unfold verify_body in verify_checksum_lem payload remainder)

  -- A whole frame, also with bytes behind it, is decrypted under the receiver's nonce.
  verify-frame_of :
      (key ct rest : Bytes) (n : ℕ)
      → n < nonce_limit
      → length ct < u32_limit
      → verify_packet c (frame_of ct ++ rest) (some key) n
        ≡ verify_decrypted c (c.decrypt key (le_digits 12 n) ct) (or_none rest)
  unfolding verify_packet be_digits slice eq_bytes
  verify-frame_of key ct rest n hn hct =
      let size = length ct in
      ground (
        arith,
        to_bytes_little-fits 12 n hn,
        unpack_u32-packed size hct,
        length-append ct rest,
        slice-middle 6 (6 + size) (header ++ be_digits 4 size) ct rest (omega arith) (omega arith),
        drop-append_left (6 + size) (frame_of ct) rest (omega arith),
      )

  -- Under libraries that keep their laws, a nonce of 12 bytes and a payload within the limit of the
  -- decompressor: the receiver, with the sender's key and nonce, gets the payload of the packet that
  -- `construct_packet` built, with the bytes behind the packet as the remainder.
  pub verify-construct :
      (payload key rest : Bytes) (n : ℕ) {packet : Bytes}
      → n < nonce_limit
      → length payload ≤ max_output_size
      → construct_packet c payload (some key) n ≡ ok packet
      → verify_packet c (packet ++ rest) (some key) n ≡ ok (accepted payload, or_none rest)
  verify-construct payload key rest n {packet} hn hl built =
      let p = construct_lem c laws payload key n hn built in
      let nonempty = construct-ne-nil c laws payload key n built in
      rw
        (
          p.framed,
          verify-frame_of key p.ciphertext rest n hn p.fits,
          decrypt-encrypt key (le_digits 12 n) (plaintext_of c laws payload) p.encrypted,
        )
        (unfold verify_decrypted in verify_plaintext_of payload (or_none rest) nonempty hl)
