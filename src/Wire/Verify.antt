-- ===== src/Wire/Verify.antt =====
-- What `verify_packet` of pipebomb/utils.py answers on any input, well formed or not.
use pipebomb.Base.{
  Bytes, ℕ, ◌+◌, ◌-◌, ◌≤◌, ◌<◌, [], ◌∷◌, ◌≡◌, refl, sym, ◌∙◌, ltb, Bool-cases, Option, none, some,
  length, take, drop, slice, eq_bytes, eq_bytes_iff, arith, ◌⊎◌, inl, inr,
}
use pipebomb.Base.Result.{ok}
use pipebomb.Wire.Struct.{be_digits, le_digits, to_bytes_big}
use pipebomb.Wire.Crypto.{Crypto}
use pipebomb.Wire.Packet.{
  header, footer, accepted, rejected, verify_checksum, payload_of, verify_body, verify_plaintext,
  verify_decrypted, verify_packet, or_none,
}
use pipebomb.Wire.Framing.{size_field, size_field-unpack}
use pipebomb.Wire.Construct.{to_bytes_little-fits, nonce_limit}

-- A refusal carries error 2 or 3 and no remainder.
abbrev pub IsRefusal : ℕ → Option Bytes → Type 0
IsRefusal code remainder = ((code ≡ 2) ⊎ (code ≡ 3)) × (remainder ≡ none)

module _ (c : Crypto) where
  checksum_codes :
      (payload checksum : Bytes) (remainder : Option Bytes) {code : ℕ} {r : Option Bytes}
      → verify_checksum c payload checksum remainder ≡ ok (rejected code, r)
      → IsRefusal code r
  unfolding verify_checksum to_bytes_big
  checksum_codes payload checksum remainder h = ground arith

  body_codes :
      (payload : Option Bytes) (checksum : Bytes) (remainder : Option Bytes) {code : ℕ}
      {r : Option Bytes}
      → verify_body c payload checksum remainder ≡ ok (rejected code, r)
      → IsRefusal code r
  unfolding verify_body
  body_codes none checksum remainder h = ground arith
  body_codes (some payload) checksum remainder h = checksum_codes payload checksum remainder h

  plaintext_codes :
      (text : Bytes) (remainder : Option Bytes) {code : ℕ} {r : Option Bytes}
      → verify_plaintext c text remainder ≡ ok (rejected code, r)
      → IsRefusal code r
  unfolding verify_plaintext
  plaintext_codes [] remainder h = ground arith
  plaintext_codes (flags ∷ rest) remainder h =
      let size = length (flags ∷ rest) in
      ground (
        arith,
        body_codes (payload_of c flags (slice 1 (size - 6) (flags ∷ rest)))
            (slice (size - 6) (size - 2) (flags ∷ rest)) remainder,
      )

  decrypted_codes :
      (text remainder : Option Bytes) {code : ℕ} {r : Option Bytes}
      → verify_decrypted c text remainder ≡ ok (rejected code, r)
      → IsRefusal code r
  unfolding verify_decrypted
  decrypted_codes none remainder h = ground arith
  decrypted_codes (some text) remainder h = plaintext_codes text remainder h

  -- The ciphertext that the size field cuts out of a packet.
  abbrev pub ciphertext_field : Bytes → Bytes
  ciphertext_field packet = slice 6 (6 + size_field packet) packet

  abbrev pub remainder_field : Bytes → Option Bytes
  remainder_field packet = or_none (drop (6 + size_field packet) packet)

  -- Under a cipher and a nonce that fits, the answer is a refusal of the packet's shape, or that of
  -- the checks on the decrypted text.
  pub verify_packet_cases :
      (packet key : Bytes) (n : ℕ)
      → n < nonce_limit
      → (verify_packet c packet (some key) n ≡ ok (rejected 2, none))
        ⊎ ((take 2 packet ≡ header)
            × (verify_packet c packet (some key) n
                ≡ verify_decrypted c
                    (c.decrypt key (le_digits 12 n) (ciphertext_field packet))
                    (remainder_field packet)))
  unfolding verify_packet
  verify_packet_cases packet key n hn = elim (Bool-cases (ltb (length packet) 6)) [
    | inl short ↦ inl (rw (to_bytes_little-fits 12 n hn, short))
    | inr long ↦ elim (Bool-cases (eq_bytes (take 2 packet) header)) [
      | inr other ↦ inl (rw (to_bytes_little-fits 12 n hn, long, other))
      | inl same ↦
          let unpacked = size_field-unpack packet (ground arith) in
          elim (Bool-cases (ltb (length packet) (6 + size_field packet))) [
            | inl cut ↦ inl (rw (to_bytes_little-fits 12 n hn, long, same, unpacked, cut))
            | inr full ↦ inr (
              (eq_bytes_iff (take 2 packet) header).0 same,
              rw (to_bytes_little-fits 12 n hn, long, same, unpacked, full),
            )
          ]
    ]
  ]

  -- Every refusal, under a nonce that fits, is error 2 or 3, and comes with no remainder.
  pub verify-rejected :
      (packet key : Bytes) (n : ℕ) {code : ℕ} {r : Option Bytes}
      → n < nonce_limit
      → verify_packet c packet (some key) n ≡ ok (rejected code, r)
      → IsRefusal code r
  verify-rejected packet key n hn h = elim (verify_packet_cases packet key n hn) [
    | inl shape ↦ ground (arith, shape)
    | inr (_, same) ↦ decrypted_codes _ _ (sym same ∙ h)
  ]

  -- A text that passes the checks: it ends in the footer, and its checksum is the payload's.
  pub record IsSealed (payload text : Bytes) : Type 0 where
    pub flags : ℕ
    pub rest : Bytes
    pub begins : text ≡ flags ∷ rest
    pub long : 8 ≤ length text
    pub ends : drop (length text - 2) text ≡ footer
    pub unpacked : payload_of c flags (slice 1 (length text - 6) text) ≡ some payload
    pub checked :
        to_bytes_big 4 (c.crc32 payload) ≡ ok (slice (length text - 6) (length text - 2) text)

  body-accepted :
      (o : Option Bytes) (checksum : Bytes) (remainder : Option Bytes) {payload : Bytes}
      {r : Option Bytes}
      → verify_body c o checksum remainder ≡ ok (accepted payload, r)
      → (o ≡ some payload) × (to_bytes_big 4 (c.crc32 payload) ≡ ok checksum)
  unfolding verify_body verify_checksum to_bytes_big
  body-accepted none checksum remainder h = ground arith
  body-accepted (some p) checksum remainder h =
      ground (arith, eq_bytes_iff (be_digits 4 (c.crc32 p)) checksum)

  plaintext-accepted :
      (text : Bytes) (remainder : Option Bytes) {payload : Bytes} {r : Option Bytes}
      → verify_plaintext c text remainder ≡ ok (accepted payload, r)
      → IsSealed payload text
  unfolding verify_plaintext
  plaintext-accepted [] remainder h = absurd (ground arith)
  plaintext-accepted (flags ∷ rest) remainder {payload} {r} h =
      let size = length (flags ∷ rest) in
      let end = drop (size - 2) (flags ∷ rest) in
      let body = payload_of c flags (slice 1 (size - 6) (flags ∷ rest)) in
      let checksum = slice (size - 6) (size - 2) (flags ∷ rest) in
      let facts : (8 ≤ size)
          × (end ≡ footer)
          × (verify_body c body checksum remainder ≡ ok (accepted payload, r)) =
        ground (arith, eq_bytes_iff end footer) in
      let found = body-accepted body checksum remainder facts.2 in
      record {
        flags = flags;
        rest = rest;
        begins = refl;
        long = facts.0;
        ends = facts.1;
        unpacked = found.0;
        checked = found.1;
      }

  -- What is accepted was authenticated: the size field's ciphertext decrypts, under the receiver's
  -- key and nonce, to a text that passes the checks.
  pub record IsAuthentic (payload packet key : Bytes) (rx_nonce : ℕ) : Type 0 where
    pub text : Bytes
    pub framed : take 2 packet ≡ header
    pub decrypted : c.decrypt key (le_digits 12 rx_nonce) (ciphertext_field packet) ≡ some text
    pub passes : IsSealed payload text

  decrypted-accepted :
      (o remainder : Option Bytes) {payload : Bytes} {r : Option Bytes}
      → verify_decrypted c o remainder ≡ ok (accepted payload, r)
      → (text : Bytes) × (o ≡ some text) × IsSealed payload text
  unfolding verify_decrypted
  decrypted-accepted none remainder h = absurd (ground arith)
  decrypted-accepted (some text) remainder h = (text, refl, plaintext-accepted text remainder h)

  -- A packet that is accepted, under a nonce that fits, was authenticated: it has the header, its
  -- ciphertext decrypts under the receiver's key and nonce, and the text ends in the footer and has the
  -- checksum of the payload that is returned.
  pub verify-accepted :
      (packet key : Bytes) (n : ℕ) {payload : Bytes} {r : Option Bytes}
      → n < nonce_limit
      → verify_packet c packet (some key) n ≡ ok (accepted payload, r)
      → IsAuthentic payload packet key n
  verify-accepted packet key n hn h = elim (verify_packet_cases packet key n hn) [
    | inl shape ↦ absurd (ground (arith, shape))
    | inr (same_header, same) ↦
        let found = decrypted-accepted _ _ (sym same ∙ h) in
        record { text = found.0; framed = same_header; decrypted = found.1; passes = found.2 }
  ]
