-- ===== src/Wire/Total.antt =====
-- `verify_packet` of pipebomb/utils.py answers every packet.
use pipebomb.Base.{
  Bytes, ℕ, ◌-◌, ◌<◌, [], ◌∷◌, ◌≡◌, refl, ◌∙◌, ltb, Bool-cases, Option, none, some, length, drop,
  slice, eq_bytes, is_empty, inl, inr,
}
use pipebomb.Base.Result.{ok}
use pipebomb.Wire.Struct.{be_digits, le_digits}
use pipebomb.Wire.Crypto.{Crypto, IsCrypto}
use pipebomb.Wire.Packet.{
  footer, accepted, rejected, Verified, verify_checksum, payload_of, verify_body, verify_plaintext,
  verify_decrypted, verify_packet,
}
use pipebomb.Wire.Construct.{to_bytes_big-fits, nonce_limit}
use pipebomb.Wire.Verify.{ciphertext_field, remainder_field, verify_packet_cases}

-- With a checksum that fits four bytes no check raises.
module _ (c : Crypto) (laws : IsCrypto c) where
  checksum-total :
      (payload checksum : Bytes) (remainder : Option Bytes)
      → (v : Verified) × (verify_checksum c payload checksum remainder ≡ ok v)
  unfolding verify_checksum
  checksum-total payload checksum remainder =
      elim (Bool-cases (eq_bytes (be_digits 4 (c.crc32 payload)) checksum)) [
        | inl same ↦ (
          (accepted payload, remainder),
          rw (to_bytes_big-fits 4 _ (laws.crc32-lt payload), same),
        )
        | inr other ↦
            ((rejected 3, none), rw (to_bytes_big-fits 4 _ (laws.crc32-lt payload), other))
      ]

  body-total :
      (o : Option Bytes) (checksum : Bytes) (remainder : Option Bytes)
      → (v : Verified) × (verify_body c o checksum remainder ≡ ok v)
  unfolding verify_body
  body-total none checksum remainder = (_, refl)
  body-total (some payload) checksum remainder = checksum-total payload checksum remainder

  plaintext-total :
      (text : Bytes) (remainder : Option Bytes)
      → (v : Verified) × (verify_plaintext c text remainder ≡ ok v)
  unfolding verify_plaintext
  plaintext-total [] remainder = (_, refl)
  plaintext-total (flags ∷ rest) remainder =
      let size = length (flags ∷ rest) in
      let body = slice 1 (size - 6) (flags ∷ rest) in
      let full =
        body-total (payload_of c flags body) (slice (size - 6) (size - 2) (flags ∷ rest))
          remainder in
      elim (Bool-cases (ltb size 8)) [
        | inl short ↦ ((rejected 2, none), rw short)
        | inr long ↦ elim (Bool-cases (eq_bytes (drop (size - 2) (flags ∷ rest)) footer)) [
          | inr other ↦ ((rejected 2, none), rw (long, other))
          | inl same ↦ elim (Bool-cases (is_empty body)) [
            | inl bare ↦ ((rejected 2, none), rw (long, same, bare))
            | inr filled ↦ (full.0, rw (long, same, filled) full.1)
          ]
        ]
      ]

  decrypted-total :
      (o remainder : Option Bytes) → (v : Verified) × (verify_decrypted c o remainder ≡ ok v)
  unfolding verify_decrypted
  decrypted-total none remainder = (_, refl)
  decrypted-total (some text) remainder = plaintext-total text remainder

  -- Under a cipher and a nonce that fits, no packet makes `verify_packet` raise.
  pub verify-total :
      (packet key : Bytes) (n : ℕ)
      → n < nonce_limit
      → (v : Verified) × (verify_packet c packet (some key) n ≡ ok v)
  verify-total packet key n hn = elim (verify_packet_cases c packet key n hn) [
    | inl shape ↦ (_, shape)
    | inr (_, same) ↦
        let answer =
          decrypted-total (c.decrypt key (le_digits 12 n) (ciphertext_field c packet))
            (remainder_field c packet) in
        (answer.0, same ∙ answer.1)
  ]
