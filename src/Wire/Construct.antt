-- ===== src/Wire/Construct.antt =====
-- What `construct_packet` of pipebomb/utils.py builds, and when it does.
use pipebomb.Base.{
  Bytes, ℕ, ◌+◌, ◌^◌, ◌≤◌, ◌<◌, ◌++◌, ◌≡◌, ◌≢◌, false, none, some, Option-cases, length,
  length-append, is_empty, arith, inl, inr,
}
use pipebomb.Base.Result.{ok}
use pipebomb.Wire.Struct.{be_digits, le_digits, to_bytes_big, to_bytes_little, u32_limit}
use pipebomb.Wire.Struct.Laws.{length-be_digits, length-le_digits, pack_u32-fits}
use pipebomb.Wire.Crypto.{Crypto, IsCrypto, max_plaintext}
use pipebomb.Wire.Packet.{footer, packet_body, construct_packet}
use pipebomb.Wire.Framing.{frame_of}

pub to_bytes_big-fits : (k n : ℕ) → n < 256 ^ k → to_bytes_big k n ≡ ok (be_digits k n)
unfolding to_bytes_big
to_bytes_big-fits k n h = ground arith

pub to_bytes_little-fits : (k n : ℕ) → n < 256 ^ k → to_bytes_little k n ≡ ok (le_digits k n)
unfolding to_bytes_little
to_bytes_little-fits k n h = ground arith

-- A nonce of 12 bytes counts up to here.
abbrev pub nonce_limit : ℕ
nonce_limit = 256 ^ 12

module _ (c : Crypto) (laws : IsCrypto c) where
  open laws use {
    crc32-lt, decompress-compress, compress-ne-nil, encrypt-fits, length-encrypt, encrypt-le-max,
    decrypt-encrypt,
  }

  -- The text that is encrypted: flag and body, checksum, footer.
  abbrev pub plaintext_of : Bytes → Bytes
  plaintext_of payload = packet_body c payload ++ (be_digits 4 (c.crc32 payload) ++ footer)

  -- A packet that was built is the frame of the encrypted text, which fits its size field.
  pub record IsPacketOf (payload key : Bytes) (tx_nonce : ℕ) (packet : Bytes) : Type 0 where
    pub ciphertext : Bytes
    pub framed : packet ≡ frame_of ciphertext
    pub fits : length ciphertext < u32_limit
    pub encrypted : c.encrypt key (le_digits 12 tx_nonce) (plaintext_of payload) ≡ some ciphertext

  -- Building succeeds with any payload that is not empty once the encryption does.
  construct-encrypted :
      (payload key : Bytes) (n : ℕ) (ct : Bytes)
      → is_empty payload ≡ false
      → n < nonce_limit
      → c.encrypt key (le_digits 12 n) (plaintext_of payload) ≡ some ct
      → length ct < u32_limit
      → construct_packet c payload (some key) n ≡ ok (frame_of ct)
  unfolding construct_packet
  construct-encrypted payload key n ct he hn e hct = ground (
    arith,
    to_bytes_big-fits 4 (c.crc32 payload) (crc32-lt payload),
    to_bytes_little-fits 12 n hn,
    pack_u32-fits (length ct) hct,
  )

  construct-failed :
      (payload key : Bytes) (n : ℕ) {packet : Bytes}
      → n < nonce_limit
      → c.encrypt key (le_digits 12 n) (plaintext_of payload) ≡ none
      → construct_packet c payload (some key) n ≢ ok packet
  unfolding construct_packet
  construct-failed payload key n hn e = ground (
    arith,
    to_bytes_big-fits 4 (c.crc32 payload) (crc32-lt payload),
    to_bytes_little-fits 12 n hn,
  )

  pub construct-ne-nil :
      (payload key : Bytes) (n : ℕ) {packet : Bytes}
      → construct_packet c payload (some key) n ≡ ok packet
      → is_empty payload ≡ false
  unfolding construct_packet
  construct-ne-nil payload key n built = ground arith

  ciphertext-fits :
      (payload key nonce : Bytes) {ct : Bytes}
      → c.encrypt key nonce (plaintext_of payload) ≡ some ct
      → length ct < u32_limit
  ciphertext-fits payload key nonce e =
      omega (arith, length-encrypt key nonce _ e, encrypt-le-max key nonce _ e)

  pub construct_lem :
      (payload key : Bytes) (n : ℕ) {packet : Bytes}
      → n < nonce_limit
      → construct_packet c payload (some key) n ≡ ok packet
      → IsPacketOf payload key n packet
  construct_lem payload key n {packet} hn built =
      let encrypted = c.encrypt key (le_digits 12 n) (plaintext_of payload) in
      elim (Option-cases encrypted) [
        | inl e ↦ absurd (construct-failed payload key n hn e built)
        | inr (ct, e) ↦
            let fits = ciphertext-fits payload key (le_digits 12 n) e in
            let nonempty = construct-ne-nil payload key n built in
            record {
              ciphertext = ct;
              framed = cc (construct-encrypted payload key n ct nonempty hn e fits);
              fits = fits;
              encrypted = e;
            }
      ]

  length-packet_body : (payload : Bytes) → length (packet_body c payload) ≤ length payload + 1
  unfolding packet_body
  length-packet_body payload = ground arith

  pub length-plaintext_of : (payload : Bytes) → length (plaintext_of payload) ≤ length payload + 7
  length-plaintext_of payload = omega (
    arith,
    length-append (packet_body c payload) (be_digits 4 (c.crc32 payload) ++ footer),
    length-append (be_digits 4 (c.crc32 payload)) footer,
    length-be_digits 4 (c.crc32 payload),
    length-packet_body payload,
  )

  -- Whatever the payload, if it is not empty and its text not too long, a packet is built.
  pub construct_total :
      (payload key : Bytes) (n : ℕ)
      → is_empty payload ≡ false
      → n < nonce_limit
      → length payload + 7 ≤ max_plaintext
      → (packet : Bytes) × (construct_packet c payload (some key) n ≡ ok packet)
  construct_total payload key n he hn hl =
      let nonce = le_digits 12 n in
      let long = length-plaintext_of payload in
      let possible =
        encrypt-fits key nonce (plaintext_of payload) (length-le_digits 12 n) (omega arith) in
      elim (Option-cases (c.encrypt key nonce (plaintext_of payload))) [
        | inl e ↦ absurd (possible e)
        | inr (ct, e) ↦ (
          frame_of ct,
          construct-encrypted payload key n ct he hn e (ciphertext-fits payload key nonce e),
        )
      ]
