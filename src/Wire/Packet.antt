-- ===== src/Wire/Packet.antt =====
-- pipebomb/utils.py: the constants of a packet, `primitive`, `extract_packet_frame`,
-- `construct_packet` and `verify_packet`. Logging is left out.
use pipebomb.Base.{
  Bytes, ℕ, ◌+◌, ◌-◌, [], ◌∷◌, ◌++◌, not, ltb, ◌==◌, if◌then◌else◌, length, take, drop, slice,
  eq_bytes, is_empty, Option, none, some, bit_and,
}
use pipebomb.Base.Result.{
  Result, ok, err, runtime_error, overflow_error, attribute_error, type_error, ◌>>=◌,
}
use pipebomb.Wire.Struct.{to_bytes_big, to_bytes_little, pack_u32, unpack_u32}
use pipebomb.Wire.Crypto.{Crypto, max_output_size}

abbrev pub header : Bytes
header = 0x91 ∷ 0x93 ∷ []

abbrev pub footer : Bytes
footer = 0x80 ∷ 0x38 ∷ []

abbrev pub frame_header_size : ℕ
frame_header_size = 6

-- `ACK`: a zero byte, "ERR", and a zero byte.
abbrev pub ack : Bytes
ack = 0 ∷ 69 ∷ 82 ∷ 82 ∷ 0 ∷ []

-- The three results of `extract_packet_frame`: a frame or None, what is left of the buffer, and a
-- framing error or None.
unfoldable pub extract_packet_frame : Bytes → Result (Option Bytes × Bytes × Option ℕ)
extract_packet_frame buffer =
    if ltb (length buffer) frame_header_size
    then ok (none, buffer, none)
    else if not (eq_bytes (take 2 buffer) header)
    then ok (none, [], some 2)
    else do
      ciphertext_size ← unpack_u32 (slice 2 frame_header_size buffer)
      let frame_size = frame_header_size + ciphertext_size
      if ltb (length buffer) frame_size
          then ok (none, buffer, none)
          else ok (some (take frame_size buffer), drop frame_size buffer, none)

module _ (c : Crypto) where
  -- `cipher.encrypt` and `cipher.decrypt`, where the cipher may be None.
  unfoldable pub encrypt_with : Option Bytes → Bytes → Bytes → Result Bytes
  encrypt_with none nonce plaintext = err attribute_error
  encrypt_with (some key) nonce plaintext = elim (c.encrypt key nonce plaintext) [
    | none ↦ err overflow_error
    | some ct ↦ ok ct
  ]

  unfoldable pub decrypt_with : Option Bytes → Bytes → Bytes → Result (Option Bytes)
  decrypt_with none nonce ciphertext = err attribute_error
  decrypt_with (some key) nonce ciphertext = ok (c.decrypt key nonce ciphertext)

  -- The flag byte and the body: compressed where that is shorter.
  unfoldable pub packet_body : Bytes → Bytes
  packet_body payload =
      if ltb (length (c.compress payload)) (length payload)
      then 1 ∷ c.compress payload
      else 0 ∷ payload

  unfoldable pub construct_packet : Bytes → Option Bytes → ℕ → Result Bytes
  unfolding packet_body encrypt_with
  construct_packet payload cipher tx_nonce = if is_empty payload then err runtime_error else do
    checksum ← to_bytes_big 4 (c.crc32 payload)
    let plaintext = packet_body payload ++ (checksum ++ footer)
    nonce ← to_bytes_little 12 tx_nonce
    ciphertext ← encrypt_with cipher nonce plaintext
    size ← pack_u32 (length ciphertext)
    ok (header ++ (size ++ ciphertext))

-- The first result of `verify_packet`: the payload, or an error code.
pub data Verdict : Type 0 where
  accepted : Bytes → Verdict
  rejected : ℕ → Verdict

abbrev pub Verified : Type 0
Verified = Verdict × Option Bytes

abbrev reject : ℕ → Result Verified
reject code = ok (rejected code, none)

-- `b or None`
abbrev pub or_none : Bytes → Option Bytes
or_none b = if is_empty b then none else some b

module _ (c : Crypto) where
  -- The checksum over the payload decides between the payload and error 3.
  unfoldable pub verify_checksum : Bytes → Bytes → Option Bytes → Result Verified
  verify_checksum payload checksum remainder = do
    calculated ← to_bytes_big 4 (c.crc32 payload)
    if eq_bytes calculated checksum then ok (accepted payload, remainder) else reject 3

  -- The payload, decompressed if bit 0 of the flags says so; None where that fails.
  unfoldable pub payload_of : ℕ → Bytes → Option Bytes
  payload_of flags body =
      if not (bit_and flags 1 == 0) then c.decompress max_output_size body else some body

  unfoldable pub verify_body : Option Bytes → Bytes → Option Bytes → Result Verified
  unfolding verify_checksum
  verify_body none checksum remainder = reject 2
  verify_body (some payload) checksum remainder = verify_checksum payload checksum remainder

  -- The checks on the decrypted text, in the order of the source.
  unfoldable pub verify_plaintext : Bytes → Option Bytes → Result Verified
  unfolding payload_of verify_body
  verify_plaintext [] remainder = reject 2
  verify_plaintext (flags ∷ rest) remainder =
      let size = length (flags ∷ rest) in
      let body = slice 1 (size - 6) (flags ∷ rest) in
      if ltb size 8
      then reject 2
      else if not (eq_bytes (drop (size - 2) (flags ∷ rest)) footer)
      then reject 2
      else if is_empty body
      then reject 2
      else verify_body (payload_of flags body) (slice (size - 6) (size - 2) (flags ∷ rest))
          remainder

  unfoldable pub verify_decrypted : Option Bytes → Option Bytes → Result Verified
  unfolding verify_plaintext
  verify_decrypted none remainder = reject 3
  verify_decrypted (some plaintext) remainder = verify_plaintext plaintext remainder

  unfoldable pub verify_packet : Bytes → Option Bytes → ℕ → Result Verified
  unfolding decrypt_with verify_decrypted
  verify_packet packet cipher rx_nonce = do
    nonce ← to_bytes_little 12 rx_nonce
    if ltb (length packet) 6
        then reject 2
        else if not (eq_bytes (take 2 packet) header)
        then reject 2
        else do
          ciphertext_size ← unpack_u32 (slice 2 6 packet)
          if ltb (length packet) (6 + ciphertext_size) then reject 2 else do
            plaintext ← decrypt_with c cipher nonce (slice 6 (6 + ciphertext_size) packet)
            verify_decrypted plaintext (or_none (drop (6 + ciphertext_size) packet))

  -- `verify_packet` where the packet may be None, whose length is a TypeError.
  unfoldable pub verify_frame : Option Bytes → Option Bytes → ℕ → Result Verified
  unfolding verify_packet
  verify_frame none cipher rx_nonce = do nonce ← to_bytes_little 12 rx_nonce; err type_error
  verify_frame (some packet) cipher rx_nonce = verify_packet packet cipher rx_nonce
