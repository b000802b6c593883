-- ===== src/Wire/Framing.antt =====
-- What `extract_packet_frame` of pipebomb/utils.py does with a buffer: a frame is found when all of
-- it has arrived, and the buffer is kept until then.
use pipebomb.Base.{
  Bytes, ℕ, zero, suc, ◌+◌, ◌≤◌, ◌<◌, [], ◌∷◌, ◌++◌, ◌≡◌, refl, ltb, Bool-cases, Option, none, some,
  length, take, drop, slice, length-append, length-take, length-drop, take-append-drop,
  take-append_left, drop-append_left, eq_bytes, eq_bytes_iff, arith, ◌≢◌, inl, inr,
}
use pipebomb.Base.Result.{ok}
use pipebomb.Wire.Struct.{be_digits, u32_limit, unpack_u32, word}
use pipebomb.Wire.Struct.Laws.{unpack_u32-packed}
use pipebomb.Wire.Packet.{header, frame_header_size, extract_packet_frame}

-- The frame that carries a ciphertext.
abbrev pub frame_of : Bytes → Bytes
frame_of ct = header ++ (be_digits 4 (length ct) ++ ct)

-- A whole frame at the front of the buffer is taken off, whatever follows it.
pub extract-frame_of :
    (ct rest : Bytes)
    → length ct < u32_limit
    → extract_packet_frame (frame_of ct ++ rest) ≡ ok (some (frame_of ct), rest, none)
unfolding extract_packet_frame be_digits slice eq_bytes
extract-frame_of ct rest h = ground (
  arith,
  unpack_u32-packed (length ct) h,
  length-append ct rest,
  take-append_left (6 + length ct) (frame_of ct) rest (omega arith),
  drop-append_left (6 + length ct) (frame_of ct) rest (omega arith),
)

-- While the frame is not whole, the buffer is kept and more is wanted.
pub extract_partial :
    (ct buffer more : Bytes)
    → length ct < u32_limit
    → buffer ++ more ≡ frame_of ct
    → length buffer < length (frame_of ct)
    → extract_packet_frame buffer ≡ ok (none, buffer, none)
unfolding extract_packet_frame be_digits slice eq_bytes
extract_partial ct (a ∷ b ∷ c ∷ d ∷ e ∷ f ∷ rest) more h split short =
    ground (arith, unpack_u32-packed (length ct) h)
extract_partial ct buffer more h split short = ground arith

-- The size field of a buffer that holds one.
abbrev pub size_field : Bytes → ℕ
size_field buffer = word 0 (slice 2 frame_header_size buffer)

-- What there is to find in a buffer: a whole frame and the bytes behind it, of the size that its size
-- field says; a frame that is not whole, so that all of the buffer is kept; or no frame.
pub data Extracted (buffer : Bytes) : Option Bytes × Bytes × Option ℕ → Type 0 where
  whole :
      (frame rest : Bytes)
      → frame ++ rest ≡ buffer
      → length frame ≡ frame_header_size + size_field buffer
      → take 2 frame ≡ header
      → Extracted buffer (some frame, rest, none)
  no_header : length buffer < frame_header_size → Extracted buffer (none, buffer, none)
  partial :
      take 2 buffer ≡ header
      → length buffer < frame_header_size + size_field buffer
      → Extracted buffer (none, buffer, none)
  bad_header :
      frame_header_size ≤ length buffer
      → take 2 buffer ≢ header
      → Extracted buffer (none, [], some 2)

unpack_u32-total : (b : Bytes) → length b ≡ 4 → unpack_u32 b ≡ ok (word 0 b)
unfolding unpack_u32
unpack_u32-total b h = ground arith

pub size_field-unpack :
    (buffer : Bytes)
    → frame_header_size ≤ length buffer
    → unpack_u32 (slice 2 frame_header_size buffer) ≡ ok (size_field buffer)
unfolding slice
size_field-unpack buffer h =
    unpack_u32-total _ (omega (arith, length-take 4 (drop 2 buffer), length-drop 2 buffer))

take-take-two : (n : ℕ) (buffer : Bytes) → 2 ≤ n → take 2 (take n buffer) ≡ take 2 buffer
take-take-two (suc (suc n)) (a ∷ b ∷ rest) h = refl
take-take-two (suc (suc n)) (a ∷ []) h = refl
take-take-two (suc (suc n)) [] h = refl
take-take-two (suc zero) buffer h = absurd (omega arith)
take-take-two zero buffer h = absurd (omega arith)

-- Whatever the buffer holds, `extract_packet_frame` returns: a frame of the size that the size field
-- says and a rest, which together are the buffer; no frame and the whole buffer, where the header or
-- the frame is not whole; or error 2, with the buffer dropped, where it does not begin with the header.
pub extract_total :
    (buffer : Bytes)
    → (r : Option Bytes × Bytes × Option ℕ) × (extract_packet_frame buffer ≡ ok r)
      × Extracted buffer r
unfolding extract_packet_frame
extract_total buffer = elim (Bool-cases (ltb (length buffer) frame_header_size)) [
  | inl short ↦ ((none, buffer, none), rw short, no_header (ground arith))
  | inr long ↦ elim (Bool-cases (eq_bytes (take 2 buffer) header)) [
    | inr other ↦ (
      (none, [], some 2),
      rw (long, other),
      bad_header (ground arith) (ground (arith, eq_bytes_iff (take 2 buffer) header)),
    )
    | inl same ↦
        let size = size_field buffer in
        let unpacked = size_field-unpack buffer (ground arith) in
        elim (Bool-cases (ltb (length buffer) (frame_header_size + size))) [
          | inl short ↦ (
            (none, buffer, none),
            rw (long, same, unpacked, short),
            partial ((eq_bytes_iff _ _).0 same) (ground arith),
          )
          | inr enough ↦ (
            (
              some (take (frame_header_size + size) buffer),
              drop (frame_header_size + size) buffer,
              none,
            ),
            rw (long, same, unpacked, enough),
            whole _ _ (take-append-drop (frame_header_size + size) buffer)
                (ground (arith, length-take (frame_header_size + size) buffer))
                (rw (take-take-two (frame_header_size + size) buffer (omega arith))
                  ((eq_bytes_iff _ _).0 same)),
          )
        ]
  ]
]
