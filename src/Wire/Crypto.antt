-- ===== src/Wire/Crypto.antt =====
-- The third-party code that the packets go through, as parameters: `zlib.crc32`, zstandard's
-- compressor and decompressor, and ChaCha20Poly1305 of the cryptography package. A cipher object
-- is represented by the 32-byte session key that it was built from.
use pipebomb.Base.{Bytes, ℕ, ◌+◌, ◌≤◌, ◌<◌, ◌≡◌, ◌≢◌, Option, none, some, length, is_empty, false}

pub record Crypto : Type 0 where
  pub crc32 : Bytes → ℕ
  -- `compress(data)`, and `decompress(body, max_output_size=n)`, `none` where it raises.
  pub compress : Bytes → Bytes
  pub decompress : ℕ → Bytes → Option Bytes
  -- `encrypt(nonce, data, None)`, `none` where the data is too long (OverflowError), and
  -- `decrypt(nonce, data, None)`, `none` where it raises InvalidTag. First argument: the key.
  pub encrypt : Bytes → Bytes → Bytes → Option Bytes
  pub decrypt : Bytes → Bytes → Bytes → Option Bytes

-- The longest plaintext that `encrypt` takes, and the tag that it appends.
abbrev pub max_plaintext : ℕ
max_plaintext = 2147483647

abbrev pub tag_size : ℕ
tag_size = 16

-- The largest output that the packets' decompressor is allowed.
abbrev pub max_output_size : ℕ
max_output_size = 4294967295

-- What the documentation of these libraries promises of a 12-byte nonce and of every input.
pub record IsCrypto (c : Crypto) : Type 0 where
  pub crc32-lt : (d : Bytes) → c.crc32 d < 4294967296
  pub decompress-compress :
      (d : Bytes)
      → length d ≤ max_output_size
      → c.decompress max_output_size (c.compress d) ≡ some d
  -- A zstandard frame begins with a magic number, so it is never empty.
  pub compress-ne-nil : (d : Bytes) → is_empty (c.compress d) ≡ false
  pub encrypt-fits :
      (k n p : Bytes) → length n ≡ 12 → length p ≤ max_plaintext → c.encrypt k n p ≢ none
  pub length-encrypt :
      (k n p : Bytes) {ct : Bytes} → c.encrypt k n p ≡ some ct → length ct ≡ length p + tag_size
  pub encrypt-le-max :
      (k n p : Bytes) {ct : Bytes} → c.encrypt k n p ≡ some ct → length p ≤ max_plaintext
  pub decrypt-encrypt :
      (k n p : Bytes) {ct : Bytes} → c.encrypt k n p ≡ some ct → c.decrypt k n ct ≡ some p
