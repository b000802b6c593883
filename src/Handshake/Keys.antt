-- ===== src/Handshake/Keys.antt =====
-- The key exchange of the cryptography package, as a parameter: X25519 and HKDF.
use pipebomb.Base.{Bytes, ◌≡◌, length}
use pipebomb.Base.Result.{Result, ok}

-- `private_key.public_key()`, as its 32 raw bytes; `private_key.exchange(public_key)`, which raises on
-- a degenerate point; and `HKDF(…).derive(secret)`. A private key is its bytes.
pub record KeyExchange : Type 0 where
  pub public_key : Bytes → Bytes
  pub exchange : Bytes → Bytes → Result Bytes
  pub derive : Bytes → Bytes

-- What the documentation promises of keys that were generated: raw public keys have 32 bytes, and
-- both sides come to the same secret.
pub record IsKeyExchange (x : KeyExchange) : Type 0 where
  pub length-public_key : (k : Bytes) → length (x.public_key k) ≡ 32
  pub exchange-total :
      (k l : Bytes) → (secret : Bytes) × (x.exchange k (x.public_key l) ≡ ok secret)
  pub exchange_comm : (k l : Bytes) → x.exchange k (x.public_key l) ≡ x.exchange l (x.public_key k)
