-- ===== src/Tests.antt =====
-- Concrete inputs, and the theorems at them: a stand-in for the libraries that has their laws, and a
-- server with one session.
use pipebomb.Base.{
  Bytes, Str, ℕ, zero, suc, ◌+◌, ◌%◌, ◌≤◌, ◌<◌, List, [], ◌∷◌, ◌++◌, ◌≡◌, ◌≢◌, refl, sym, ap, ◌∙◌,
  Bool, true, false, Bool-cases, Option, none, some, ltb, leb, if◌then◌else◌, length, take, drop,
  take-append-drop, is_empty, eq_bytes, eq_bytes_iff, arith, inl, inr,
}
mod Packets
mod Sessions
mod Mapping
mod Archives
mod Meetings
mod Handshakes
mod Tasks
mod Disconnects
mod Mailboxes
mod Extension
use pipebomb.Server.State.{Client, Server, Runtime}
use pipebomb.Wire.Crypto.{Crypto, IsCrypto, max_plaintext, tag_size, max_output_size}

abbrev zeros : Bytes
zeros = 0 ∷ 0 ∷ 0 ∷ []

-- Three zero bytes at the front are left out.
unfoldable pub toy_compress : Bytes → Bytes
unfolding eq_bytes
toy_compress d = if eq_bytes (take 3 d) zeros then 0 ∷ drop 3 d else 1 ∷ d

unfoldable pub toy_decompress : ℕ → Bytes → Option Bytes
toy_decompress limit [] = none
toy_decompress limit (zero ∷ d) = some (zeros ++ d)
toy_decompress limit (suc n ∷ d) = some d

abbrev tag : Bytes
tag = 0 ∷ 0 ∷ 0 ∷ 0 ∷ 0 ∷ 0 ∷ 0 ∷ 0 ∷ 0 ∷ 0 ∷ 0 ∷ 0 ∷ 0 ∷ 0 ∷ 0 ∷ 0 ∷ []

unfoldable pub toy_encrypt : Bytes → Bytes → Bytes → Option Bytes
toy_encrypt k n p = if leb (length p) max_plaintext then some (tag ++ p) else none

unfoldable pub toy_decrypt : Bytes → Bytes → Bytes → Option Bytes
toy_decrypt k n ct = if ltb (length ct) tag_size then none else some (drop tag_size ct)

unfoldable pub toy_crc32 : Bytes → ℕ
toy_crc32 d = length d % 4294967296

abbrev pub toy : Crypto
toy = record {
  crc32 = toy_crc32;
  compress = toy_compress;
  decompress = toy_decompress;
  encrypt = toy_encrypt;
  decrypt = toy_decrypt;
}

pub toy-IsCrypto : IsCrypto toy
unfolding toy_crc32 toy_compress toy_decompress toy_encrypt toy_decrypt
toy-IsCrypto = record {
  crc32-lt = λ d. omega arith;
  decompress-compress = λ d _. elim (Bool-cases (eq_bytes (take 3 d) zeros)) [
    | inl same ↦ rw same (
        ap some (
          ap (λ t. t ++ drop 3 d) (sym ((eq_bytes_iff (take 3 d) zeros).0 same))
          ∙ take-append-drop 3 d))
    | inr other ↦ rw other
  ];
  compress-ne-nil = λ d. ground arith;
  encrypt-fits = λ k n p _ short. ground arith;
  length-encrypt = λ k n p e. ground arith;
  encrypt-le-max = λ k n p e. ground arith;
  decrypt-encrypt = λ k n p e. ground arith;
}

abbrev pub copies : ℕ → ℕ → Bytes
copies zero b = []
copies (suc n) b = b ∷ copies n b

abbrev pub runtime : Runtime
runtime = record {
  crypto = toy;
  json_dumps = λ table. 123 ∷ 125 ∷ [];
  uuid4_bytes = λ n. copies 16 n;
  uuid4_str = λ n. copies 36 n;
}

-- The UUIDs of 36 times "a" and "b".
abbrev pub uuid_a : Str
uuid_a = copies 36 97

abbrev pub uuid_b : Str
uuid_b = copies 36 98

abbrev pub session_key : Bytes
session_key = copies 32 7

-- A session that owns the given addresses.
abbrev pub session : Str → List Str → Client
session uuid owned = record {
  socket = 5;
  address = [];
  addresses_owned = owned;
  inbox = [];
  outbox = [];
  uuid = uuid;
  cipher = some session_key;
  rx_nonce = 2;
  tx_nonce = 2;
  active = true;
}

-- A server with the session of `uuid_a` alone, its addresses in the book.
abbrev pub server : List Str → List (Bytes × Str) → Server
server owned book = record {
  db = [];
  client_db = (uuid_a, session uuid_a owned) ∷ [];
  address_book = book;
  password = 112 ∷ [];
  keep_dead_sessions = false;
  sent = [];
  closed = [];
  drawn = 0;
}
