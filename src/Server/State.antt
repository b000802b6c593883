-- ===== src/Server/State.antt =====
-- The data of pipebomb/server.py: `Request` and `Response` (of pipebomb/utils.py), `Client`, `Server`.
use pipebomb.Base.{Bytes, Str, ℕ, List, Bool, Option}
use pipebomb.Base.Dict.{Dict}
use pipebomb.Wire.Crypto.{Crypto}

pub record Request : Type 0 where
  pub return_uuid : Bytes
  pub key : Bytes
  pub request : Bytes
  pub request_uuid : Bytes

pub record Response : Type 0 where
  pub key : Bytes
  pub response : Bytes
  pub response_uuid : Bytes

-- A session. A socket is its number; the queue of the inbox is the list of its items, the oldest
-- first; the cipher is its session key. `outbox_lock` is left out: a handler runs as one step.
pub record Client : Type 0 where
  pub socket : ℕ
  pub address : Str
  pub addresses_owned : List Str
  pub inbox : List Request
  pub outbox : Dict Response
  pub uuid : Str
  pub cipher : Option Bytes
  pub rx_nonce : ℕ
  pub tx_nonce : ℕ
  pub active : Bool

-- The tables of the server, and what it has done to its sockets: `sent` has the bytes of each
-- `sock_sendall`, the latest first, and `closed` the sockets that were closed. `drawn` counts the
-- calls of `uuid4`.
pub record Server : Type 0 where
  pub db : Dict Bytes
  pub client_db : Dict Client
  pub address_book : Dict Str
  pub password : Bytes
  pub keep_dead_sessions : Bool
  pub sent : List (ℕ × Bytes)
  pub closed : List ℕ
  pub drawn : ℕ

-- The libraries that the server calls: those of the packets, `json.dumps` of a dict of texts
-- (pure ASCII, so its latin-1 encoding is itself), and the n-th `uuid4()`, as bytes and as text.
pub record Runtime : Type 0 where
  pub crypto : Crypto
  pub json_dumps : Dict Str → Bytes
  pub uuid4_bytes : ℕ → Bytes
  pub uuid4_str : ℕ → Str
