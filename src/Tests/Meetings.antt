-- ===== src/Tests/Meetings.antt =====
-- A key exchange, and three clients that meet a server: the inputs of the tests of a handshake.
use pipebomb.Base.{
  Bytes, ℕ, ◌+◌, [], ◌∷◌, ◌≡◌, refl, ap, append-nil, ◌<◌, none, some, Option, arith,
}
use pipebomb.Base.Result.{ok}
use pipebomb.Wire.Packet.{ack, construct_packet}
use pipebomb.Wire.Messages.{Carries, packet-ne-nil}
use pipebomb.Wire.Construct.{nonce_limit}
use pipebomb.Server.State.{Server}
use pipebomb.Client.Receive.{RawClient, new_raw_client}
use pipebomb.Handshake.Keys.{KeyExchange, IsKeyExchange}
use pipebomb.Handshake.Accept.{Incoming}
use pipebomb.Handshake.Connect.{login_payload}
use pipebomb.Handshake.Script.{Script, script_total}
use pipebomb.Handshake.Agreement.{shared_key, Meeting}
use pipebomb.Tests.{copies, runtime, toy, toy-IsCrypto, uuid_a, uuid_b, server}

-- A key exchange by addition.
abbrev pub first_byte : Bytes → ℕ
first_byte [] = 0
first_byte (b ∷ bs) = b

abbrev pub toy_exchange : KeyExchange
toy_exchange = record {
  public_key = λ k. copies 32 (first_byte k);
  exchange = λ k p. ok (copies 32 (first_byte k + first_byte p));
  derive = λ secret. secret;
}

pub toy_exchange-IsKeyExchange : IsKeyExchange toy_exchange
toy_exchange-IsKeyExchange = record {
  length-public_key = λ k. refl;
  exchange-total = λ k l. (copies 32 (first_byte k + first_byte l), refl);
  exchange_comm = λ k l. ap (λ n. ok (copies 32 n)) (omega arith);
}

abbrev pub server_private : Bytes
server_private = 3 ∷ []

abbrev pub client_private : Bytes
client_private = 4 ∷ []

abbrev pub key : Bytes
key = shared_key toy_exchange toy_exchange-IsKeyExchange server_private client_private

-- The session of `uuid_a` is there, with no address.
abbrev pub lobby : Server
lobby = server [] []

-- A message in one chunk.
pub carried_whole :
    (payload packet : Bytes) (n : ℕ)
    → n < nonce_limit
    → construct_packet toy payload (some key) n ≡ ok packet
    → Carries (packet ∷ []) packet
carried_whole payload packet n small built =
    ((packet-ne-nil toy toy-IsCrypto payload key packet n small built, tt), append-nil packet)

module _ (relog_uuid : Option Bytes) (answer : Bytes)
    (script : Script toy key (112 ∷ []) (login_payload toy relog_uuid) answer) where
  -- Each message comes in one chunk.
  abbrev pub incoming : Incoming
  incoming = record {
    socket = 6;
    address = 49 ∷ [];
    private_key = server_private;
    chunks =
        toy_exchange.public_key client_private ∷ script.password_packet ∷ script.login_packet ∷ [];
  }

  abbrev pub meeting :
      Meeting runtime toy_exchange toy_exchange-IsKeyExchange incoming lobby client_private
        relog_uuid answer
  meeting = record {
    key = key;
    is_shared = refl;
    script = script;
    rest = [];
    heard = record {
      key_chunks = toy_exchange.public_key client_private ∷ [];
      first_chunks = script.password_packet ∷ [];
      second_chunks = script.login_packet ∷ [];
      in_order = refl;
      key_carried = ((refl, tt), refl);
      first_carried =
          carried_whole (0 ∷ 112 ∷ []) script.password_packet 0 (omega arith) script.password_built;
      second_carried =
          carried_whole (login_payload toy relog_uuid) script.login_packet 1 (omega arith)
            script.login_built;
    };
    chunks = toy_exchange.public_key server_private ∷ script.ack_packet ∷ script.answer_packet ∷ [];
    unread = [];
    answered = record {
      key_chunks = toy_exchange.public_key server_private ∷ [];
      first_chunks = script.ack_packet ∷ [];
      second_chunks = script.answer_packet ∷ [];
      in_order = refl;
      key_carried = ((refl, tt), refl);
      first_carried = carried_whole ack script.ack_packet 0 (omega arith) script.ack_built;
      second_carried =
          carried_whole answer script.answer_packet 1 (omega arith) script.answer_built;
    };
  }

abbrev pub raw : RawClient
raw = new_raw_client

-- A first login, one under the UUID of the session, and one under another.
abbrev pub first : Script toy key (112 ∷ []) (login_payload toy none) ack
first =
    script_total toy toy-IsCrypto key (112 ∷ []) (login_payload toy none) ack (omega arith) refl
      (omega arith) refl (omega arith)

abbrev pub again : Script toy key (112 ∷ []) (login_payload toy (some uuid_a)) ack
again =
    script_total toy toy-IsCrypto key (112 ∷ []) (login_payload toy (some uuid_a)) ack (omega arith)
      refl (omega arith) refl (omega arith)

abbrev pub error_7 : Bytes
error_7 = 0 ∷ 69 ∷ 82 ∷ 82 ∷ 7 ∷ []

abbrev pub stranger : Script toy key (112 ∷ []) (login_payload toy (some uuid_b)) error_7
stranger =
    script_total toy toy-IsCrypto key (112 ∷ []) (login_payload toy (some uuid_b)) error_7
      (omega arith) refl (omega arith) refl (omega arith)
