-- ===== src/Tests/Mailboxes.antt =====
-- The theorems about the mailboxes: two clients of one server, and one that comes in.
use pipebomb.Base.{Str, ℕ, [], ◌∷◌, ◌≡◌, refl, none, some, take, eq_bytes, false, arith}
use pipebomb.Base.Dict.{lookup}
use pipebomb.Server.State.{Server}
use pipebomb.Client.Receive.{RawClient, err_prefix}
use pipebomb.Conversation.Call.{Linked}
use pipebomb.Conversation.Mailbox.{Delivered, request-respond}
use pipebomb.Wire.Packet.{ack}
use pipebomb.Handshake.Accept.{accept}
use pipebomb.Handshake.Agreement.{IsFresh, dialled}
use pipebomb.Conversation.Joining.{join-respond}
use pipebomb.Tests.Meetings.{
  toy_exchange, toy_exchange-IsKeyExchange, incoming, meeting, first, lobby, key, client_private,
  raw,
}
use pipebomb.Tests.{copies, runtime, toy-IsCrypto, uuid_a, uuid_b, session, session_key, server}

-- A server with the sessions of `uuid_a` and `uuid_b`.
abbrev pair : Server
pair = record (server [] []) {
  client_db = (uuid_a, session uuid_a []) ∷ (uuid_b, session uuid_b []) ∷ [];
}

-- A client with the key and the nonces of either session.
abbrev peer : RawClient
peer = record {
  tasks = [];
  unfinished = 0;
  input_packets = [];
  tx_nonce = 2;
  rx_nonce = 2;
  cipher = some session_key;
}

filed_a : lookup uuid_a pair.client_db ≡ some (session uuid_a [])
unfolding lookup eq_bytes
filed_a = refl

filed_b : lookup uuid_b pair.client_db ≡ some (session uuid_b [])
unfolding lookup eq_bytes
filed_b = refl

abbrev linked :
    (s : Server) (uuid : Str)
    → lookup uuid s.client_db ≡ some (session uuid [])
    → Linked uuid session_key peer s 2
linked s uuid filed = record {
  session = session uuid [];
  filed = filed;
  in_step = record { client_key = refl; server_key = refl; to_server = refl; to_client = refl };
  idle = refl;
  may_send = omega arith;
  may_hear = omega arith;
}

request-respond_example :
    Delivered runtime toy-IsCrypto 5 5 uuid_a uuid_b session_key session_key peer peer pair 0 0
      (112 ∷ 105 ∷ [])
      (107 ∷ [])
      (51 ∷ [])
      []
unfolding eq_bytes
request-respond_example =
    request-respond runtime toy-IsCrypto 5 5 uuid_a uuid_b session_key session_key peer peer pair 0
      0 (112 ∷ 105 ∷ []) (107 ∷ []) (51 ∷ []) [] (linked pair uuid_a filed_a)
      (linked pair uuid_b filed_b) refl refl refl refl refl (omega arith) (omega arith)
      (omega arith)

in_lobby : lookup uuid_a lobby.client_db ≡ some (session uuid_a [])
unfolding lookup eq_bytes
in_lobby = refl

nobody : lookup (copies 36 0) lobby.client_db ≡ none
unfolding lookup eq_bytes
nobody = refl

-- The answer to a request has no "ERR" in front.
plain_number : (n : ℕ) → eq_bytes (take 3 (copies 16 n)) err_prefix ≡ false
unfolding eq_bytes
plain_number n = ground arith

join-respond_example :
    Delivered runtime toy-IsCrypto 5 6 uuid_a
      (copies 36 0)
      session_key
      key
      peer
      (dialled runtime toy_exchange toy_exchange-IsKeyExchange
        (incoming none ack first)
        lobby
        client_private
        raw
        none
        (meeting none ack first)).1.raw
      (accept runtime toy_exchange (incoming none ack first) lobby).1
      0
      0
      (112 ∷ 105 ∷ [])
      (107 ∷ [])
      (51 ∷ [])
      []
unfolding IsFresh
join-respond_example =
    join-respond runtime toy-IsCrypto toy_exchange toy_exchange-IsKeyExchange
      (incoming none ack first) lobby client_private raw (meeting none ack first) 5 uuid_a
      session_key peer (112 ∷ 105 ∷ []) (107 ∷ []) (51 ∷ []) [] (linked lobby uuid_a in_lobby) refl
      (refl, refl) (omega arith) nobody refl refl
      (plain_number (accept runtime toy_exchange (incoming none ack first) lobby).1.drawn)
      (omega arith) (omega arith) (omega arith)
