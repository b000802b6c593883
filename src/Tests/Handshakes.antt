-- ===== src/Tests/Handshakes.antt =====
-- The theorems about connections that come in, at concrete inputs.
use pipebomb.Base.{[], ◌∷◌, ◌≡◌, refl, true, false, eq_bytes, none, some, arith}
use pipebomb.Base.Result.{ok}
use pipebomb.Base.Dict.{lookup, insert}
use pipebomb.Wire.Packet.{ack}
use pipebomb.Wire.Errors.{err_dispatch}
use pipebomb.Server.State.{Server}
use pipebomb.Server.Requests.{elem}
use pipebomb.Server.Session.{handle_frame}
use pipebomb.Server.Admin.{add_key}
use pipebomb.Server.Registry.{IsConsistent}
use pipebomb.Handshake.Accept.{accept, logged_in}
use pipebomb.Handshake.Agreement.{
  IsFresh, dialled, Joined, first_login-Joined, relog_unknown-Joined,
}
use pipebomb.Handshake.Admitted.{Authenticated, accept-Authenticated}
use pipebomb.Conversation.KeyValue.{SetThenGet}
use pipebomb.Conversation.Login.{login-set-get}
use pipebomb.System.{Step, connects, receives, adds, here, next, Reach-IsConsistent}
use pipebomb.Tests.{copies, runtime, toy-IsCrypto, uuid_a, uuid_b, session}
use pipebomb.Tests.Meetings.{
  toy_exchange, client_private, key, lobby, incoming, meeting, raw, first, error_7, stranger,
  toy_exchange-IsKeyExchange,
}

first_login-Joined_example :
    Joined runtime toy_exchange toy_exchange-IsKeyExchange
      (incoming none ack first)
      lobby
      client_private
      raw
      none
      (meeting none ack first)
      (copies 36 0)
      true
unfolding IsFresh
first_login-Joined_example =
    first_login-Joined runtime toy-IsCrypto toy_exchange toy_exchange-IsKeyExchange
      (incoming none ack first) lobby client_private raw (meeting none ack first) (refl, refl)
      (omega arith)

relog_unknown-Joined_example :
    Joined runtime toy_exchange toy_exchange-IsKeyExchange
      (incoming (some uuid_b) error_7 stranger)
      lobby
      client_private
      raw
      (some uuid_b)
      (meeting (some uuid_b) error_7 stranger)
      (runtime.uuid4_str 0)
      false
unfolding lookup eq_bytes err_dispatch IsFresh
relog_unknown-Joined_example =
    relog_unknown-Joined runtime toy-IsCrypto toy_exchange toy_exchange-IsKeyExchange
      (incoming (some uuid_b) error_7 stranger) lobby client_private raw uuid_b error_7
      (meeting (some uuid_b) error_7 stranger) refl refl (refl, refl) (omega arith) (omega arith)

-- The same login, for what follows from it.
logged :
    (accept runtime toy_exchange (incoming none ack first) lobby).0
    ≡ ok (logged_in (copies 36 0) [])
unfolding IsFresh
logged =
    (first_login-Joined runtime toy-IsCrypto toy_exchange toy_exchange-IsKeyExchange
      (incoming none ack first) lobby client_private raw (meeting none ack first) (refl, refl)
      (omega arith)).admission

accept-Authenticated_example : Authenticated runtime toy_exchange (incoming none ack first) lobby
accept-Authenticated_example =
    accept-Authenticated runtime toy_exchange (incoming none ack first) lobby logged

lobby-IsConsistent : IsConsistent lobby
unfolding lookup elem
lobby-IsConsistent = record {
  books = tt;
  clients = (refl, tt);
  once = λ u. ground arith;
  agree = λ u a. ground arith;
}

-- An address is added, a client logs in, and the session with the address ends.
abbrev added : Server
added = (add_key (120 ∷ []) uuid_a lobby).1

abbrev joined_by_first : Server
joined_by_first = (accept runtime toy_exchange (incoming none ack first) added).1

adds_x : Step runtime toy_exchange lobby added
unfolding lookup eq_bytes
adds_x = adds lobby (120 ∷ []) uuid_a (session uuid_a []) refl refl refl

then_connects : Step runtime toy_exchange added joined_by_first
unfolding lookup eq_bytes add_key insert
then_connects = connects added (incoming none ack first) refl

Reach-IsConsistent_example :
    IsConsistent (handle_frame runtime 5 uuid_a (some (0x91 ∷ [])) joined_by_first).1
Reach-IsConsistent_example =
    Reach-IsConsistent runtime toy_exchange
      (next (next (next here adds_x) then_connects)
        (receives joined_by_first 5 uuid_a (some (0x91 ∷ []))))
      lobby-IsConsistent

login-set-get_example :
    SetThenGet runtime toy-IsCrypto 6
      (copies 36 0)
      (120 ∷ [])
      (1 ∷ [])
      key
      (dialled runtime toy_exchange toy_exchange-IsKeyExchange
        (incoming none ack first)
        lobby
        client_private
        raw
        none
        (meeting none ack first)).1.raw
      (accept runtime toy_exchange (incoming none ack first) lobby).1
      0
unfolding eq_bytes IsFresh
login-set-get_example =
    login-set-get runtime toy-IsCrypto toy_exchange toy_exchange-IsKeyExchange
      (incoming none ack first) lobby client_private raw (meeting none ack first) (120 ∷ [])
      (1 ∷ []) refl (refl, refl) (omega arith) (omega arith) refl refl
