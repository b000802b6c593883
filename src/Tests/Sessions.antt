-- ===== src/Tests/Sessions.antt =====
-- The theorems about sessions, tables and payloads at concrete inputs.
use pipebomb.Base.{
  Bytes, Str, ◌+◌, [], ◌∷◌, ◌≡◌, ◌≢◌, refl, none, some, eq_bytes, if◌then◌else◌, length, ltb, arith,
  ◌⊎◌,
}
use pipebomb.Base.Result.{ok, err, runtime_error, value_error}
use pipebomb.Base.Dict.{lookup, insert}
use pipebomb.Server.State.{Response, Server}
use pipebomb.Server.Requests.{elem}
use pipebomb.Server.Session.{dispatch, handle_client, clean_up, out_of_fuel}
use pipebomb.Server.Registry.{IsConsistent, registered, registered-IsConsistent}
use pipebomb.Server.Cleanup.{clean_up-stale}
use pipebomb.Server.Endings.{resumed, handle_client-ends}
use pipebomb.Server.KeyValue.{get_empty}
use pipebomb.Server.Admin.{add_key}
use pipebomb.Server.AdminLaws.{add_key-breaks}
use pipebomb.Client.Messages.{outbox_of}
use pipebomb.Client.Agreement.{read_outbox-agrees}
use pipebomb.Server.Fields.{pack_response}
use pipebomb.Tests.{runtime, uuid_a, uuid_b, session, server}

-- The addresses "x" and "y".
abbrev x : Str
x = 120 ∷ []

abbrev y : Str
y = 121 ∷ []

abbrev idle : Server
idle = server [] []

idle-IsConsistent : IsConsistent idle
unfolding lookup elem
idle-IsConsistent = record {
  books = tt;
  clients = (refl, tt);
  once = λ u. ground arith;
  agree = λ u a. ground arith;
}

-- With "x" registered, and with "y" too.
abbrev one : Server
one = registered uuid_a x (session uuid_a []) idle

one-IsConsistent : IsConsistent one
unfolding lookup eq_bytes
one-IsConsistent =
    registered-IsConsistent uuid_a x (session uuid_a []) idle refl idle-IsConsistent refl

abbrev two : Server
two = registered uuid_a y (session uuid_a (x ∷ [])) one

two-IsConsistent : IsConsistent two
unfolding lookup insert eq_bytes
two-IsConsistent =
    registered-IsConsistent uuid_a y (session uuid_a (x ∷ [])) one refl one-IsConsistent refl

clean_up-stale_example :
    let t = (clean_up runtime 5 uuid_a two).1 in
    (lookup uuid_a t.client_db ≡ none)
    × ((lookup x t.address_book ≡ some uuid_a) ⊎ (lookup y t.address_book ≡ some uuid_a))
unfolding lookup insert eq_bytes elem
clean_up-stale_example =
    clean_up-stale runtime 5 uuid_a two two-IsConsistent x y refl refl refl refl

handle_client-ends_example :
    (resumed runtime 5 uuid_a 3
      ((λ s. s) ∷ [])
      (handle_client runtime 5 uuid_a 3 ((1 ∷ 2 ∷ []) ∷ []) two)).0
    ≢ ok out_of_fuel
handle_client-ends_example =
    handle_client-ends runtime 5 uuid_a 3 ((1 ∷ 2 ∷ []) ∷ []) two ((λ s. s) ∷ []) (omega arith)

-- A server that keeps nothing under the key "x".
abbrev bare : Server
bare = record idle { db = (x, []) ∷ [] }

get_empty_example : dispatch runtime 5 uuid_a (0x82 ∷ x) bare ≡ (err runtime_error, bare)
unfolding lookup eq_bytes
get_empty_example = get_empty runtime 5 uuid_a x (session uuid_a []) bare refl refl

add_key-breaks_example :
    ((add_key y uuid_b one).0 ≡ err value_error)
    × (lookup y (add_key y uuid_b one).1.address_book ≡ some uuid_b)
    × ¬ IsConsistent (add_key y uuid_b one).1
unfolding lookup insert eq_bytes
add_key-breaks_example = add_key-breaks y uuid_b one refl refl refl

abbrev response : Response
response = record { key = x; response = []; response_uuid = uuid_b }

read_outbox-agrees_example :
    (res : Bytes) × (pack_response response ≡ ok res)
    × (outbox_of uuid_b res ≡ (
        if ltb 0 (length response.key + length response.response)
        then ok response
        else err runtime_error))
read_outbox-agrees_example = read_outbox-agrees response (omega arith) (omega arith)
