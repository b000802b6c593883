-- ===== src/Server/Admin.antt =====
-- The methods of `Server` in pipebomb/server.py that the program around it calls: sessions, keys and
-- the key-value table. The locks are left out: each method runs as one step.
use pipebomb.Base.{
  Bytes, Str, ℕ, List, [], ◌∷◌, ◌++◌, map, Bool, true, false, not, ◌&&◌, ◌==◌, if◌then◌else◌,
  Option, none, some, length, eq_bytes,
}
use pipebomb.Base.Result.{ok, err, value_error, key_error}
use pipebomb.Base.Dict.{Dict, lookup, contains, insert, erase}
use pipebomb.Server.State.{Request, Response, Client}
use pipebomb.Server.Monad.{
  Exec, pure, raise, gets, or_raise, modify, ◌>>=◌, ◌>>◌, client_at, put_client, close_socket,
}
use pipebomb.Server.Requests.{elem, remove_first, put_address}

pub record NewClientTicket : Type 0 where
  pub uuid : Str
  pub addresses_owned : List Str
  pub inbox : List Request
  pub outbox : Dict Response

-- `if c: raise ValueError`
abbrev pub value_error_if : Bool → Exec (Unit {0})
value_error_if true = raise value_error
value_error_if false = pure tt

abbrev pub require_uuid : Str → Exec (Unit {0})
require_uuid uuid = value_error_if (not (length uuid == 36))

abbrev pub require_client : Str → Exec (Unit {0})
require_client uuid s = value_error_if (not (contains uuid s.client_db)) s

-- The ticket's outbox files each response under its own UUID.
unfoldable pub outbox_matches : Dict Response → Bool
outbox_matches [] = true
outbox_matches ((uuid, response) ∷ outbox) =
    eq_bytes uuid response.response_uuid && outbox_matches outbox

-- The text "unknown", for the address ("unknown", 0), and the number of a socket that is not open.
abbrev pub unknown_address : Str
unknown_address = 117 ∷ 110 ∷ 107 ∷ 110 ∷ 111 ∷ 119 ∷ 110 ∷ []

abbrev pub no_socket : ℕ
no_socket = 0

-- A session that no peer is connected to.
abbrev pub preset_client : NewClientTicket → Client
preset_client ticket = record {
  socket = no_socket;
  address = unknown_address;
  addresses_owned = ticket.addresses_owned;
  inbox = ticket.inbox;
  outbox = ticket.outbox;
  uuid = ticket.uuid;
  cipher = none;
  rx_nonce = 0;
  tx_nonce = 0;
  active = false;
}

unfoldable pub add_client : NewClientTicket → Exec (Unit {0})
unfolding ◌>>=◌ put_client outbox_matches
add_client ticket = do
  require_uuid ticket.uuid
  known ← gets (λ s. contains ticket.uuid s.client_db)
  value_error_if known
  value_error_if (not (outbox_matches ticket.outbox))
  put_client ticket.uuid (preset_client ticket)

-- The copy that is handed out has no cipher, socket or nonces.
unfoldable pub get_client : Str → Exec Client
unfolding ◌>>=◌ client_at
get_client uuid = do
  require_uuid uuid
  require_client uuid
  client ← client_at uuid
  pure (record client { cipher = none; socket = no_socket; tx_nonce = 0; rx_nonce = 0 })

unfoldable pub check_client : Str → Exec Bool
unfolding ◌>>=◌
check_client uuid = do require_uuid uuid; gets (λ s. contains uuid s.client_db)

-- `del self.address_book[key]`
unfoldable pub delete_address : Str → Exec (Unit {0})
delete_address key s =
    if contains key s.address_book
    then (ok tt, record s { address_book = erase key s.address_book })
    else (err key_error, s)

-- `for key in addresses: del self.address_book[key]`
unfoldable pub delete_addresses : List Str → Exec (Unit {0})
unfolding ◌>>=◌ delete_address
delete_addresses [] = pure tt
delete_addresses (key ∷ keys) = do delete_address key; delete_addresses keys

-- `del self.client_db[uuid]`, which is there.
abbrev pub delete_client : Str → Exec (Unit {0})
delete_client uuid = modify (λ s. record s { client_db = erase uuid s.client_db })

unfoldable pub remove_client : Str → Exec (Unit {0})
unfolding ◌>>=◌ client_at close_socket delete_addresses
remove_client uuid = do
  require_uuid uuid
  require_client uuid
  client ← client_at uuid
  close_socket client.socket
  delete_addresses client.addresses_owned
  delete_client uuid

-- The keys of a ticket that the book lacks: an error, or an entry for the session.
unfoldable pub apply_keys : Str → Bool → List Str → Exec (Unit {0})
unfolding ◌>>=◌
apply_keys uuid strict [] = pure tt
apply_keys uuid strict (key ∷ keys) = do
  known ← gets (λ s. contains key s.address_book)
  if known then pure tt else (if strict then raise value_error else put_address key uuid)
  apply_keys uuid strict keys

unfoldable pub apply_client_state : NewClientTicket → Bool → Exec (Unit {0})
unfolding ◌>>=◌ client_at put_client apply_keys
apply_client_state ticket strict = do
  require_uuid ticket.uuid
  require_client ticket.uuid
  client ← client_at ticket.uuid
  let filled : Client = record client { inbox = ticket.inbox; outbox = ticket.outbox }
  put_client ticket.uuid filled
  apply_keys ticket.uuid strict ticket.addresses_owned
  put_client ticket.uuid (record filled { addresses_owned = ticket.addresses_owned })

-- `self.client_db[uuid]`, with its KeyError turned into a ValueError.
abbrev client_or_value_error : Str → Exec Client
client_or_value_error uuid s = or_raise (lookup uuid s.client_db) value_error s

unfoldable pub add_key : Str → Str → Exec (Unit {0})
unfolding ◌>>=◌ put_client
add_key key uuid = do
  require_uuid uuid
  known ← gets (λ s. contains key s.address_book)
  value_error_if known
  put_address key uuid
  client ← client_or_value_error uuid
  put_client uuid (record client { addresses_owned = client.addresses_owned ++ (key ∷ []) })

unfoldable pub get_key : Str → Exec Str
unfolding ◌>>=◌
get_key key = do found ← gets (λ s. lookup key s.address_book); or_raise found value_error

abbrev owned_by_uuid : Option Str → Str → Bool
owned_by_uuid none uuid = false
owned_by_uuid (some owner) uuid = eq_bytes owner uuid

unfoldable pub check_key : Str → Str → Exec Bool
unfolding ◌>>=◌
check_key key uuid = do
  require_uuid uuid
  gets (λ s. owned_by_uuid (lookup key s.address_book) uuid)

unfoldable pub remove_key : Str → Str → Exec (Unit {0})
unfolding ◌>>=◌ put_client
remove_key key uuid = do
  require_uuid uuid
  known ← gets (λ s. contains key s.address_book)
  value_error_if (not known)
  modify (λ s. record s { address_book = erase key s.address_book })
  client ← client_or_value_error uuid
  value_error_if (not (elem key client.addresses_owned))
  put_client uuid (record client { addresses_owned = remove_first key client.addresses_owned })

unfoldable pub set_db : Bytes → Bytes → Exec (Unit {0})
set_db key value = modify (λ s. record s { db = insert key value s.db })

unfoldable pub get_db : Bytes → Exec Bytes
unfolding ◌>>=◌
get_db key = do found ← gets (λ s. lookup key s.db); or_raise found key_error

unfoldable pub remove_db : Bytes → Exec (Unit {0})
unfolding ◌>>=◌
remove_db key = do
  found ← gets (λ s. lookup key s.db)
  or_raise found key_error
  modify (λ s. record s { db = erase key s.db })

unfoldable pub get_all_clients : Exec (List Str)
get_all_clients = gets (λ s. map (λ entry. entry.0) s.client_db)

unfoldable pub get_all_keys : Exec (List Str)
get_all_keys = gets (λ s. map (λ entry. entry.0) s.address_book)

unfoldable pub apply_state : Dict Bytes → Dict Client → Dict Str → Exec (Unit {0})
apply_state db client_db address_book =
    modify (λ s. record s { db = db; client_db = client_db; address_book = address_book })
