-- ===== src/Server/Requests.antt =====
-- `handle_client` of pipebomb/server.py: the commands with bit 7 set, which read and write the
-- tables of the server. `sock` and `uuid` are the session's; `value` is the packet behind the
-- command byte. `continue` at the end of a command is the result `served`.
use pipebomb.Base.{
  Bytes, Str, ℕ, List, [], ◌∷◌, ◌++◌, Bool, false, ◌||◌, not, ◌==◌, if◌then◌else◌, Option, none,
  some, eq_bytes,
}
use pipebomb.Base.Result.{key_error}
use pipebomb.Base.Dict.{lookup, contains, insert, erase}
use pipebomb.Wire.Packet.{ack}
use pipebomb.Server.State.{Runtime}
use pipebomb.Server.Fields.{set_fields}
use pipebomb.Server.Monad.{
  Exec, pure, lift, gets, or_raise, modify, ◌>>=◌, ◌>>◌, encode_latin1, client_at, put_client,
  reply, reply_error,
}

-- How a command ends: the session goes on, ends with a goodbye, or waits for an inbox.
pub data Outcome : Type 0 where
  served goodbye waiting : Outcome

-- `xs.remove(x)` where `x in xs`; nothing changes where it is not.
unfoldable pub remove_first : Str → List Str → List Str
remove_first a [] = []
remove_first a (x ∷ xs) = if eq_bytes x a then xs else x ∷ remove_first a xs

-- `a in xs`
unfoldable pub elem : Str → List Str → Bool
elem a [] = false
elem a (x ∷ xs) = eq_bytes x a || elem a xs

-- `self.db[key] = value`, `self.address_book[key] = uuid`
abbrev pub put_db : Bytes → Bytes → Exec (Unit {0})
put_db key value = modify (λ s. record s { db = insert key value s.db })

abbrev pub put_address : Str → Str → Exec (Unit {0})
put_address key uuid = modify (λ s. record s { address_book = insert key uuid s.address_book })

-- `self.address_book.pop(key)`
unfoldable pub pop_address : Str → Exec (Unit {0})
unfolding ◌>>=◌
pop_address key = do
  owner ← gets (λ s. lookup key s.address_book)
  or_raise owner key_error
  modify (λ s. record s { address_book = erase key s.address_book })

module _ (rt : Runtime) (sock : ℕ) (uuid : Str) where
  unfoldable pub handle_set : Bytes → Exec Outcome
  unfolding ◌>>=◌
  handle_set value = do
    (key, stored) ← lift (set_fields value)
    put_db key stored
    reply rt sock uuid ack
    pure served

  -- The value that was found, or error 5.
  unfoldable pub reply_value : Option Bytes → Exec (Unit {0})
  reply_value (some value) = reply rt sock uuid value
  reply_value none = reply_error rt sock uuid 5

  unfoldable pub handle_get : Bytes → Exec Outcome
  unfolding ◌>>=◌ reply_value
  handle_get command = do found ← gets (λ s. lookup command s.db); reply_value found; pure served

  unfoldable pub handle_delete : Bytes → Exec Outcome
  unfolding ◌>>=◌
  handle_delete command = do
    found ← gets (λ s. contains command s.db)
    if found
        then (do modify (λ s. record s { db = erase command s.db }); reply rt sock uuid ack)
        else reply_error rt sock uuid 5
    pure served

  unfoldable pub handle_list : Exec Outcome
  unfolding ◌>>=◌
  handle_list = do table ← gets (λ s. s.db); reply rt sock uuid (rt.json_dumps table); pure served

  unfoldable pub handle_register : Bytes → Exec Outcome
  unfolding ◌>>=◌ client_at put_client
  handle_register value = do
    taken ← gets (λ s. contains value s.address_book)
    if taken then (do reply_error rt sock uuid 5; pure served) else (do
      client ← client_at uuid
      put_client uuid (record client { addresses_owned = client.addresses_owned ++ (value ∷ []) })
      put_address value uuid
      reply rt sock uuid ack
      pure served)

  unfoldable pub handle_unregister : Bytes → Exec Outcome
  unfolding ◌>>=◌ client_at put_client pop_address
  handle_unregister value = do
    client ← client_at uuid
    if not (elem value client.addresses_owned)
        then (do reply_error rt sock uuid 5; pure served)
        else (do
          put_client uuid
              (record client { addresses_owned = remove_first value client.addresses_owned })
          pop_address value
          reply rt sock uuid ack
          pure served)

  unfoldable pub handle_whoami : Exec Outcome
  unfolding ◌>>=◌
  handle_whoami = do payload ← lift (encode_latin1 uuid); reply rt sock uuid payload; pure served

  unfoldable pub handle_unknown : Exec Outcome
  unfolding ◌>>=◌
  handle_unknown = do reply_error rt sock uuid 4; pure served

  -- The dispatch on the low four bits of the command byte.
  unfoldable pub server_request : ℕ → Bytes → Exec Outcome
  server_request opcode value =
      if opcode == 1
      then handle_set value
      else if opcode == 2
      then handle_get value
      else if opcode == 3
      then handle_delete value
      else if opcode == 4
      then handle_list
      else if opcode == 5
      then handle_register value
      else if opcode == 6
      then handle_unregister value
      else if opcode == 7
      then handle_whoami
      else if opcode == 8
      then pure goodbye
      else handle_unknown
