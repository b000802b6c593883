-- ===== src/Server/Calm.antt =====
-- The commands of `handle_client` in pipebomb/server.py that leave the registered addresses alone:
-- all but REGISTER and UNREGISTER.
use pipebomb.Base.{
  Bytes, Str, ℕ, List, [], ◌∷◌, ◌++◌, ◌≡◌, refl, Bool, true, false, Option, none, some,
  if◌then◌else◌,
}
use pipebomb.Base.Result.{ok}
use pipebomb.Base.Dict.{lookup, insert, erase}
use pipebomb.Wire.Packet.{ack}
use pipebomb.Server.State.{Request, Response, Client, Server, Runtime}
use pipebomb.Server.Fields.{inbox_fields, outbox_fields, pack_request, pack_response}
use pipebomb.Server.Monad.{Exec, pure, lift, modify, ◌>>=◌, ◌>>◌, encode_latin1, reply}
use pipebomb.Server.Requests.{
  served, reply_value, handle_set, handle_get, handle_delete, handle_list, handle_whoami,
  handle_unknown,
}
use pipebomb.Server.Exchange.{
  draw, reply_owner, handle_whohas, handle_put_inbox, take_inbox, handle_get_inbox,
  handle_put_outbox, take_outbox, handle_get_outbox, client_request,
}
use pipebomb.Server.Addresses.{
  SameAddresses, SameAddresses-refl, IsCalm, IsCalm-pure, IsCalm-lift, IsCalm-bind, bind-same,
  write_back-same, IsCalm-at, IsCalm-update, IsCalm-reply, IsCalm-reply_error, calm_rules,
}

pub IsCalm-if :
    {A : Type 0} (b : Bool) (m n : Exec A) → IsCalm m → IsCalm n → IsCalm (if b then m else n)
IsCalm-if true m n km kn = km
IsCalm-if false m n km kn = kn

-- A write to the key-value table.
pub IsCalm-db : (f : Server → List (Bytes × Bytes)) → IsCalm (modify (λ s. record s { db = f s }))
IsCalm-db f = record { at = λ s. record { book = refl; owned = λ uuid. refl; clients = λ h. h } }

IsCalm-draw : IsCalm draw
unfolding draw
IsCalm-draw = record { at = λ s. record { book = refl; owned = λ uuid. refl; clients = λ h. h } }

module _ (rt : Runtime) (sock : ℕ) (uuid : Str) where
  ruleset handler_rules =
      (calm_rules, IsCalm-reply, IsCalm-reply_error, IsCalm-if, IsCalm-db, IsCalm-draw)

  pub IsCalm-handle_set : (value : Bytes) → IsCalm (handle_set rt sock uuid value)
  unfolding handle_set
  IsCalm-handle_set value = search handler_rules

  IsCalm-reply_value : (o : Option Bytes) → IsCalm (reply_value rt sock uuid o)
  unfolding reply_value
  IsCalm-reply_value none = IsCalm-reply_error rt sock uuid 5
  IsCalm-reply_value (some value) = IsCalm-reply rt sock uuid value

  pub IsCalm-handle_get : (command : Bytes) → IsCalm (handle_get rt sock uuid command)
  unfolding handle_get
  IsCalm-handle_get command = search (handler_rules, IsCalm-reply_value)

  pub IsCalm-handle_delete : (command : Bytes) → IsCalm (handle_delete rt sock uuid command)
  unfolding handle_delete
  IsCalm-handle_delete command = search handler_rules depth 7

  pub IsCalm-handle_list : IsCalm (handle_list rt sock uuid)
  unfolding handle_list
  IsCalm-handle_list = search handler_rules

  pub IsCalm-handle_whoami : IsCalm (handle_whoami rt sock uuid)
  unfolding handle_whoami
  IsCalm-handle_whoami = search handler_rules

  pub IsCalm-handle_unknown : IsCalm (handle_unknown rt sock uuid)
  unfolding handle_unknown
  IsCalm-handle_unknown = search handler_rules

  IsCalm-reply_owner : (o : Option Str) → IsCalm (reply_owner rt sock uuid o)
  unfolding reply_owner
  IsCalm-reply_owner none = IsCalm-reply_error rt sock uuid 5
  IsCalm-reply_owner (some owner) = search handler_rules

  pub IsCalm-handle_whohas : (command : Bytes) → IsCalm (handle_whohas rt sock uuid command)
  unfolding handle_whohas
  IsCalm-handle_whohas command = search (handler_rules, IsCalm-reply_owner)

  -- What follows a change of a session: one reply.
  pub IsCalm-serve : (payload : Bytes) → IsCalm (reply rt sock uuid payload >> pure served)
  IsCalm-serve payload = search handler_rules

  abbrev post : Bytes × Bytes × Bytes → ℕ → Client → Bytes → Client
  post (target, request, key) n receiver return_uuid =
      let item : Request = record {
        return_uuid = return_uuid;
        key = key;
        request = request;
        request_uuid = rt.uuid4_bytes n;
      } in
      record receiver { inbox = receiver.inbox ++ (item ∷ []) }

  pub IsCalm-handle_put_inbox : (value : Bytes) → IsCalm (handle_put_inbox rt sock uuid value)
  unfolding handle_put_inbox
  IsCalm-handle_put_inbox value =
      IsCalm-bind (lift (inbox_fields value)) _ (IsCalm-lift _) λ fields.
        IsCalm-bind draw _ IsCalm-draw λ n.
          IsCalm-update fields.0 (post fields n)
            (λ _ _. reply rt sock uuid (rt.uuid4_bytes n) >> pure served) (λ _ _. refl)
            (λ _ _. IsCalm-serve (rt.uuid4_bytes n)) (λ _. encode_latin1 uuid)

  abbrev answer : Bytes × Bytes × Bytes × Bytes → Client → Unit {0} → Client
  answer (target, res, key, req_uuid) receiver _ =
      let item : Response = record { key = key; response = res; response_uuid = req_uuid } in
      record receiver { outbox = insert req_uuid item receiver.outbox }

  pub IsCalm-handle_put_outbox : (value : Bytes) → IsCalm (handle_put_outbox rt sock uuid value)
  unfolding handle_put_outbox
  IsCalm-handle_put_outbox value =
      IsCalm-bind (lift (outbox_fields value)) _ (IsCalm-lift _) λ fields.
        IsCalm-update fields.0 (answer fields) (λ _ _. reply rt sock uuid ack >> pure served)
          (λ _ _. refl) (λ _ _. IsCalm-serve ack) (λ _. ok tt)

  take_inbox-same :
      (client : Client) (inbox : List Request) (s : Server)
      → lookup uuid s.client_db ≡ some client
      → SameAddresses s (take_inbox rt sock uuid client inbox s).1
  unfolding take_inbox
  take_inbox-same client [] s found = SameAddresses-refl s
  take_inbox-same client (request ∷ inbox) s found =
      write_back-same uuid (λ client (_ : Unit {0}). record client { inbox = inbox })
        (λ _ _.
          lift (pack_request request) >>= λ payload. (reply rt sock uuid payload >> pure served))
        (λ _ _. refl) (λ _ _. IsCalm-bind _ _ (IsCalm-lift (pack_request request)) IsCalm-serve)
        (ok tt) client s found

  pub IsCalm-handle_get_inbox : IsCalm (handle_get_inbox rt sock uuid)
  unfolding handle_get_inbox
  IsCalm-handle_get_inbox =
      IsCalm-at uuid _ (λ client s found. take_inbox-same client client.inbox s found)

  take_outbox-same :
      (req_uuid : Bytes) (client : Client) (o : Option Response) (s : Server)
      → lookup uuid s.client_db ≡ some client
      → SameAddresses s (take_outbox rt sock uuid req_uuid client o s).1
  unfolding take_outbox
  take_outbox-same req_uuid client none s found = (IsCalm-reply_error rt sock uuid 7).at s
  take_outbox-same req_uuid client (some response) s found =
      write_back-same uuid
        (λ client (_ : Unit {0}). record client { outbox = erase req_uuid client.outbox })
        (λ _ _. lift (pack_response response) >>= reply rt sock uuid) (λ _ _. refl)
        (λ _ _. IsCalm-bind _ _ (IsCalm-lift (pack_response response)) (IsCalm-reply rt sock uuid))
        (ok tt) client s found

  pub IsCalm-handle_get_outbox :
      (req_uuid : Bytes) → IsCalm (handle_get_outbox rt sock uuid req_uuid)
  unfolding handle_get_outbox
  IsCalm-handle_get_outbox req_uuid = IsCalm-at uuid _ λ client s found.
      bind-same (take_outbox rt sock uuid req_uuid client (lookup req_uuid client.outbox)) _ s
        (take_outbox-same req_uuid client (lookup req_uuid client.outbox) s found)
        (λ _. IsCalm-pure served)

  -- No command between clients, whether it returns or raises, changes the address book or who owns
  -- which address.
  pub IsCalm-client_request :
      (opcode : ℕ) (value : Bytes) → IsCalm (client_request rt sock uuid opcode value)
  unfolding client_request
  IsCalm-client_request opcode value =
      search
        (
          IsCalm-if, IsCalm-handle_whohas, IsCalm-handle_put_inbox, IsCalm-handle_get_inbox,
          IsCalm-handle_put_outbox, IsCalm-handle_get_outbox, IsCalm-handle_unknown,
        )
        depth 8
