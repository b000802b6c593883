-- ===== src/Archive/Clients.antt =====
-- All sessions, one behind the other: pipebomb/server.py, `serialize` and `deserialize`.
use pipebomb.Base.{
  Bytes, Str, List, [], ◌∷◌, ◌++◌, ◌≡◌, refl, sym, ap, ◌∙◌, none, map, All, All-append,
  append_assoc, append-nil, length-append, arith, inl, inr,
}
use pipebomb.Base.Result.{ok, err, value_error, key_error, came-through, Result-cases}
use pipebomb.Base.Dict.{Dict, lookup, IsDict}
use pipebomb.Base.Dict.Append.{IsDict-fresh, insert-append_fresh}
use pipebomb.Server.State.{Response, Client}
use pipebomb.Server.Admin.{preset_client}
use pipebomb.Archive.Read.{
  take_block, take_request, take_response, empty_client, add_addresses, add_requests, add_responses,
  load_field, load_fields,
}
use pipebomb.Archive.Write.{Field, client_fields, after_client, clients_fields}
use pipebomb.Archive.Layout.{IsField, field_of, load_all}
use pipebomb.Archive.Items.{
  responses_of, read_items-addresses, read_items-requests, read_items-responses,
}
use pipebomb.Archive.Restore.{loaded, load_all-step}
use pipebomb.Archive.Sessions.{
  addresses_of, inbox_items, outbox_items, client_list, ClientFits, drained, client_fields-eq-ok,
  change-last, file_responses-append,
}

-- A session as it comes back: with no peer, but with its addresses, inbox and outbox.
abbrev pub restored : Client → Client
restored c = preset_client (record {
  uuid = c.uuid;
  addresses_owned = c.addresses_owned;
  inbox = c.inbox;
  outbox = c.outbox;
})

-- The outbox files each response once, under its own UUID.
abbrev pub IsOutbox : Dict Response → Type 0
IsOutbox outbox = IsDict outbox × All (λ entry. entry.0 ≡ entry.1.response_uuid) outbox

module _ (db : Dict Bytes) (book : Dict Str) where
  load_client :
      (c : Client) (fields : List Field) (done : Dict Client)
      → ClientFits c
      → IsOutbox c.outbox
      → lookup c.uuid done ≡ none
      → load_all (client_list c ++ fields) (loaded db book done)
        ≡ load_all fields (loaded db book (done ++ ((c.uuid, restored c) ∷ [])))
  unfolding load_field
  load_client c fields done fits outbox fresh =
      let at : Client → Dict Client = λ d. done ++ ((c.uuid, d) ∷ []) in
      let c0 = empty_client c.uuid in
      let c1 = add_addresses c.addresses_owned c0 in
      let c2 = add_requests c.inbox c1 in
      let f1 = field_of 0x31 (c.uuid ++ addresses_of c) in
      let f2 = field_of 0x32 (c.uuid ++ inbox_items c) in
      let f3 = field_of 0x33 (c.uuid ++ outbox_items c) in
      load_all-step (field_of 0x30 c.uuid) (f1 ∷ f2 ∷ f3 ∷ fields) (loaded db book done)
        (ap (λ d. ok (loaded db book d)) (insert-append_fresh c.uuid c0 done fresh))
      ∙ load_all-step f1 (f2 ∷ f3 ∷ fields) (loaded db book (at c0)) (
          change-last db book done c.uuid take_block add_addresses (addresses_of c) c0
            (err value_error) fits.uuid_size fresh
            (read_items-addresses c.addresses_owned _ fits.addresses
              (omega (arith, length-append c.uuid (addresses_of c)))))
      ∙ load_all-step f2 (f3 ∷ fields) (loaded db book (at c1)) (
          change-last db book done c.uuid take_request add_requests (inbox_items c) c1
            (err key_error) fits.uuid_size fresh
            (read_items-requests c.inbox _ fits.requests
              (omega (arith, length-append c.uuid (inbox_items c)))))
      ∙ load_all-step f3 fields (loaded db book (at c2)) (
          change-last db book done c.uuid take_response add_responses (outbox_items c) c2
            (err key_error) fits.uuid_size fresh
            (read_items-responses (responses_of c.outbox) _ fits.responses
              (omega (arith, length-append c.uuid (outbox_items c)))))
      ∙ ap (λ o. load_all fields (loaded db book (at (record c2 { outbox = o }))))
          (file_responses-append c.outbox [] outbox.0 outbox.1)

-- The fields of all sessions.
abbrev pub clients_list : Dict Client → List Field
clients_list [] = []
clients_list ((key, c) ∷ clients) = client_list c ++ clients_list clients

abbrev pub drain_all : Dict Client → Dict Client
drain_all = map (λ entry. (entry.0, drained entry.1))

abbrev pub restore_all : Dict Client → Dict Client
restore_all = map (λ entry. (entry.0, restored entry.1))

-- Each session stands under its own UUID, and its outbox is one.
abbrev pub IsFiled : Dict Client → Type 0
IsFiled = All (λ entry. (entry.0 ≡ entry.1.uuid) × IsOutbox entry.1.outbox)

pub record PackedAll (clients : Dict Client) (fields : List Field) : Type 0 where
  pub listed : fields ≡ clients_list clients
  pub sized : All IsField fields
  pub fits : All (λ entry. ClientFits entry.1) clients
  pub left : (clients_fields clients).1 ≡ drain_all clients

pub clients_fields-eq-ok :
    (clients : Dict Client) {fields : List Field}
    → (clients_fields clients).0 ≡ ok fields
    → PackedAll clients fields
unfolding clients_fields
clients_fields-eq-ok [] h = record {
  listed = ground arith;
  sized = ground arith;
  fits = tt;
  left = refl;
}
clients_fields-eq-ok ((key, c) ∷ clients) h = elim (Result-cases (client_fields c).0) [
  | inl (e, raised) ↦ absurd (ground arith)
  | inr (fields, came) ↦
      let (others, e, h1) =
        came-through (clients_fields clients).0 (λ others. ok (fields ++ others))
          (ap (λ r. (after_client key (r, (client_fields c).1) clients (clients_fields clients)).0)
              (sym came)
            ∙ h) in
      let first = client_fields-eq-ok c came in
      let rest = clients_fields-eq-ok clients e in
      record {
        listed = ground arith;
        sized = ground (arith, All-append IsField fields others first.sized rest.sized);
        fits = (first.fits, rest.fits);
        left =
            ap (λ r. (after_client key (r, (client_fields c).1) clients (clients_fields clients)).1)
              came
            ∙ ap (λ d. (key, d) ∷ (clients_fields clients).1) first.left
            ∙ ap (λ d. (key, drained c) ∷ d) rest.left;
      }
]

pub load_clients :
    (db : Dict Bytes) (book : Dict Str) (clients done : Dict Client)
    → All (λ entry. ClientFits entry.1) clients
    → IsFiled clients
    → IsDict (done ++ restore_all clients)
    → load_all (clients_list clients) (loaded db book done)
      ≡ ok (loaded db book (done ++ restore_all clients))
load_clients db book [] done fits filed h = unfold load_fields in rw append-nil
load_clients db book ((key, c) ∷ clients) done fits filed h =
    let one = (key, restored c) ∷ [] in
    let front = append_assoc done one (restore_all clients) in
    let fresh = IsDict-fresh key (restored c) done (restore_all clients) h in
    load_client db book c (clients_list clients) done fits.0 filed.0.1
      (ap (λ k. lookup k done) (sym filed.0.0) ∙ fresh)
    ∙ ap (λ k. load_all (clients_list clients) (loaded db book (done ++ ((k, restored c) ∷ []))))
        (sym filed.0.0)
    ∙ load_clients db book clients (done ++ one) fits.1 filed.1 (rw front h)
    ∙ ap (λ d. ok (loaded db book d)) front

lookup-restore_all :
    (k : Bytes) (clients : Dict Client)
    → lookup k clients ≡ none
    → lookup k (restore_all clients) ≡ none
unfolding lookup
lookup-restore_all k [] h = refl
lookup-restore_all k ((key, c) ∷ clients) h = ground (arith, lookup-restore_all k clients)

pub restore_all-IsDict : (clients : Dict Client) → IsDict clients → IsDict (restore_all clients)
restore_all-IsDict [] h = tt
restore_all-IsDict ((key, c) ∷ clients) h =
    (lookup-restore_all key clients h.0, restore_all-IsDict clients h.1)
