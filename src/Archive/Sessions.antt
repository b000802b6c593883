-- ===== src/Archive/Sessions.antt =====
-- The four fields of a session, and their loading: pipebomb/server.py, `serialize` and `deserialize`.
use pipebomb.Base.{
  Bytes, Str, List, [], ◌∷◌, ◌++◌, ◌≡◌, refl, sym, ap, ◌∙◌, none, map, length, concat, take, All,
  append_assoc, append-nil, take-append_left, drop-append_left, arith, Bool-cases, inl, inr, ◌==◌,
}
use pipebomb.Base.Result.{Result, ok, came-through, Result-cases}
use pipebomb.Base.Dict.{Dict, lookup, insert, IsDict}
use pipebomb.Base.Dict.Append.{
  IsDict-fresh, insert-append_fresh, lookup-append_last, insert-append_last,
}
use pipebomb.Server.State.{Response, Client}
use pipebomb.Server.Monad.{encode_latin1}
use pipebomb.Archive.Read.{Loading, read_items, file_responses, change_client}
use pipebomb.Archive.Write.{
  Field, field, pack_addresses, drain, pack_responses, owned_fields, mail_fields, client_fields,
}
use pipebomb.Archive.Blocks.{block_of, Fits}
use pipebomb.Archive.Layout.{field_of, IsField, field-eq-ok}
use pipebomb.Archive.Items.{
  encode_latin1-eq-ok, pack_addresses-eq-ok, item_of, ItemFits, drain-eq-ok, response_of,
  ResponseFits, responses_of, pack_responses-eq-ok,
}
use pipebomb.Archive.Restore.{loaded}

-- What a session is packed as.
abbrev pub addresses_of : Client → Bytes
addresses_of c = concat (map block_of c.addresses_owned)

abbrev pub inbox_items : Client → Bytes
inbox_items c = concat (map item_of c.inbox)

abbrev pub outbox_items : Client → Bytes
outbox_items c = concat (map response_of (responses_of c.outbox))

abbrev pub client_list : Client → List Field
client_list c =
    field_of 0x30 c.uuid
    ∷ field_of 0x31 (c.uuid ++ addresses_of c)
    ∷ field_of 0x32 (c.uuid ++ inbox_items c)
    ∷ field_of 0x33 (c.uuid ++ outbox_items c)
    ∷ []

pub record ClientFits (c : Client) : Type 0 where
  pub uuid_size : length c.uuid ≡ 36
  pub addresses : All Fits c.addresses_owned
  pub requests : All ItemFits c.inbox
  pub responses : All ResponseFits (responses_of c.outbox)

-- The session whose inbox was taken.
abbrev pub drained : Client → Client
drained c = record c { inbox = [] }

-- What packing came through with.
pub record Packed (c : Client) (fields : List Field) : Type 0 where
  pub listed : fields ≡ client_list c
  pub sized : All IsField fields
  pub fits : ClientFits c
  pub left : (client_fields c).1 ≡ drained c

owned_fields-eq-ok :
    (c : Client) {uuid : Bytes} {named owned : Field}
    → owned_fields c ≡ ok (uuid, named, owned)
    → (length c.uuid ≡ 36)
      × (uuid ≡ c.uuid)
      × (named ≡ field_of 0x30 c.uuid)
      × (owned ≡ field_of 0x31 (c.uuid ++ addresses_of c))
      × All IsField (named ∷ owned ∷ [])
      × All Fits c.addresses_owned
unfolding owned_fields
owned_fields-eq-ok c h = elim (Bool-cases (length c.uuid == 36)) [
  | inr other ↦ absurd (ground arith)
  | inl sized ↦
      let chain = rw sized at h in
      let (id, ei, h1) = came-through (encode_latin1 c.uuid) _ chain in
      let (f, ef, h2) = came-through (field 0x30 id) _ h1 in
      let (packed, ep, h3) = came-through (pack_addresses c.addresses_owned) _ h2 in
      let (g, eg, h4) = came-through (field 0x31 (id ++ packed)) _ h3 in
      ground (
        arith,
        encode_latin1-eq-ok c.uuid ei,
        field-eq-ok 0x30 id ef,
        pack_addresses-eq-ok c.addresses_owned ep,
        field-eq-ok 0x31 (id ++ packed) eg,
      )
]

mail-Packed :
    (c : Client) {uuid : Bytes} {named owned : Field} {fields : List Field}
    → owned_fields c ≡ ok (uuid, named, owned)
    → (mail_fields (ok (uuid, named, owned)) c).0 ≡ ok fields
    → Packed c fields
unfolding client_fields
mail-Packed c {uuid} came h =
    let (items, ei, h1) = came-through (drain c.inbox).0 _ h in
    let (inbox, ex, h2) = came-through (field 0x32 (uuid ++ items)) _ h1 in
    let (responses, er, h3) = came-through (pack_responses c.outbox) _ h2 in
    let (outbox, eo, h4) = came-through (field 0x33 (uuid ++ responses)) _ h3 in
    let a = owned_fields-eq-ok c came in
    let b = drain-eq-ok c.inbox ei in
    let d = field-eq-ok 0x32 (uuid ++ items) ex in
    let e = pack_responses-eq-ok c.outbox er in
    let f = field-eq-ok 0x33 (uuid ++ responses) eo in
    record {
      listed = ground arith;
      sized = ground arith;
      fits = record { uuid_size = a.0; addresses = a.5; requests = b.1; responses = e.1 };
      left = ap (λ r. (mail_fields r c).1) came ∙ ap (λ i. record c { inbox = i }) b.2;
    }

pub client_fields-eq-ok :
    (c : Client) {fields : List Field} → (client_fields c).0 ≡ ok fields → Packed c fields
unfolding client_fields
client_fields-eq-ok c h = elim (Result-cases (owned_fields c)) [
  | inl (e, raised) ↦ absurd (ground arith)
  | inr ((uuid, named, owned), came) ↦ mail-Packed c came (rw came at h)
]

module _ (db : Dict Bytes) (book : Dict Str) (done : Dict Client) (uuid : Str) where
  -- The tables with that session behind the others.
  abbrev pub with_last : Client → Loading
  with_last c = loaded db book (done ++ ((uuid, c) ∷ []))

  pub change-last :
      {A : Type 0} (item : Bytes → Result (A × Bytes)) (change : List A → Client → Client)
      (packed : Bytes) (c : Client) (missing : Result Loading) {items : List A}
      → length uuid ≡ 36
      → lookup uuid done ≡ none
      → read_items item (length (uuid ++ packed)) packed ≡ ok items
      → change_client item change
          (uuid ++ packed)
          (with_last c)
          (lookup (take 36 (uuid ++ packed)) (done ++ ((uuid, c) ∷ [])))
          missing
        ≡ ok (with_last (change items c))
  change-last item change packed c missing {items} sized fresh found =
      rw (take-append_left 36 uuid packed (sym sized), lookup-append_last uuid c done fresh)
        (rw
          (take-append_left 36 uuid packed (sym sized), drop-append_left 36 uuid packed (sym sized))
          (rw (found, insert-append_last uuid c (change items c) done fresh) refl))

pub file_responses-append :
    (outbox done : Dict Response)
    → IsDict (done ++ outbox)
    → All (λ entry. entry.0 ≡ entry.1.response_uuid) outbox
    → file_responses (responses_of outbox) done ≡ done ++ outbox
unfolding file_responses
file_responses-append [] done h keyed = rw append-nil
file_responses-append ((uuid, r) ∷ outbox) done h keyed =
    let front = append_assoc done ((uuid, r) ∷ []) outbox in
    ap (λ k. file_responses (responses_of outbox) (insert k r done)) (sym keyed.0)
    ∙ ap (file_responses (responses_of outbox))
        (insert-append_fresh uuid r done (IsDict-fresh uuid r done outbox h))
    ∙ file_responses-append outbox (done ++ ((uuid, r) ∷ [])) (rw front h) keyed.1
    ∙ front
