-- ===== src/Archive/Items.antt =====
-- The addresses, requests and responses of a session: what `serialize` of pipebomb/server.py packs
-- of them, the loops of `deserialize` read back.
use pipebomb.Base.{
  Bytes, Str, ℕ, ◌≤◌, List, [], ◌∷◌, ◌++◌, ◌≡◌, ap, ◌∙◌, inl, inr, map, length, concat, All,
  length-append, append_assoc, arith,
}
use pipebomb.Base.Result.{ok, came-through, Result-cases}
use pipebomb.Base.Dict.{Dict}
use pipebomb.Wire.Struct.{be_digits}
use pipebomb.Wire.Struct.Laws.{length-be_digits}
use pipebomb.Server.State.{Request, Response}
use pipebomb.Server.Monad.{encode_latin1}
use pipebomb.Archive.Read.{take_block, take_request, take_response, read_items}
use pipebomb.Archive.Write.{block, pack_addresses, pack_item, drain, pack_responses}
use pipebomb.Archive.Blocks.{block_of, Fits, block-eq-ok, take_block-block, read_items-concat}

pub encode_latin1-eq-ok : (s : Str) {b : Bytes} → encode_latin1 s ≡ ok b → b ≡ s
unfolding encode_latin1
encode_latin1-eq-ok s h = ground arith

le-length-block : (b : Bytes) → 1 ≤ length (block_of b)
le-length-block b =
    omega (arith, length-append (be_digits 4 (length b)) b, length-be_digits 4 (length b))

-- The addresses that a session owns.
pub pack_addresses-eq-ok :
    (addresses : List Str) {packed : Bytes}
    → pack_addresses addresses ≡ ok packed
    → (packed ≡ concat (map block_of addresses)) × All Fits addresses
unfolding pack_addresses
pack_addresses-eq-ok [] h = ground arith
pack_addresses-eq-ok (a ∷ addresses) h =
    let (encoded, e, h1) = came-through (encode_latin1 a) _ h in
    let (item, e2, h2) = came-through (block encoded) _ h1 in
    let (more, e3, h3) = came-through (pack_addresses addresses) _ h2 in
    let same = encode_latin1-eq-ok a e in
    let packed = block-eq-ok encoded e2 in
    let others = pack_addresses-eq-ok addresses e3 in ground arith

pub read_items-addresses :
    (addresses : List Str) (fuel : ℕ)
    → All Fits addresses
    → length (concat (map block_of addresses)) ≤ fuel
    → read_items take_block fuel (concat (map block_of addresses)) ≡ ok addresses
read_items-addresses = read_items-concat block_of Fits take_block take_block-block le-length-block

-- A request, and the requests of an inbox.
abbrev pub item_of : Request → Bytes
item_of r =
    block_of r.return_uuid ++ (block_of r.key ++ (block_of r.request ++ block_of r.request_uuid))

abbrev pub ItemFits : Request → Type 0
ItemFits r = Fits r.return_uuid × Fits r.key × Fits r.request × Fits r.request_uuid

pack_item-eq-ok :
    (r : Request) {packed : Bytes} → pack_item r ≡ ok packed → (packed ≡ item_of r) × ItemFits r
unfolding pack_item
pack_item-eq-ok r h =
    let (a, ea, h1) = came-through (block r.return_uuid) _ h in
    let (b, eb, h2) = came-through (block r.key) _ h1 in
    let (d, ed, h3) = came-through (block r.request) _ h2 in
    let (e, ee, h4) = came-through (block r.request_uuid) _ h3 in
    ground (
      arith,
      block-eq-ok r.return_uuid ea,
      block-eq-ok r.key eb,
      block-eq-ok r.request ed,
      block-eq-ok r.request_uuid ee,
    )

pub drain-eq-ok :
    (inbox : List Request) {packed : Bytes}
    → (drain inbox).0 ≡ ok packed
    → (packed ≡ concat (map item_of inbox)) × All ItemFits inbox × ((drain inbox).1 ≡ [])
unfolding drain
drain-eq-ok [] h = ground arith
drain-eq-ok (r ∷ inbox) h = elim (Result-cases (pack_item r)) [
  | inl (e, raised) ↦ absurd (ground arith)
  | inr (item, packed_item) ↦
      let (items, e, h1) =
        came-through (drain inbox).0 (λ items. ok (item ++ items)) (rw packed_item at h) in
      let first = pack_item-eq-ok r packed_item in let others = drain-eq-ok inbox e in ground arith
]

-- The block at the front of an item.
take_block-front :
    (b tail rest : Bytes)
    → Fits b
    → take_block ((block_of b ++ tail) ++ rest) ≡ ok (b, tail ++ rest)
take_block-front b tail rest h =
    ap take_block (append_assoc (block_of b) tail rest) ∙ take_block-block b (tail ++ rest) h

take_request-item :
    (r : Request) (rest : Bytes) → ItemFits r → take_request (item_of r ++ rest) ≡ ok (r, rest)
unfolding take_request
take_request-item r rest h =
    let last = block_of r.request_uuid in
    rw (
      take_block-front r.return_uuid (block_of r.key ++ (block_of r.request ++ last)) rest h.0,
      take_block-front r.key (block_of r.request ++ last) rest h.1,
      take_block-front r.request last rest h.2,
      take_block-block r.request_uuid rest h.3,
    )

le-length-item : (r : Request) → 1 ≤ length (item_of r)
le-length-item r = omega (
  arith,
  le-length-block r.return_uuid,
  length-append (block_of r.return_uuid)
      (block_of r.key ++ (block_of r.request ++ block_of r.request_uuid)),
)

pub read_items-requests :
    (inbox : List Request) (fuel : ℕ)
    → All ItemFits inbox
    → length (concat (map item_of inbox)) ≤ fuel
    → read_items take_request fuel (concat (map item_of inbox)) ≡ ok inbox
read_items-requests =
    read_items-concat item_of ItemFits take_request take_request-item le-length-item

-- A response, and the responses of an outbox.
abbrev pub response_of : Response → Bytes
response_of r = block_of r.key ++ (block_of r.response ++ block_of r.response_uuid)

abbrev pub ResponseFits : Response → Type 0
ResponseFits r = Fits r.key × Fits r.response × Fits r.response_uuid

abbrev pub responses_of : Dict Response → List Response
responses_of = map (λ entry. entry.1)

pub pack_responses-eq-ok :
    (outbox : Dict Response) {packed : Bytes}
    → pack_responses outbox ≡ ok packed
    → (packed ≡ concat (map response_of (responses_of outbox)))
      × All ResponseFits (responses_of outbox)
unfolding pack_responses
pack_responses-eq-ok [] h = ground arith
pack_responses-eq-ok ((uuid, r) ∷ outbox) h =
    let (a, ea, h1) = came-through (block r.key) _ h in
    let (b, eb, h2) = came-through (block r.response) _ h1 in
    let (d, ed, h3) = came-through (block r.response_uuid) _ h2 in
    let (more, em, h4) = came-through (pack_responses outbox) _ h3 in
    ground (
      arith,
      block-eq-ok r.key ea,
      block-eq-ok r.response eb,
      block-eq-ok r.response_uuid ed,
      pack_responses-eq-ok outbox em,
    )

take_response-response :
    (r : Response) (rest : Bytes)
    → ResponseFits r
    → take_response (response_of r ++ rest) ≡ ok (r, rest)
unfolding take_response
take_response-response r rest h =
    let last = block_of r.response_uuid in
    rw (
      take_block-front r.key (block_of r.response ++ last) rest h.0,
      take_block-front r.response last rest h.1,
      take_block-block r.response_uuid rest h.2,
    )

le-length-response : (r : Response) → 1 ≤ length (response_of r)
le-length-response r = omega (
  arith,
  le-length-block r.key,
  length-append (block_of r.key) (block_of r.response ++ block_of r.response_uuid),
)

pub read_items-responses :
    (responses : List Response) (fuel : ℕ)
    → All ResponseFits responses
    → length (concat (map response_of responses)) ≤ fuel
    → read_items take_response fuel (concat (map response_of responses)) ≡ ok responses
read_items-responses =
    read_items-concat response_of ResponseFits take_response take_response-response
      le-length-response
