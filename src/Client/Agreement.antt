-- ===== src/Client/Agreement.antt =====
-- The payloads that pipebomb/client.py sends are read by pipebomb/server.py as they were meant, and
-- the other way round.
use pipebomb.Base.{
  Bytes, ◌+◌, ◌<◌, [], ◌∷◌, ◌++◌, ◌≡◌, refl, length, append-nil, length-append, arith, ltb, false,
  Bool-cases, inl, inr, if◌then◌else◌,
}
use pipebomb.Base.Result.{ok, err, runtime_error}
use pipebomb.Wire.Struct.{be_digits, u32_limit}
use pipebomb.Wire.Struct.Laws.{pack_u32-fits, unpack_2-packed, unpack_3-packed, unpack_4-packed}
use pipebomb.Server.State.{Request, Response}
use pipebomb.Server.Fields.{inbox_fields, outbox_fields, pack_request, pack_response}
use pipebomb.Client.Messages.{request_payload, respond_payload, inbox_of, outbox_of}
use pipebomb.Client.Cutting.{cut_first, cut_second, cut_third, cut_fourth}

-- The payload of `request`, behind its opcode.
abbrev pub request_value : Bytes → Bytes → Bytes → Bytes
request_value uuid request key =
    be_digits 4 (length uuid)
    ++ (be_digits 4 (length request) ++ (be_digits 4 (length key) ++ (uuid ++ (request ++ key))))

module _ (uuid request key : Bytes) (hu : length uuid < u32_limit) (hr : length request < u32_limit)
    (hk : length key < u32_limit) where
  pub request_payload_lem :
      request_payload uuid request key ≡ ok (0x2 ∷ request_value uuid request key)
  unfolding request_payload be_digits
  request_payload_lem = rw (
    pack_u32-fits (length uuid) hu,
    pack_u32-fits (length request) hr,
    pack_u32-fits (length key) hk,
  )

  pub inbox_fields-request_value :
      inbox_fields (request_value uuid request key) ≡ ok (uuid, request, key)
  unfolding inbox_fields be_digits
  inbox_fields-request_value =
      let h =
        be_digits 4 (length uuid) ++ (be_digits 4 (length request) ++ be_digits 4 (length key)) in
      rw (
        unpack_3-packed (length uuid) (length request) (length key) (uuid ++ (request ++ key)) hu hr
            hk,
        cut_first h uuid request key [] 12 refl (request ++ key),
        cut_second h uuid request key [] 12 refl key,
        rw append-nil at (cut_third h uuid request key [] 12 refl []),
      )

-- The payload of `respond`, behind its opcode.
abbrev pub respond_value : Bytes → Bytes → Bytes → Bytes → Bytes
respond_value target response key request_uuid =
    be_digits 4 (length target)
    ++ (be_digits 4 (length response)
        ++ (be_digits 4 (length key)
            ++ (be_digits 4 (length request_uuid)
                ++ (target ++ (response ++ (key ++ request_uuid))))))

module _ (target response key request_uuid : Bytes) (ht : length target < u32_limit)
    (hr : length response < u32_limit) (hk : length key < u32_limit)
    (hq : length request_uuid < u32_limit) where
  pub respond_payload_lem :
      respond_payload target response key request_uuid
      ≡ ok (0x4 ∷ respond_value target response key request_uuid)
  unfolding respond_payload be_digits
  respond_payload_lem = rw (
    pack_u32-fits (length target) ht,
    pack_u32-fits (length response) hr,
    pack_u32-fits (length key) hk,
    pack_u32-fits (length request_uuid) hq,
  )

  abbrev sizes : Bytes
  sizes =
      be_digits 4 (length target)
      ++ (be_digits 4 (length response)
          ++ (be_digits 4 (length key) ++ be_digits 4 (length request_uuid)))

  pub outbox_fields-respond_value :
      outbox_fields (respond_value target response key request_uuid)
      ≡ ok (target, response, key, request_uuid)
  unfolding outbox_fields be_digits
  outbox_fields-respond_value = rw (
    unpack_4-packed (length target) (length response) (length key) (length request_uuid)
        (target ++ (response ++ (key ++ request_uuid))) ht hr hk hq,
    cut_first sizes target response key request_uuid 16 refl (response ++ (key ++ request_uuid)),
    cut_second sizes target response key request_uuid 16 refl (key ++ request_uuid),
    cut_third sizes target response key request_uuid 16 refl request_uuid,
    rw append-nil at (cut_fourth sizes target response key request_uuid 16 refl []),
  )

  -- A request that the server packs for GET_INBOX is the one that the client reads.
  pub pack_request_lem :
      pack_request (record {
        return_uuid = target;
        key = key;
        request = response;
        request_uuid = request_uuid;
      })
      ≡ ok (respond_value target response key request_uuid)
  unfolding pack_request be_digits
  pack_request_lem = rw (
    pack_u32-fits (length target) ht,
    pack_u32-fits (length response) hr,
    pack_u32-fits (length key) hk,
    pack_u32-fits (length request_uuid) hq,
  )

  pub inbox_of-respond_value :
      inbox_of (respond_value target response key request_uuid)
      ≡ ok (record {
        return_uuid = target;
        key = key;
        request = response;
        request_uuid = request_uuid;
      })
  unfolding inbox_of be_digits
  inbox_of-respond_value = rw (
    unpack_4-packed (length target) (length response) (length key) (length request_uuid)
        (target ++ (response ++ (key ++ request_uuid))) ht hr hk hq,
    cut_first sizes target response key request_uuid 16 refl (response ++ (key ++ request_uuid)),
    cut_second sizes target response key request_uuid 16 refl (key ++ request_uuid),
    cut_third sizes target response key request_uuid 16 refl request_uuid,
    rw append-nil at (cut_fourth sizes target response key request_uuid 16 refl []),
  )

-- The reply to GET_OUTBOX.
abbrev pub response_value : Bytes → Bytes → Bytes
response_value key response =
    be_digits 4 (length key) ++ (be_digits 4 (length response) ++ (key ++ response))

module _ (key response request_uuid : Bytes) (hk : length key < u32_limit)
    (hr : length response < u32_limit) where
  abbrev answer : Response
  answer = record { key = key; response = response; response_uuid = request_uuid }

  pub pack_response_lem : pack_response answer ≡ ok (response_value key response)
  unfolding pack_response be_digits
  pack_response_lem = rw (pack_u32-fits (length key) hk, pack_u32-fits (length response) hr)

  -- A response is read back, unless its key and its text are both empty.
  pub outbox_of-response_value :
      0 < length key + length response
      → outbox_of request_uuid (response_value key response) ≡ ok answer
  unfolding outbox_of be_digits
  outbox_of-response_value some_bytes =
      let h = be_digits 4 (length key) ++ be_digits 4 (length response) in
      let long : ltb (8 + length (key ++ response)) 9 ≡ false =
        ground (arith, length-append key response) in
      ground (
        arith,
        long,
        length-append key response,
        unpack_2-packed (length key) (length response) (key ++ response) hk hr,
        cut_first h key response [] [] 8 refl response,
        rw append-nil at (cut_second h key response [] [] 8 refl []),
      )

  -- A response with neither reaches the client as an error.
  pub outbox_of-empty :
      length key + length response ≡ 0
      → outbox_of request_uuid (response_value key response) ≡ err runtime_error
  unfolding outbox_of be_digits
  outbox_of-empty no_bytes = ground (arith, length-append key response)

-- What `request` sends, behind its opcode, is read by the server as the same target, request and
-- key.
pub request-agrees :
    (uuid request key : Bytes)
    → length uuid < u32_limit
    → length request < u32_limit
    → length key < u32_limit
    → (value : Bytes) × (request_payload uuid request key ≡ ok (0x2 ∷ value))
      × (inbox_fields value ≡ ok (uuid, request, key))
request-agrees uuid request key hu hr hk = (
  request_value uuid request key,
  request_payload_lem uuid request key hu hr hk,
  inbox_fields-request_value uuid request key hu hr hk,
)

-- What `respond` sends, behind its opcode, is read by the server as the same target, response, key
-- and request UUID.
pub respond-agrees :
    (target response key request_uuid : Bytes)
    → length target < u32_limit
    → length response < u32_limit
    → length key < u32_limit
    → length request_uuid < u32_limit
    → (value : Bytes) × (respond_payload target response key request_uuid ≡ ok (0x4 ∷ value))
      × (outbox_fields value ≡ ok (target, response, key, request_uuid))
respond-agrees target response key request_uuid ht hr hk hq = (
  respond_value target response key request_uuid,
  respond_payload_lem target response key request_uuid ht hr hk hq,
  outbox_fields-respond_value target response key request_uuid ht hr hk hq,
)

-- A request from the inbox, packed by the server, is read by the client as the same request.
pub read_inbox-agrees :
    (r : Request)
    → length r.return_uuid < u32_limit
    → length r.request < u32_limit
    → length r.key < u32_limit
    → length r.request_uuid < u32_limit
    → (res : Bytes) × (pack_request r ≡ ok res) × (inbox_of res ≡ ok r)
read_inbox-agrees r hu hr hk hq = (
  respond_value r.return_uuid r.request r.key r.request_uuid,
  pack_request_lem r.return_uuid r.request r.key r.request_uuid hu hr hk hq,
  inbox_of-respond_value r.return_uuid r.request r.key r.request_uuid hu hr hk hq,
)

-- A response from the outbox, packed by the server, is read by the client as the same response if its
-- key and its text are not both empty; if they are, the client raises a RuntimeError.
pub read_outbox-agrees :
    (r : Response)
    → length r.key < u32_limit
    → length r.response < u32_limit
    → (res : Bytes) × (pack_response r ≡ ok res)
      × (outbox_of r.response_uuid res
          ≡ (if ltb 0 (length r.key + length r.response) then ok r else err runtime_error))
read_outbox-agrees r hk hr = (
  response_value r.key r.response,
  pack_response_lem r.key r.response r.response_uuid hk hr,
  elim (Bool-cases (ltb 0 (length r.key + length r.response))) [
    | inl full ↦
        rw full (outbox_of-response_value r.key r.response r.response_uuid hk hr (ground arith))
    | inr bare ↦ rw bare (outbox_of-empty r.key r.response r.response_uuid hk hr (ground arith))
  ],
)
