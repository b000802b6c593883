-- ===== src/Server/Fields.antt =====
-- The payloads of pipebomb/server.py: the fields that `handle_client` cuts out of SET, PUT_INBOX and
-- PUT_OUTBOX, and those that it joins for GET_INBOX and GET_OUTBOX.
use pipebomb.Base.{Bytes, ◌+◌, ◌++◌, length, take, slice}
use pipebomb.Base.Result.{Result, ok, ◌>>=◌}
use pipebomb.Wire.Struct.{pack_u32, unpack_2, unpack_3, unpack_4}
use pipebomb.Server.State.{Request, Response}

-- SET: key and value.
unfoldable pub set_fields : Bytes → Result (Bytes × Bytes)
unfolding slice
set_fields value = do
  (key_length, value_length) ← unpack_2 (take 8 value)
  let offset = 8 + key_length
  ok (slice 8 offset value, slice offset (offset + value_length) value)

-- PUT_INBOX: target, request and key.
unfoldable pub inbox_fields : Bytes → Result (Bytes × Bytes × Bytes)
unfolding slice
inbox_fields value = do
  (target_length, req_length, key_length) ← unpack_3 (take 12 value)
  let o1 = 12 + target_length
  let o2 = o1 + req_length
  ok (slice 12 o1 value, slice o1 o2 value, slice o2 (o2 + key_length) value)

-- PUT_OUTBOX: target, response, key and request UUID.
unfoldable pub outbox_fields : Bytes → Result (Bytes × Bytes × Bytes × Bytes)
unfolding slice
outbox_fields value = do
  (target_length, res_length, key_length, req_uuid_length) ← unpack_4 (take 16 value)
  let o1 = 16 + target_length
  let o2 = o1 + res_length
  let o3 = o2 + key_length
  ok (
    slice 16 o1 value,
    slice o1 o2 value,
    slice o2 o3 value,
    slice o3 (o3 + req_uuid_length) value,
  )

-- GET_INBOX: the lengths of the four fields, then the fields.
unfoldable pub pack_request : Request → Result Bytes
pack_request r = do
  a ← pack_u32 (length r.return_uuid)
  b ← pack_u32 (length r.request)
  d ← pack_u32 (length r.key)
  e ← pack_u32 (length r.request_uuid)
  ok (a ++ (b ++ (d ++ (e ++ (r.return_uuid ++ (r.request ++ (r.key ++ r.request_uuid)))))))

-- GET_OUTBOX: the lengths of key and response, then both.
unfoldable pub pack_response : Response → Result Bytes
pack_response r = do
  a ← pack_u32 (length r.key)
  b ← pack_u32 (length r.response)
  ok (a ++ (b ++ (r.key ++ r.response)))
