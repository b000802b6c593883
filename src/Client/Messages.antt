-- ===== src/Client/Messages.antt =====
-- The methods of `Client` in pipebomb/client.py: the payload that each sends, and what it makes of
-- the payload that it receives. `set`, `request` and `respond` are given the bytes that `primitive`
-- makes of their arguments.
use pipebomb.Base.{
  Bytes, ℕ, ◌+◌, [], ◌∷◌, ◌++◌, Bool, ltb, if◌then◌else◌, length, take, slice, eq_bytes,
}
use pipebomb.Base.Result.{Result, ok, err, runtime_error, ◌>>=◌}
use pipebomb.Wire.Struct.{unpack_2, unpack_4}
use pipebomb.Wire.Packet.{ack}
use pipebomb.Server.State.{Request, Response}
use pipebomb.Client.Primitive.{Primitives, primitive, convert_to_length_format}

-- The payload of a method that sends an opcode and one key.
unfoldable pub key_payload : ℕ → Primitives → Result Bytes
key_payload opcode key = do k ← primitive key; ok (opcode ∷ k)

abbrev pub get_payload : Primitives → Result Bytes
get_payload = key_payload 0x82

abbrev pub delete_payload : Primitives → Result Bytes
delete_payload = key_payload 0x83

abbrev pub list_payload : Bytes
list_payload = 0x84 ∷ []

abbrev pub register_payload : Primitives → Result Bytes
register_payload = key_payload 0x85

abbrev pub unregister_payload : Primitives → Result Bytes
unregister_payload = key_payload 0x86

abbrev pub whoami_payload : Bytes
whoami_payload = 0x87 ∷ []

abbrev pub bye_payload : Bytes
bye_payload = 0x88 ∷ []

abbrev pub find_payload : Primitives → Result Bytes
find_payload = key_payload 0x1

unfoldable pub set_payload : Bytes → Bytes → Result Bytes
unfolding convert_to_length_format
set_payload key value = do
  sizes ← convert_to_length_format (key ∷ value ∷ [])
  ok (0x81 ∷ (sizes ++ (key ++ value)))

unfoldable pub request_payload : Bytes → Bytes → Bytes → Result Bytes
unfolding convert_to_length_format
request_payload uuid request key = do
  sizes ← convert_to_length_format (uuid ∷ request ∷ key ∷ [])
  ok (0x2 ∷ (sizes ++ (uuid ++ (request ++ key))))

abbrev pub read_inbox_payload : Bytes
read_inbox_payload = 0x3 ∷ []

unfoldable pub respond_payload : Bytes → Bytes → Bytes → Bytes → Result Bytes
unfolding convert_to_length_format
respond_payload target_uuid response key request_uuid = do
  sizes ← convert_to_length_format (target_uuid ∷ response ∷ key ∷ request_uuid ∷ [])
  ok (0x4 ∷ (sizes ++ (target_uuid ++ (response ++ (key ++ request_uuid)))))

abbrev pub read_outbox_payload : Bytes → Bytes
read_outbox_payload request_uuid = 0x5 ∷ request_uuid

-- `await self.client.receive() == ACK`
unfoldable pub is_ack : Bytes → Bool
is_ack res = eq_bytes res ack

-- What `read_inbox` makes of the reply.
unfoldable pub inbox_of : Bytes → Result Request
unfolding slice
inbox_of res = do
  (uuid_length, req_length, key_length, req_uuid_length) ← unpack_4 (take 16 res)
  let o1 = 16 + uuid_length
  let o2 = o1 + req_length
  let o3 = o2 + key_length
  ok (record {
    return_uuid = slice 16 o1 res;
    key = slice o2 o3 res;
    request = slice o1 o2 res;
    request_uuid = slice o3 (o3 + req_uuid_length) res;
  })

-- What `read_outbox` makes of the reply.
unfoldable pub outbox_of : Bytes → Bytes → Result Response
unfolding slice
outbox_of request_uuid res = if ltb (length res) 9 then err runtime_error else do
  (key_length, res_length) ← unpack_2 (take 8 res)
  let offset = 8 + key_length
  ok (record {
    key = slice 8 offset res;
    response = slice offset (offset + res_length) res;
    response_uuid = request_uuid;
  })
