-- ===== src/Conversation/KeyValue.antt =====
-- A client that sets a value and gets it back, from its connection to its connection.
use pipebomb.Base.{
  Bytes, Str, ℕ, ◌+◌, ◌≤◌, ◌<◌, ◌∷◌, ◌++◌, ◌≡◌, refl, ap, ◌∙◌, false, some, is_empty, length,
  length-append, take, eq_bytes, eq_bytes_refl, arith,
}
use pipebomb.Base.Result.{ok}
use pipebomb.Base.Dict.{lookup, insert, lookup-insert}
use pipebomb.Wire.Struct.{u32_limit, be_digits}
use pipebomb.Wire.Struct.Laws.{length-be_digits}
use pipebomb.Wire.Crypto.{IsCrypto, max_plaintext}
use pipebomb.Wire.Packet.{ack}
use pipebomb.Server.State.{Server, Runtime}
use pipebomb.Server.Monad.{◌>>=◌, ◌>>◌, pure, reply}
use pipebomb.Server.Requests.{served, server_request, handle_set}
use pipebomb.Server.Session.{dispatch}
use pipebomb.Server.KeyValue.{dispatch-get}
use pipebomb.Client.Receive.{RawClient, err_prefix}
use pipebomb.Client.Primitive.{bytes, primitive}
use pipebomb.Client.Messages.{set_payload, get_payload, key_payload}
use pipebomb.Client.Cutting.{set_value, set_payload_lem, set_fields-set_value}
use pipebomb.Conversation.Call.{Linked, Called, call_lem, counted}

module _ (rt : Runtime) (laws : IsCrypto rt.crypto) (sock : ℕ) (uuid : Str)
    (k value key : Bytes) where
  -- A SET is dispatched to the table and an acknowledgement.
  dispatch-stores :
      (s : Server)
      → length k < u32_limit
      → length value < u32_limit
      → dispatch rt sock uuid (0x81 ∷ set_value k value) s
        ≡ (reply rt sock uuid ack >> pure served) (record s { db = insert k value s.db })
  unfolding ◌>>=◌ dispatch server_request handle_set
  dispatch-stores s hk hv = rw (set_fields-set_value k value hk hv) refl

  length-set_value : length (set_value k value) ≡ length k + length value + 8
  length-set_value = omega (
    arith,
    length-be_digits 4 (length k),
    length-be_digits 4 (length value),
    length-append (be_digits 4 (length k)) (be_digits 4 (length value) ++ (k ++ value)),
    length-append (be_digits 4 (length value)) (k ++ value),
    length-append k value,
  )

  -- A SET and then a GET of one client.
  pub record SetThenGet (c : RawClient) (s : Server) (calls : ℕ) : Type 0 where
    pub set_request : Bytes
    pub get_request : Bytes
    pub set_built : set_payload k value ≡ ok set_request
    pub get_built : get_payload (bytes k) ≡ ok get_request
    pub first : Called rt sock uuid set_request ack key c s (calls + 1)
    pub second : Called rt sock uuid get_request value key first.client first.server calls

  -- A client and its session that are linked, for two calls at least: the client sets a value, not
  -- empty, within the size of a packet, with no "ERR" in front, and then gets it. The first call is
  -- answered with the acknowledgement, the second with the value, and both are linked again.
  pub set-get :
      (c : RawClient) (s : Server) (calls : ℕ)
      → Linked uuid key c s (calls + 1 + 1)
      → length k + length value + 16 ≤ max_plaintext
      → is_empty value ≡ false
      → eq_bytes (take 3 value) err_prefix ≡ false
      → SetThenGet c s calls
  unfolding eq_bytes key_payload primitive
  set-get c s calls link short given plain =
      let ready =
        counted rt sock uuid laws (0x81 ∷ set_value k value) ack key c s (calls + 1) link in
      let (first, stored) =
        call_lem rt sock uuid laws (0x81 ∷ set_value k value) ack key c s (calls + 1) link
          (record ready { db = insert k value s.db }) refl (omega (arith, length-set_value)) refl
          (omega arith) refl (dispatch-stores ready (omega arith) (omega arith)) refl refl in
      let again =
        counted rt sock uuid laws (0x82 ∷ k) value key first.client first.server calls
          first.linked in
      let found : lookup k first.server.db ≡ some value =
        ap (lookup k) stored ∙ lookup-insert k k value s.db ∙ rw eq_bytes_refl in
      let (second, kept) =
        call_lem rt sock uuid laws (0x82 ∷ k) value key first.client first.server calls first.linked
          again refl (omega arith) given (omega arith) plain
          (dispatch-get rt sock uuid k value again found) refl refl in
      record {
        set_request = 0x81 ∷ set_value k value;
        get_request = 0x82 ∷ k;
        set_built = set_payload_lem k value (omega arith) (omega arith);
        get_built = refl;
        first = first;
        second = second;
      }
