-- ===== src/Tests/Disconnects.antt =====
-- A peer that asks WHOAMI, begins another packet, and is gone.
use pipebomb.Base.{some, Bytes, [], ◌∷◌, ◌≡◌, refl, eq_bytes, arith}
use pipebomb.Base.Result.{ok, err, type_error}
use pipebomb.Base.Dict.{lookup, insert}
use pipebomb.Wire.Packet.{construct_packet, verify_frame, extract_packet_frame}
use pipebomb.Wire.Struct.{to_bytes_big, to_bytes_little, pack_u32, unpack_u32}
use pipebomb.Wire.Stream.{recv_frame, frame, end_of_stream}
use pipebomb.Server.State.{Server}
use pipebomb.Server.Monad.{encode_latin1, reply}
use pipebomb.Server.Requests.{server_request, handle_whoami, served}
use pipebomb.Server.Session.{handle_frame, handle_client, done}
use pipebomb.Server.Abrupt.{gone, command, handle_client-abrupt}
use pipebomb.Tests.{
  runtime, uuid_a, session_key, session, server, toy_compress, toy_encrypt, toy_decrypt, toy_crc32,
}

abbrev whoami : Bytes
whoami =
    0x91 ∷ 0x93 ∷ 0 ∷ 0 ∷ 0 ∷ 24 ∷ 0 ∷ 0 ∷ 0 ∷ 0 ∷ 0 ∷ 0 ∷ 0 ∷ 0 ∷ 0 ∷ 0 ∷ 0 ∷ 0 ∷ 0 ∷ 0 ∷ 0 ∷ 0 ∷ 0
    ∷ 0x87 ∷ 0 ∷ 0 ∷ 0 ∷ 1 ∷ 0x80 ∷ 0x38 ∷ []

abbrev at_rest : Server
at_rest = server [] []

abbrev answered : Server
answered = (handle_frame runtime 5 uuid_a (some whoami) at_rest).1

is_served : handle_frame runtime 5 uuid_a (some whoami) at_rest ≡ (ok (done served), answered)
unfolding handle_frame lookup eq_bytes verify_frame to_bytes_little unpack_u32 toy_decrypt
    to_bytes_big toy_crc32 server_request handle_whoami encode_latin1 reply insert construct_packet
    toy_encrypt toy_compress pack_u32
is_served = refl

stays :
    lookup uuid_a answered.client_db
    ≡ some (record (session uuid_a []) { rx_nonce = 3; tx_nonce = 3 })
unfolding handle_frame lookup eq_bytes verify_frame to_bytes_little unpack_u32 toy_decrypt
    to_bytes_big toy_crc32 server_request handle_whoami encode_latin1 reply insert construct_packet
    toy_encrypt toy_compress pack_u32
stays = refl

comes :
    recv_frame [] (whoami ∷ (0x91 ∷ 0x93 ∷ []) ∷ [])
    ≡ ok (frame whoami [] ((0x91 ∷ 0x93 ∷ []) ∷ []))
unfolding recv_frame extract_packet_frame unpack_u32 eq_bytes
comes = refl

breaks_off : recv_frame [] ((0x91 ∷ 0x93 ∷ []) ∷ []) ≡ ok (end_of_stream (0x91 ∷ 0x93 ∷ []))
unfolding recv_frame extract_packet_frame unpack_u32 eq_bytes
breaks_off = refl

handle_client-abrupt_example :
    handle_client runtime 5 uuid_a 40 (whoami ∷ (0x91 ∷ 0x93 ∷ []) ∷ []) at_rest
    ≡ (err type_error, answered)
unfolding lookup eq_bytes
handle_client-abrupt_example =
    handle_client-abrupt runtime 5 uuid_a 40 (whoami ∷ (0x91 ∷ 0x93 ∷ []) ∷ []) session_key
      (session uuid_a []) (record (session uuid_a []) { rx_nonce = 3; tx_nonce = 3 }) at_rest
      answered refl refl (command comes is_served (gone breaks_off)) (omega arith) stays
      (omega arith)
