-- ===== src/Tests/Packets.antt =====
-- The theorems about packets and payloads at concrete inputs.
use pipebomb.Base.{
  ◌+◌, ◌≤◌, length, take, drop, Bytes, [], ◌∷◌, ◌++◌, ◌≡◌, ◌≢◌, refl, none, some, eq_bytes, arith,
}
use pipebomb.Base.Result.{ok}
use pipebomb.Wire.Struct.{be_digits, to_bytes_big, to_bytes_little, pack_u32}
use pipebomb.Wire.Packet.{construct_packet, verify_packet, accepted, Verified}
use pipebomb.Wire.Reassembly.{Reassembled, recv_frame-reassembles}
use pipebomb.Wire.RoundTrip.{verify-construct}
use pipebomb.Wire.Verify.{IsAuthentic, verify-accepted}
use pipebomb.Wire.Total.{verify-total}
use pipebomb.Client.Receive.{RawClient, receive_frame, recv_loop, stream_ended, out_of_rounds}
use pipebomb.Client.Endings.{recv_loop-ends}
use pipebomb.Client.Streaming.{construct_all, queued_all, recv_loop-queues}
use pipebomb.Client.ReceiveLaws.{queued, error_replies_queued}
use pipebomb.Wire.Errors.{err_dispatch}
use pipebomb.Wire.Size.{length-construct}
use pipebomb.Client.Sending.{send, send-send}
use pipebomb.Tests.{toy, toy-IsCrypto, toy_compress, toy_encrypt, toy_crc32, session_key}

-- Four zero bytes, which are sent compressed.
abbrev payload : Bytes
payload = 0 ∷ 0 ∷ 0 ∷ 0 ∷ 9 ∷ []

abbrev ciphertext : Bytes
ciphertext =
    0 ∷ 0 ∷ 0 ∷ 0 ∷ 0 ∷ 0 ∷ 0 ∷ 0 ∷ 0 ∷ 0 ∷ 0 ∷ 0 ∷ 0 ∷ 0 ∷ 0 ∷ 0 ∷ 1 ∷ 0 ∷ 0 ∷ 9 ∷ 0 ∷ 0 ∷ 0 ∷ 5
    ∷ 0x80 ∷ 0x38 ∷ []

abbrev packet : Bytes
packet = 0x91 ∷ 0x93 ∷ 0 ∷ 0 ∷ 0 ∷ 26 ∷ ciphertext

built : construct_packet toy payload (some session_key) 3 ≡ ok packet
unfolding construct_packet to_bytes_big to_bytes_little pack_u32 toy_compress toy_encrypt toy_crc32
built = refl

verify-construct_example :
    verify_packet toy (packet ++ (1 ∷ [])) (some session_key) 3
    ≡ ok (accepted payload, some (1 ∷ []))
verify-construct_example =
    verify-construct toy toy-IsCrypto payload session_key (1 ∷ []) 3 (omega arith) (omega arith)
      built

recv_frame-reassembles_example :
    Reassembled
      (0x91 ∷ [])
      ((0x93 ∷ 0 ∷ 0 ∷ []) ∷ (0 ∷ 2 ∷ 8 ∷ []) ∷ (9 ∷ 0x91 ∷ []) ∷ [])
      (8 ∷ 9 ∷ [])
      (0x91 ∷ [])
unfolding be_digits
recv_frame-reassembles_example =
    recv_frame-reassembles (0x91 ∷ [])
      ((0x93 ∷ 0 ∷ 0 ∷ []) ∷ (0 ∷ 2 ∷ 8 ∷ []) ∷ (9 ∷ 0x91 ∷ []) ∷ []) (8 ∷ 9 ∷ []) (0x91 ∷ [])
      (omega arith) (refl, (refl, (refl, tt))) refl

verified : verify_packet toy packet (some session_key) 3 ≡ ok (accepted payload, none)
verified =
    verify-construct toy toy-IsCrypto payload session_key [] 3 (omega arith) (omega arith) built

verify-accepted_example : IsAuthentic toy payload packet session_key 3
verify-accepted_example = verify-accepted toy packet session_key 3 (omega arith) verified

abbrev short_packet : Bytes
short_packet = 0x91 ∷ 0x93 ∷ 0 ∷ 0 ∷ 0 ∷ 1 ∷ 7 ∷ []

verify-total_example : (v : Verified) × (verify_packet toy short_packet (some session_key) 3 ≡ ok v)
verify-total_example = verify-total toy toy-IsCrypto short_packet session_key 3 (omega arith)

abbrev listener : RawClient
listener = record {
  tasks = [];
  unfinished = 0;
  input_packets = [];
  tx_nonce = 2;
  rx_nonce = 3;
  cipher = some session_key;
}

-- The same connection, about to send.
abbrev talker : RawClient
talker = record listener { tx_nonce = 3 }

send-send_example :
    (send toy payload (send toy payload talker).1).1.tasks ≡ talker.tasks ++ (packet ∷ packet ∷ [])
send-send_example = send-send toy payload payload packet packet talker built built

-- The same packet under two nonces, since the stand-in's cipher is the identity; it comes in pieces.
two_built : construct_all toy session_key 3 (payload ∷ payload ∷ []) ≡ ok (packet ∷ packet ∷ [])
unfolding construct_all construct_packet to_bytes_big to_bytes_little pack_u32 toy_compress
    toy_encrypt toy_crc32
two_built = refl

recv_loop-queues_example :
    recv_loop toy 3
      (take 3 packet)
      ((drop 3 packet ++ take 20 packet) ∷ drop 20 packet ∷ [])
      listener
    ≡ (ok stream_ended, queued_all (payload ∷ payload ∷ []) listener)
unfolding eq_bytes
recv_loop-queues_example =
    recv_loop-queues toy toy-IsCrypto session_key (payload ∷ payload ∷ []) (packet ∷ packet ∷ []) 3
      (take 3 packet) ((drop 3 packet ++ take 20 packet) ∷ drop 20 packet ∷ []) listener refl
      two_built ((omega arith, refl), ((omega arith, refl), tt)) (omega arith) (refl, (refl, tt))
      refl (omega arith)

length-construct_example : (30 ≤ length packet) × (length packet ≤ length payload + 29)
length-construct_example =
    length-construct toy toy-IsCrypto payload session_key 3 (omega arith) built

recv_loop-ends_example : (recv_loop toy 40 (1 ∷ []) (packet ∷ []) listener).0 ≢ ok out_of_rounds
recv_loop-ends_example = recv_loop-ends toy 40 (1 ∷ []) (packet ∷ []) listener (omega arith)

-- The reply to a command that is not known.
abbrev error_5 : Bytes
error_5 = 0 ∷ 69 ∷ 82 ∷ 82 ∷ 5 ∷ []

abbrev error_packet : Bytes
error_packet =
    0x91 ∷ 0x93 ∷ 0 ∷ 0 ∷ 0 ∷ 28 ∷ 0 ∷ 0 ∷ 0 ∷ 0 ∷ 0 ∷ 0 ∷ 0 ∷ 0 ∷ 0 ∷ 0 ∷ 0 ∷ 0 ∷ 0 ∷ 0 ∷ 0 ∷ 0 ∷ 0
    ∷ 0 ∷ 69 ∷ 82 ∷ 82 ∷ 5 ∷ 0 ∷ 0 ∷ 0 ∷ 5 ∷ 0x80 ∷ 0x38 ∷ []

error_built : construct_packet toy error_5 (some session_key) 3 ≡ ok error_packet
unfolding construct_packet to_bytes_big to_bytes_little pack_u32 toy_compress toy_encrypt toy_crc32
error_built = refl

error_replies_queued_example :
    receive_frame toy error_packet listener ≡ (ok tt, queued error_5 listener)
unfolding err_dispatch
error_replies_queued_example =
    error_replies_queued toy toy-IsCrypto 5 error_5 error_packet session_key listener refl refl
      (omega arith) error_built
