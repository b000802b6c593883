-- ===== src/Client/Sending.antt =====
-- `send`, `receive`, `close` and the sending loop of `RawClient` in pipebomb/client.py. The packets
-- that reach the socket are part of the answer; a send that fails is left out.
use pipebomb.Base.{
  Bytes, ◌+◌, ◌≤◌, ◌<◌, ◌≡◌, refl, List, [], ◌∷◌, ◌++◌, Option, none, some, length, append_assoc,
  append-nil, arith,
}
use pipebomb.Base.Result.{Result, ok, err, runtime_error}
use pipebomb.Wire.Crypto.{Crypto, IsCrypto, max_output_size}
use pipebomb.Wire.Packet.{construct_packet, accepted, verify_packet}
use pipebomb.Wire.Construct.{nonce_limit}
use pipebomb.Wire.RoundTrip.{verify-construct}
use pipebomb.Client.Receive.{RawClient, task_done}

-- `self.tasks.put(packet)`, or the exception of `construct_packet`.
unfoldable pub put_task : Result Bytes → RawClient → Result (Unit {0}) × RawClient
put_task (err e) c = (err e, c)
put_task (ok packet) c =
    (ok tt, record c { tasks = c.tasks ++ (packet ∷ []); unfinished = c.unfinished + 1 })

-- The packet is built when it is queued, under the nonce of that moment.
unfoldable pub send : Crypto → Bytes → RawClient → Result (Unit {0}) × RawClient
unfolding put_task
send crypto payload c = put_task (construct_packet crypto payload c.cipher c.tx_nonce) c

-- One round of `send_loop`: the packet that is sent, if one is queued, and the nonce counted on.
unfoldable pub send_step : RawClient → Option Bytes × (Result (Unit {0}) × RawClient)
unfolding task_done
send_step c = next c.tasks
  where
    next : List Bytes → Option Bytes × (Result (Unit {0}) × RawClient)
    next [] = (none, (ok tt, c))
    next (packet ∷ rest) =
        (some packet, task_done (record c { tasks = rest; tx_nonce = c.tx_nonce + 1 }))

-- The next packet received; with none within five seconds, a RuntimeError.
unfoldable pub receive : RawClient → Result Bytes × RawClient
receive c = take_first c.input_packets
  where
    take_first : List Bytes → Result Bytes × RawClient
    take_first [] = (err runtime_error, c)
    take_first (packet ∷ rest) = (ok packet, record c { input_packets = rest })

-- The connection after it was closed.
abbrev pub closed : RawClient → RawClient
closed c = record c { tx_nonce = 0; rx_nonce = 0; cipher = none }

-- BYE is sent straight to the socket, past the queue.
unfoldable pub say_bye : Result Bytes → RawClient → Option Bytes × (Result (Unit {0}) × RawClient)
say_bye (err e) c = (none, (err e, c))
say_bye (ok packet) c = (some packet, (ok tt, closed c))

unfoldable pub close : Crypto → RawClient → Option Bytes × (Result (Unit {0}) × RawClient)
unfolding say_bye
close crypto c = with_cipher c.cipher
  where
    with_cipher : Option Bytes → Option Bytes × (Result (Unit {0}) × RawClient)
    with_cipher none = (none, (err runtime_error, c))
    with_cipher (some key) = say_bye (construct_packet crypto (0x88 ∷ []) (some key) c.tx_nonce) c

-- Two sends, before the sending loop has run in between, queue two packets under one nonce.
pub send-send :
    (crypto : Crypto) (first second p q : Bytes) (c : RawClient)
    → construct_packet crypto first c.cipher c.tx_nonce ≡ ok p
    → construct_packet crypto second c.cipher c.tx_nonce ≡ ok q
    → (send crypto second (send crypto first c).1).1.tasks ≡ c.tasks ++ (p ∷ q ∷ [])
unfolding send
send-send crypto first second p q c built_first built_second =
    rw (built_first, built_second) (append_assoc c.tasks (p ∷ []) (q ∷ []))

-- A send on an idle connection, and then a round of the sending loop: the packet that is sent is
-- verified, under the connection's key and the nonce from before, as the payload; and the nonce is
-- counted on.
pub send_step-send :
    (crypto : Crypto) (laws : IsCrypto crypto) (payload packet key : Bytes) (c : RawClient)
    → c.cipher ≡ some key
    → c.tasks ≡ []
    → c.tx_nonce < nonce_limit
    → length payload ≤ max_output_size
    → construct_packet crypto payload (some key) c.tx_nonce ≡ ok packet
    → ((send_step (send crypto payload c).1).0 ≡ some packet)
      × ((send_step (send crypto payload c).1).1.1.tx_nonce ≡ c.tx_nonce + 1)
      × (verify_packet crypto packet (some key) c.tx_nonce ≡ ok (accepted payload, none))
unfolding send send_step
send_step-send crypto laws payload packet key c keyed idle fits short built =
    let verified = verify-construct crypto laws payload key [] c.tx_nonce fits short built in
    rw (keyed, built, idle) (refl, ground arith, rw append-nil at verified)
