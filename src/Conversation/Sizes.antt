-- ===== src/Conversation/Sizes.antt =====
-- The lengths of the payloads of the mailboxes, in pipebomb/client.py and pipebomb/server.py.
use pipebomb.Base.{
  Bytes, ℕ, ◌+◌, ◌≤◌, ◌++◌, ◌≡◌, false, length, length-append, take, eq_bytes, arith,
}
use pipebomb.Wire.Struct.{be_digits}
use pipebomb.Client.Receive.{err_prefix}
use pipebomb.Client.Agreement.{request_value, respond_value, response_value}

-- The most that the fields of a message may have together: 1 GiB. Longer fields could make a length
-- that begins with "ERR".
abbrev pub field_limit : ℕ
field_limit = 1073741824

pub be_digits-plain :
    (n : ℕ) (rest : Bytes)
    → n ≤ field_limit
    → eq_bytes (take 3 (be_digits 4 n ++ rest)) err_prefix ≡ false
unfolding be_digits eq_bytes
be_digits-plain n rest h = ground arith

pub length-request_value :
    (target request key : Bytes)
    → length (request_value target request key) ≡ length target + length request + length key + 12
unfolding be_digits
length-request_value target request key =
    omega (arith, length-append target (request ++ key), length-append request key)

pub length-respond_value :
    (target response key request_uuid : Bytes)
    → length (respond_value target response key request_uuid)
      ≡ length target + length response + length key + length request_uuid + 16
unfolding be_digits
length-respond_value target response key request_uuid = omega (
  arith,
  length-append target (response ++ (key ++ request_uuid)),
  length-append response (key ++ request_uuid),
  length-append key request_uuid,
)

pub length-response_value :
    (key response : Bytes) → length (response_value key response) ≡ length key + length response + 8
unfolding be_digits
length-response_value key response = omega (arith, length-append key response)
