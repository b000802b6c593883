-- ===== src/Wire/Errors.antt =====
-- `err_to_human_readable` of pipebomb/utils.py, and `Server.ERR_DISPATCH` of pipebomb/server.py.
use Prim.Native.String.{String}
use pipebomb.Base.{Bytes, ℕ, [], ◌∷◌, ◌==◌, if◌then◌else◌, Option, none, some, ◌&&◌, leb}
use pipebomb.Wire.Struct.{from_bytes}

-- The argument: an int, or the bytes of one.
pub data ErrorCode : Type 0 where
  number : ℕ → ErrorCode
  raw : Bytes → ErrorCode

unfoldable pub message_of : ℕ → String
message_of err =
    if err == 0
    then "Success"
    else if err == 1
    then "Unknown error"
    else if err == 2
    then "Invalid packet"
    else if err == 3
    then "Invalid crc32 or MAC"
    else if err == 4
    then "Invalid command"
    else if err == 5
    then "Key does not exist or the key already exists"
    else if err == 6
    then "Invalid value"
    else if err == 7
    then "UUID does not exist"
    else if err == 8
    then "Empty outbox"
    else "Unknown error"

unfoldable pub err_to_human_readable : ErrorCode → String
unfolding message_of
err_to_human_readable (number err) = message_of err
err_to_human_readable (raw err) = message_of (from_bytes err)

-- `ERR_DISPATCH[code]`, `none` for a KeyError: a zero byte, "ERR", and the code.
unfoldable pub err_dispatch : ℕ → Option Bytes
err_dispatch code = if leb 2 code && leb code 7 then some (0 ∷ 69 ∷ 82 ∷ 82 ∷ code ∷ []) else none
