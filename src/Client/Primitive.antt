-- ===== src/Client/Primitive.antt =====
-- `primitive` of pipebomb/utils.py, and `convert_to_length_format` of pipebomb/client.py.
use pipebomb.Base.{
  Bytes, Str, ℕ, zero, suc, ◌+◌, ◌/◌, ◌%◌, List, [], ◌∷◌, ◌++◌, Bool, true, false, ltb,
  if◌then◌else◌, length,
}
use pipebomb.Base.Result.{Result, ok, ◌>>=◌}
use pipebomb.Wire.Struct.{pack_u32}
use pipebomb.Server.Monad.{encode_latin1}

-- An int by its sign and magnitude, bytes, or a str.
pub data Primitives : Type 0 where
  integer : Bool → ℕ → Primitives
  bytes : Bytes → Primitives
  text : Str → Primitives

-- The decimal digits of a magnitude as ASCII; the fuel is the magnitude, and a digit takes one.
unfoldable pub decimal : ℕ → ℕ → Bytes → Bytes
decimal zero n acc = (48 + n % 10) ∷ acc
decimal (suc fuel) n acc =
    let more = decimal fuel (n / 10) ((48 + n % 10) ∷ acc) in
    if ltb n 10 then (48 + n) ∷ acc else more

unfoldable pub primitive : Primitives → Result Bytes
unfolding decimal encode_latin1
primitive (integer true n) = ok (45 ∷ decimal n n [])
primitive (integer false n) = ok (decimal n n [])
primitive (bytes b) = ok b
primitive (text s) = encode_latin1 s

unfoldable pub convert_to_length_format : List Bytes → Result Bytes
convert_to_length_format [] = ok []
convert_to_length_format (arg ∷ args) = do
  size ← pack_u32 (length arg)
  rest ← convert_to_length_format args
  ok (size ++ rest)
