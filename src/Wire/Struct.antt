-- ===== src/Wire/Struct.antt =====
-- Numbers as bytes: `struct.pack(">I", n)`, `struct.unpack`, `int.to_bytes` and `int.from_bytes`,
-- in the form in which pipebomb/utils.py, pipebomb/client.py and pipebomb/server.py call them.
pub mod Laws
use pipebomb.Base.{
  Bytes, ℕ, zero, suc, ◌+◌, ◌*◌, ◌/◌, ◌%◌, ◌^◌, List, [], ◌∷◌, ◌++◌, ltb, ◌==◌, if◌then◌else◌,
  length, slice,
}
use pipebomb.Base.Result.{Result, ok, err, struct_error, overflow_error}
use mathlib.Core.List.{foldl}

-- The lowest `k` digits to the base 256, the highest first and the lowest first.
unfoldable pub be_digits : ℕ → ℕ → Bytes
be_digits zero n = []
be_digits (suc k) n = be_digits k (n / 256) ++ (n % 256 ∷ [])

unfoldable pub le_digits : ℕ → ℕ → Bytes
le_digits zero n = []
le_digits (suc k) n = n % 256 ∷ le_digits k (n / 256)

-- `int.from_bytes(b, "big")`
unfoldable pub from_bytes : Bytes → ℕ
from_bytes = foldl (λ acc b. acc * 256 + b) 0

-- `n.to_bytes(k, "big")` and `n.to_bytes(k, "little")`
unfoldable pub to_bytes_big : ℕ → ℕ → Result Bytes
unfolding be_digits
to_bytes_big k n = if ltb n (256 ^ k) then ok (be_digits k n) else err overflow_error

unfoldable pub to_bytes_little : ℕ → ℕ → Result Bytes
unfolding le_digits
to_bytes_little k n = if ltb n (256 ^ k) then ok (le_digits k n) else err overflow_error

abbrev pub u32_limit : ℕ
u32_limit = 4294967296

-- `struct.pack(">I", n)`
unfoldable pub pack_u32 : ℕ → Result Bytes
unfolding be_digits
pack_u32 n = if ltb n u32_limit then ok (be_digits 4 n) else err struct_error

-- The i-th big-endian word of a buffer.
unfoldable pub word : ℕ → Bytes → ℕ
unfolding from_bytes slice
word i b = from_bytes (slice (4 * i) (4 * i + 4) b)

-- `struct.unpack` of one to four words: it raises unless the buffer has just that size.
unfoldable pub unpack_u32 : Bytes → Result ℕ
unfolding word
unpack_u32 b = if length b == 4 then ok (word 0 b) else err struct_error

unfoldable pub unpack_2 : Bytes → Result (ℕ × ℕ)
unfolding word
unpack_2 b = if length b == 8 then ok (word 0 b, word 1 b) else err struct_error

unfoldable pub unpack_3 : Bytes → Result (ℕ × ℕ × ℕ)
unfolding word
unpack_3 b = if length b == 12 then ok (word 0 b, word 1 b, word 2 b) else err struct_error

unfoldable pub unpack_4 : Bytes → Result (ℕ × ℕ × ℕ × ℕ)
unfolding word
unpack_4 b =
    if length b == 16 then ok (word 0 b, word 1 b, word 2 b, word 3 b) else err struct_error
