-- ===== src/Archive/Blocks.antt =====
-- Byte strings behind their packed lengths, and sequences of items made of them, are read back from
-- the front of what they stand in.
use pipebomb.Base.{
  Bytes, ℕ, zero, suc, ◌+◌, ◌≤◌, ◌<◌, List, [], ◌∷◌, ◌++◌, ◌≡◌, refl, ap, ◌∙◌, map, length, concat,
  slice, All, length-append, append_assoc, take-append_left, drop-append_left, slice-at, arith,
}
use pipebomb.Base.Result.{Result, ok, ◌>>=◌}
use pipebomb.Wire.Struct.{be_digits, u32_limit, from_bytes, pack_u32}
use pipebomb.Wire.Struct.Laws.{length-be_digits}
use pipebomb.Archive.Read.{unpack_from, take_block, read_items}
use pipebomb.Archive.Write.{block}

from_bytes-be_digits : (n : ℕ) → n < u32_limit → from_bytes (be_digits 4 n) ≡ n
unfolding from_bytes be_digits
from_bytes-be_digits n h = omega arith

-- A packed number is read at the place where it stands.
pub unpack_from-packed :
    (front : Bytes) (n k : ℕ) (rest : Bytes)
    → n < u32_limit
    → k ≡ length front
    → unpack_from (front ++ (be_digits 4 n ++ rest)) k ≡ ok n
unfolding unpack_from
unpack_from-packed front n k rest h at_front =
    let sized = length-be_digits 4 n in
    let cut : slice k (k + 4) (front ++ (be_digits 4 n ++ rest)) ≡ be_digits 4 n =
      slice-at k (k + 4) _ front (be_digits 4 n) rest refl at_front (omega arith) in
    rw (cut, from_bytes-be_digits n h)
      (ground
        (arith, length-append front (be_digits 4 n ++ rest), length-append (be_digits 4 n) rest))

-- The same of a buffer that is such a front part, number and rest.
pub unpack_from-at :
    (whole front : Bytes) (n k : ℕ) (rest : Bytes)
    → whole ≡ front ++ (be_digits 4 n ++ rest)
    → n < u32_limit
    → k ≡ length front
    → unpack_from whole k ≡ ok n
unpack_from-at whole front n k rest e h at_front =
    ap (λ w. unpack_from w k) e ∙ unpack_from-packed front n k rest h at_front

-- A byte string behind its length.
abbrev pub block_of : Bytes → Bytes
block_of b = be_digits 4 (length b) ++ b

abbrev pub Fits : Bytes → Type 0
Fits b = length b < u32_limit

pub block-eq-ok :
    (b : Bytes) {packed : Bytes} → block b ≡ ok packed → (packed ≡ block_of b) × Fits b
unfolding block pack_u32
block-eq-ok b h = ground arith

pub take_block-block : (b rest : Bytes) → Fits b → take_block (block_of b ++ rest) ≡ ok (b, rest)
unfolding take_block
take_block-block b rest h =
    let sized = length-be_digits 4 (length b) in
    rw (append_assoc (be_digits 4 (length b)) b rest) (
      rw (unpack_from-packed [] (length b) 0 (b ++ rest) h refl) (
        rw (drop-append_left 4 (be_digits 4 (length b)) (b ++ rest) (omega arith))
          (rw (take-append_left (length b) b rest refl, drop-append_left (length b) b rest refl))))

read_items_step :
    {A : Type 0} (item : Bytes → Result (A × Bytes)) (fuel : ℕ) (b : Bytes) {a : A} {rest : Bytes}
    → item b ≡ ok (a, rest)
    → 1 ≤ length b
    → read_items item (suc fuel) b ≡ (read_items item fuel rest >>= λ others. ok (a ∷ others))
unfolding read_items
read_items_step item fuel [] e h = absurd (omega arith)
read_items_step item fuel (x ∷ b) e h = rw e

-- A loop that reads items reads back the items that were packed one behind the other, with fuel for
-- as many bytes as there are.
pub read_items-concat :
    {A : Type 0} (pack : A → Bytes) (P : A → Type 0) (item : Bytes → Result (A × Bytes))
    → ((a : A) (rest : Bytes) → P a → item (pack a ++ rest) ≡ ok (a, rest))
    → ((a : A) → 1 ≤ length (pack a))
    → (xs : List A) (fuel : ℕ) → All P xs
    → length (concat (map pack xs)) ≤ fuel
    → read_items item fuel (concat (map pack xs)) ≡ ok xs
unfolding read_items
read_items-concat pack P item back long [] zero fits enough = refl
read_items-concat pack P item back long [] (suc fuel) fits enough = refl
read_items-concat pack P item back long (x ∷ xs) zero fits enough =
    absurd (omega (arith, long x, length-append (pack x) (concat (map pack xs))))
read_items-concat pack P item back long (x ∷ xs) (suc fuel) fits enough =
    let tail = concat (map pack xs) in
    let more =
      read_items-concat pack P item back long xs fuel fits.1
        (omega (arith, enough, long x, length-append (pack x) tail)) in
    read_items_step item fuel (pack x ++ tail) (back x tail fits.0)
      (omega (arith, long x, length-append (pack x) tail))
    ∙ rw more
