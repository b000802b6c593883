-- ===== src/Archive/Fuel.antt =====
-- The loops `while cursor < len(value)` of `deserialize` in pipebomb/server.py come to their end.
use pipebomb.Base.{
  Bytes, ℕ, zero, suc, ◌+◌, ◌≤◌, [], ◌∷◌, ◌≡◌, refl, ap, inl, inr, length, take, drop, length-drop,
  arith,
}
use pipebomb.Base.Result.{Result, ok, ◌>>=◌, came-through, Result-cases}
use pipebomb.Archive.Read.{unpack_from, take_block, read_items, take_request, take_response}

-- Reading an item takes its packed lengths off the value, which is four bytes at least.
abbrev pub IsShrinking : {A : Type 0} → (Bytes → Result (A × Bytes)) → Type 0
IsShrinking {A} item =
    (rest behind : Bytes) (a : A) → item rest ≡ ok (a, behind) → length behind + 4 ≤ length rest

take_block-IsShrinking : IsShrinking take_block
unfolding take_block unpack_from
take_block-IsShrinking rest behind b came =
    let (size, found, e) =
      came-through (unpack_from rest 0)
        (λ size. ok (take size (drop 4 rest), drop size (drop 4 rest))) came in
    ground (arith, length-drop 4 rest, length-drop size (drop 4 rest))

take_request-IsShrinking : IsShrinking take_request
unfolding take_request
take_request-IsShrinking r0 behind request came =
    let ((a, r1), e1, c1) = came-through (take_block r0) _ came in
    let ((b, r2), e2, c2) = came-through (take_block r1) _ c1 in
    let ((c, r3), e3, c3) = came-through (take_block r2) _ c2 in
    let ((d, r4), e4, c4) = came-through (take_block r3) _ c3 in
    ground (
      arith,
      take_block-IsShrinking r0 r1 a e1,
      take_block-IsShrinking r1 r2 b e2,
      take_block-IsShrinking r2 r3 c e3,
      take_block-IsShrinking r3 r4 d e4,
    )

take_response-IsShrinking : IsShrinking take_response
unfolding take_response
take_response-IsShrinking r0 behind response came =
    let ((a, r1), e1, c1) = came-through (take_block r0) _ came in
    let ((b, r2), e2, c2) = came-through (take_block r1) _ c1 in
    let ((c, r3), e3, c3) = came-through (take_block r2) _ c2 in
    ground (
      arith,
      take_block-IsShrinking r0 r1 a e1,
      take_block-IsShrinking r1 r2 b e2,
      take_block-IsShrinking r2 r3 c e3,
    )

module _ {A : Type 0} (item : Bytes → Result (A × Bytes)) (shrinks : IsShrinking item) where
  read_items-enough :
      (n m : ℕ) (rest : Bytes)
      → length rest ≤ n
      → length rest ≤ m
      → read_items item n rest ≡ read_items item m rest
  unfolding read_items
  read_items-enough zero zero rest hn hm = refl
  read_items-enough zero (suc m) [] hn hm = refl
  read_items-enough zero (suc m) (b ∷ rest) hn hm = absurd (omega arith)
  read_items-enough (suc n) zero [] hn hm = refl
  read_items-enough (suc n) zero (b ∷ rest) hn hm = absurd (omega arith)
  read_items-enough (suc n) (suc m) [] hn hm = refl
  read_items-enough (suc n) (suc m) (b ∷ rest) hn hm = elim (Result-cases (item (b ∷ rest))) [
    | inl (e, raised) ↦ rw raised refl
    | inr ((first, behind), came) ↦
        let less = shrinks (b ∷ rest) behind first came in
        rw came (
          ap (λ r. r >>= λ others. ok (first ∷ others))
            (read_items-enough n m behind (omega arith) (omega arith)))
  ]

-- The three loops of the fields of a session give the same with any fuel that is no less than the
-- bytes of the value, so that none of them is cut short.
pub items-enough :
    (n m : ℕ) (rest : Bytes)
    → length rest ≤ n
    → length rest ≤ m
    → (read_items take_block n rest ≡ read_items take_block m rest)
      × (read_items take_request n rest ≡ read_items take_request m rest)
      × (read_items take_response n rest ≡ read_items take_response m rest)
items-enough n m rest hn hm = (
  read_items-enough take_block take_block-IsShrinking n m rest hn hm,
  read_items-enough take_request take_request-IsShrinking n m rest hn hm,
  read_items-enough take_response take_response-IsShrinking n m rest hn hm,
)
