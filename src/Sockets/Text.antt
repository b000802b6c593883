-- ===== src/Sockets/Text.antt =====
-- The text of an address says which it is: `parse_address` of pipebomb/impl.py.
use pipebomb.Base.{
  Bytes, Str, ℕ, zero, suc, ◌+◌, ◌*◌, ◌-◌, ◌/◌, ◌%◌, ◌≤◌, [], ◌∷◌, ◌++◌, ◌≡◌, ◌≢◌, refl, sym, ap,
  ◌∙◌, ltb, All, arith, Bool-cases, inl, inr,
}
use pipebomb.Client.Primitive.{decimal}
use pipebomb.Sockets.Factories.{inet, parse_address}

-- The number that decimal digits stand for, behind a number.
int_of : Bytes → ℕ → ℕ
int_of [] n = n
int_of (d ∷ digits) n = int_of digits (n * 10 + (d - 48))

int_of-decimal :
    (fuel n : ℕ) (acc : Bytes) → n ≤ fuel → int_of (decimal fuel n acc) 0 ≡ int_of acc n
unfolding decimal int_of
int_of-decimal zero n acc le = ap (int_of acc) (omega arith)
int_of-decimal (suc fuel) n acc le = elim (Bool-cases (ltb n 10)) [
  | inl small ↦ rw small (ap (int_of acc) (omega arith))
  | inr large ↦
      let less : n / 10 ≤ fuel = ground arith in
      rw large
        (int_of-decimal fuel (n / 10) ((48 + n % 10) ∷ acc) less ∙ ap (int_of acc) (omega arith))
]

abbrev IsPlain : Bytes → Type 0
IsPlain = All (λ b. b ≢ 58)

decimal-IsPlain : (fuel n : ℕ) (acc : Bytes) → IsPlain acc → IsPlain (decimal fuel n acc)
unfolding decimal
decimal-IsPlain zero n acc h = ((λ e. omega (arith, e)), h)
decimal-IsPlain (suc fuel) n acc h = elim (Bool-cases (ltb n 10)) [
  | inl small ↦ rw small ((λ e. ground (arith, e)), h)
  | inr large ↦
      rw large (decimal-IsPlain fuel (n / 10) ((48 + n % 10) ∷ acc) ((λ e. omega (arith, e)), h))
]

colon_within : (xs ys : Bytes) → ¬ IsPlain (xs ++ (58 ∷ ys))
colon_within [] ys h = h.0 refl
colon_within (x ∷ xs) ys h = colon_within xs ys h.1

-- The last colon splits a text in one way.
last_colon :
    (xs ys ds es : Bytes)
    → IsPlain ds
    → IsPlain es
    → xs ++ (58 ∷ ds) ≡ ys ++ (58 ∷ es)
    → (xs ≡ ys) × (ds ≡ es)
last_colon [] [] ds es hd he e = (refl, cc e)
last_colon [] (y ∷ ys) ds es hd he e =
    let tail : ds ≡ ys ++ (58 ∷ es) = cc e in absurd (colon_within ys es (rw tail at hd))
last_colon (x ∷ xs) [] ds es hd he e =
    let tail : es ≡ xs ++ (58 ∷ ds) = cc e in absurd (colon_within xs ds (rw tail at he))
last_colon (x ∷ xs) (y ∷ ys) ds es hd he e =
    let head : x ≡ y = cc e in
    let tail : xs ++ (58 ∷ ds) ≡ ys ++ (58 ∷ es) = cc e in
    let (fronts, backs) = last_colon xs ys ds es hd he tail in (cc (head, fronts), backs)

-- Two addresses of host and port with the same text are the same.
pub parse_address-injective :
    (host other : Str) (port number : ℕ)
    → parse_address (inet host port) ≡ parse_address (inet other number)
    → (host ≡ other) × (port ≡ number)
unfolding parse_address int_of
parse_address-injective host other port number e =
    let (hosts, digits) =
      last_colon host other (decimal port port []) (decimal number number [])
        (decimal-IsPlain port port [] tt) (decimal-IsPlain number number [] tt) e in
    (
      hosts,
      sym (int_of-decimal port port [] (omega arith))
          ∙ ap (λ d. int_of d 0) digits
          ∙ int_of-decimal number number [] (omega arith),
    )
