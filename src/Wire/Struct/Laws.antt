-- ===== src/Wire/Struct/Laws.antt =====
-- Packing and unpacking undo each other, and the fixed sizes.
use pipebomb.Base.{
  Bytes, ℕ, zero, suc, ◌/◌, ◌%◌, ◌^◌, ◌<◌, [], ◌∷◌, ◌++◌, ◌≡◌, refl, length, length-append, take,
  arith, ap, ◌∙◌,
}
use pipebomb.Base.Result.{ok}
use pipebomb.Wire.Struct.{
  be_digits, le_digits, u32_limit, pack_u32, word, unpack_u32, unpack_2, unpack_3, unpack_4,
}

pub length-be_digits : (k n : ℕ) → length (be_digits k n) ≡ k
unfolding be_digits
length-be_digits zero n = refl
length-be_digits (suc k) n =
    length-append (be_digits k (n / 256)) (n % 256 ∷ [])
    ∙ omega (arith, length-be_digits k (n / 256))

pub length-le_digits : (k n : ℕ) → length (le_digits k n) ≡ k
unfolding le_digits
length-le_digits zero n = refl
length-le_digits (suc k) n = ap suc (length-le_digits k (n / 256))

-- Numbers that fit `k` bytes have different digits.
pub le_digits-injective :
    (k m n : ℕ) → m < 256 ^ k → n < 256 ^ k → le_digits k m ≡ le_digits k n → m ≡ n
unfolding le_digits
le_digits-injective zero m n hm hn e = omega arith
le_digits-injective (suc k) m n hm hn e =
    ground (arith, le_digits-injective k (m / 256) (n / 256) (omega arith) (omega arith))

pub pack_u32-fits : (n : ℕ) → n < u32_limit → pack_u32 n ≡ ok (be_digits 4 n)
unfolding pack_u32
pack_u32-fits n h = ground arith

-- What one to four packed words are read back as.
pub unpack_u32-packed : (a : ℕ) → a < u32_limit → unpack_u32 (be_digits 4 a) ≡ ok a
unfolding unpack_u32 be_digits
unpack_u32-packed a ha = ap ok (omega arith)

pub unpack_2-packed :
    (a b : ℕ) (rest : Bytes)
    → a < u32_limit
    → b < u32_limit
    → unpack_2 (take 8 (be_digits 4 a ++ (be_digits 4 b ++ rest))) ≡ ok (a, b)
unfolding unpack_2 be_digits
unpack_2-packed a b rest ha hb = ap ok (λ i. (ea i, eb i))
  where
    ea : word 0 (be_digits 4 a) ≡ a
    ea = omega arith

    eb : word 0 (be_digits 4 b) ≡ b
    eb = omega arith

pub unpack_3-packed :
    (a b c : ℕ) (rest : Bytes)
    → a < u32_limit
    → b < u32_limit
    → c < u32_limit
    → unpack_3 (take 12 (be_digits 4 a ++ (be_digits 4 b ++ (be_digits 4 c ++ rest))))
      ≡ ok (a, b, c)
unfolding unpack_3 be_digits
unpack_3-packed a b c rest ha hb hc = ap ok (λ i. (e a ha i, e b hb i, e c hc i))
  where
    e : (n : ℕ) → n < u32_limit → word 0 (be_digits 4 n) ≡ n
    e n h = omega arith

pub unpack_4-packed :
    (a b c d : ℕ) (rest : Bytes)
    → a < u32_limit
    → b < u32_limit
    → c < u32_limit
    → d < u32_limit
    → unpack_4
        (take 16 (be_digits 4 a ++ (be_digits 4 b ++ (be_digits 4 c ++ (be_digits 4 d ++ rest)))))
      ≡ ok (a, b, c, d)
unfolding unpack_4 be_digits
unpack_4-packed a b c d rest ha hb hc hd = ap ok (λ i. (e a ha i, e b hb i, e c hc i, e d hd i))
  where
    e : (n : ℕ) → n < u32_limit → word 0 (be_digits 4 n) ≡ n
    e n h = omega arith
