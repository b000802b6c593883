-- ===== src/Base/Result.antt =====
-- Python's exceptions as values, for the code that may raise.
use mathlib.Core.Path.{◌≡◌, refl}
use mathlib.Core.Logic.{◌⊎◌, inl, inr}

-- The classes of exceptions that the modelled code raises; their messages are left out.
pub data Exn : Type 0 where
  struct_error overflow_error key_error value_error runtime_error : Exn
  type_error attribute_error unicode_error index_error zstd_error import_error : Exn
  file_not_found_error os_error : Exn

pub data Result {ℓ} (A : Type ℓ) : Type ℓ where
  ok : A → Result A
  err : Exn → Result A

infixl 5 ◌>>=◌
abbrev pub ◌>>=◌ {ℓ κ} : {A : Type ℓ} {B : Type κ} → Result A → (A → Result B) → Result B
ok a >>= f = f a
err e >>= f = err e

pub Result-cases {ℓ} :
    {A : Type ℓ} (r : Result A) → ((e : Exn) × (r ≡ err e)) ⊎ ((a : A) × (r ≡ ok a))
Result-cases (ok a) = inr (a, refl)
Result-cases (err e) = inl (e, refl)

-- A chain that came through has a first step that did.
pub came-through {ℓ} :
    {A B : Type ℓ} (first : Result A) (next : A → Result B) {end : B}
    → (first >>= next) ≡ ok end
    → (value : A) × (first ≡ ok value) × (next value ≡ ok end)
came-through (err e) next came = cc
came-through (ok value) next came = (value, refl, came)
