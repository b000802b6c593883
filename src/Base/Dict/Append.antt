-- ===== src/Base/Dict/Append.antt =====
-- A dict that is filled in insertion order: what is at its end, and what comes behind it.
use mathlib.Core.Path.{◌≡◌, refl}
use mathlib.Core.Bool.{false}
use mathlib.Core.Option.{none, some}
use mathlib.Core.List.{[], ◌∷◌, ◌++◌}
use native.Mathlib.Omega.{arith}
use pipebomb.Base.Tests.{Bytes, eq_bytes, eq_bytes_iff, eq_bytes_refl}
use pipebomb.Base.Dict.{Dict, lookup, insert, IsDict}

module _ {ℓ} {V : Type ℓ} where
  -- A key that comes behind is another key.
  lookup-ne :
      (j k : Bytes) (v : V) (d rest : Dict V)
      → lookup j (d ++ ((k, v) ∷ rest)) ≡ none
      → eq_bytes j k ≡ false
  unfolding lookup
  lookup-ne j k v [] rest h = ground (arith, eq_bytes_iff j k, eq_bytes_iff k j)
  lookup-ne j k v ((i, w) ∷ d) rest h = ground (arith, lookup-ne j k v d rest)

  pub IsDict-fresh :
      (k : Bytes) (v : V) (d rest : Dict V) → IsDict (d ++ ((k, v) ∷ rest)) → lookup k d ≡ none
  unfolding lookup
  IsDict-fresh k v [] rest h = refl
  IsDict-fresh k v ((j, w) ∷ d) rest h =
      ground (arith, lookup-ne j k v d rest h.0, IsDict-fresh k v d rest h.1)

  pub insert-append_fresh :
      (k : Bytes) (v : V) (d : Dict V) → lookup k d ≡ none → insert k v d ≡ d ++ ((k, v) ∷ [])
  unfolding lookup insert
  insert-append_fresh k v [] h = refl
  insert-append_fresh k v ((j, w) ∷ d) h = ground (arith, insert-append_fresh k v d)

  -- The entry at the end is found, and written over in place.
  pub lookup-append_last :
      (k : Bytes) (v : V) (d : Dict V) → lookup k d ≡ none → lookup k (d ++ ((k, v) ∷ [])) ≡ some v
  unfolding lookup
  lookup-append_last k v [] h = ground (arith, eq_bytes_refl k)
  lookup-append_last k v ((j, w) ∷ d) h = ground (arith, lookup-append_last k v d)

  pub insert-append_last :
      (k : Bytes) (v w : V) (d : Dict V)
      → lookup k d ≡ none
      → insert k w (d ++ ((k, v) ∷ [])) ≡ d ++ ((k, w) ∷ [])
  unfolding lookup insert
  insert-append_last k v w [] h = ground (arith, eq_bytes_refl k)
  insert-append_last k v w ((j, u) ∷ d) h = ground (arith, insert-append_last k v w d)
