-- ===== src/Base/Dict.antt =====
-- A Python dict, keyed by byte strings (or text), in insertion order.
pub mod Append
use mathlib.Core.Path.{◌≡◌, refl}
use mathlib.Core.Bool.{Bool, true, false}
use mathlib.Core.Option.{Option, none, some}
use mathlib.Core.List.{List, [], ◌∷◌}
use native.Mathlib.Omega.{arith}
use pipebomb.Base.Tests.{Bytes, eq_bytes, eq_bytes_iff, if◌then◌else◌}

abbrev pub Dict {ℓ} : Type ℓ → Type ℓ
Dict V = List (Bytes × V)

module _ {ℓ} {V : Type ℓ} where
  -- `d.get(k)`
  unfoldable pub lookup : Bytes → Dict V → Option V
  lookup k [] = none
  lookup k ((j, v) ∷ d) = if eq_bytes j k then some v else lookup k d

  abbrev pub is_some : Option V → Bool
  is_some none = false
  is_some (some v) = true

  -- `k in d`
  abbrev pub contains : Bytes → Dict V → Bool
  contains k d = is_some (lookup k d)

  -- `d[k] = v`: a new key goes to the end, an old one keeps its place.
  unfoldable pub insert : Bytes → V → Dict V → Dict V
  insert k v [] = (k, v) ∷ []
  insert k v ((j, w) ∷ d) = if eq_bytes j k then (j, v) ∷ d else (j, w) ∷ insert k v d

  -- `del d[k]` where `k` is there; nothing changes where it is not.
  unfoldable pub erase : Bytes → Dict V → Dict V
  erase k [] = []
  erase k ((j, w) ∷ d) = if eq_bytes j k then d else (j, w) ∷ erase k d

  -- No key stands twice.
  abbrev pub IsDict : Dict V → Type ℓ
  IsDict [] = Unit {ℓ}
  IsDict ((k, v) ∷ d) = (lookup k d ≡ none) × IsDict d

module _ {ℓ} {V : Type ℓ} where
  pub lookup-insert :
      (k j : Bytes) (v : V) (d : Dict V)
      → lookup j (insert k v d) ≡ (if eq_bytes k j then some v else lookup j d)
  unfolding lookup insert
  lookup-insert k j v [] = ground (arith, eq_bytes_iff k j)
  lookup-insert k j v ((i, w) ∷ d) =
      ground (arith, eq_bytes_iff k j, eq_bytes_iff i k, eq_bytes_iff i j, lookup-insert k j v d)

  pub lookup-erase :
      (k j : Bytes) (d : Dict V)
      → IsDict d
      → lookup j (erase k d) ≡ (if eq_bytes k j then none else lookup j d)
  unfolding lookup erase
  lookup-erase k j [] h = ground arith
  lookup-erase k j ((i, w) ∷ d) h =
      ground (arith, eq_bytes_iff k j, eq_bytes_iff i k, eq_bytes_iff i j, lookup-erase k j d h.1)

  lookup-insert-none :
      (k j : Bytes) (v : V) (d : Dict V)
      → eq_bytes k j ≡ false
      → lookup j d ≡ none
      → lookup j (insert k v d) ≡ none
  lookup-insert-none k j v d ne h = ground (arith, lookup-insert k j v d)

  pub insert-IsDict : (k : Bytes) (v : V) (d : Dict V) → IsDict d → IsDict (insert k v d)
  unfolding insert lookup
  insert-IsDict k v [] h = (refl, tt)
  insert-IsDict k v ((i, w) ∷ d) h = ground (
    arith,
    eq_bytes_iff i k,
    eq_bytes_iff k i,
    lookup-insert-none k i v d,
    insert-IsDict k v d h.1,
  )

  pub erase-IsDict : (k : Bytes) (d : Dict V) → IsDict d → IsDict (erase k d)
  unfolding erase
  erase-IsDict k [] h = tt
  erase-IsDict k ((i, w) ∷ d) h = ground (arith, lookup-erase k i d h.1, erase-IsDict k d h.1)
