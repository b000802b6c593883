-- ===== src/Tests/Mapping.antt =====
-- The theorems about the mapping methods at a concrete table.
use pipebomb.Base.{[], ◌∷◌, ◌≡◌, refl, false, some, eq_bytes}
use pipebomb.Base.Result.{err, key_error}
use pipebomb.Base.Dict.{lookup}
use pipebomb.Server.Mapping.{Table, getitem, delitem, IsStuck, missing_item-IsStuck}

abbrev table : Table
table = record { held = false; db = ((7 ∷ []), (1 ∷ [])) ∷ [] }

missing_item-IsStuck_example :
    ((getitem (9 ∷ []) table).0 ≡ some (err key_error))
    × IsStuck (getitem (9 ∷ []) table).1
    × ((delitem (9 ∷ []) table).0 ≡ some (err key_error))
    × IsStuck (delitem (9 ∷ []) table).1
unfolding lookup eq_bytes
missing_item-IsStuck_example = missing_item-IsStuck (9 ∷ []) table refl refl
