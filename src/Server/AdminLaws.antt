-- ===== src/Server/AdminLaws.antt =====
-- The methods of `Admin` against the invariant of the address book.
use pipebomb.Base.{Str, ◌≡◌, refl, none, some, length, eq_bytes_refl, arith}
use pipebomb.Base.Result.{ok, err, value_error}
use pipebomb.Base.Dict.{lookup, insert, lookup-insert}
use pipebomb.Server.State.{Client, Server}
use pipebomb.Server.Admin.{add_key}
use pipebomb.Server.Registry.{IsConsistent, registered, registered-IsConsistent}

add_key-registered :
    (key uuid : Str) (client : Client) (s : Server)
    → length uuid ≡ 36
    → lookup key s.address_book ≡ none
    → lookup uuid s.client_db ≡ some client
    → add_key key uuid s ≡ (ok tt, registered uuid key client s)
unfolding add_key
add_key-registered key uuid client s sized free found = rw (sized, free, found)

-- A session that is there, and a key that is free: `add_key` succeeds and keeps the invariant.
pub add_key-IsConsistent :
    (key uuid : Str) (client : Client) (s : Server)
    → length uuid ≡ 36
    → lookup key s.address_book ≡ none
    → lookup uuid s.client_db ≡ some client
    → IsConsistent s
    → ((add_key key uuid s).0 ≡ ok tt) × IsConsistent (add_key key uuid s).1
add_key-IsConsistent key uuid client s sized free found h =
    rw (add_key-registered key uuid client s sized free found)
      (refl, registered-IsConsistent uuid key client s found h free)

add_key-left :
    (key uuid : Str) (s : Server)
    → length uuid ≡ 36
    → lookup key s.address_book ≡ none
    → lookup uuid s.client_db ≡ none
    → add_key key uuid s
      ≡ (err value_error, record s { address_book = insert key uuid s.address_book })
unfolding add_key
add_key-left key uuid s sized free missing = rw (sized, free, missing)

-- For a key that is free and a UUID of 36 characters that no session has, `add_key` raises a
-- ValueError, and the key stays in the book under that UUID, so that the invariant is broken.
pub add_key-breaks :
    (key uuid : Str) (s : Server)
    → length uuid ≡ 36
    → lookup key s.address_book ≡ none
    → lookup uuid s.client_db ≡ none
    → ((add_key key uuid s).0 ≡ err value_error)
      × (lookup key (add_key key uuid s).1.address_book ≡ some uuid)
      × ¬ IsConsistent (add_key key uuid s).1
add_key-breaks key uuid s sized free missing =
    let kept = lookup-insert key key uuid s.address_book in
    let same = eq_bytes_refl key in
    rw (add_key-left key uuid s sized free missing) (
      refl,
      ground (arith, kept, same),
      λ h. ground (arith, h.agree uuid key, missing, kept, same, eq_bytes_refl uuid),
    )
