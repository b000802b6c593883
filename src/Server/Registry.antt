-- ===== src/Server/Registry.antt =====
-- The invariant of the address book of pipebomb/server.py, and what REGISTER and UNREGISTER do to it
-- as changes of the state.
use pipebomb.Base.{
  Str, List, [], ◌∷◌, ◌++◌, ◌≡◌, refl, Bool, true, false, ◌||◌, Option, none, some, if◌then◌else◌,
  eq_bytes, eq_bytes_iff, arith, Option-cases, inl, inr,
}
use pipebomb.Base.Dict.{
  IsDict, lookup, insert, erase, lookup-insert, lookup-erase, insert-IsDict, erase-IsDict,
}
use pipebomb.Server.State.{Client, Server}
use pipebomb.Server.Requests.{elem, remove_first}
use pipebomb.Server.Addresses.{owned_of, SameAddresses}

-- No address stands twice in a list.
abbrev pub IsOnce : List Str → Type 0
IsOnce [] = Unit
IsOnce (a ∷ xs) = (elem a xs ≡ false) × IsOnce xs

abbrev IsOnceIn : Option (List Str) → Type 0
IsOnceIn none = Unit
IsOnceIn (some xs) = IsOnce xs

abbrev owns_in : Option (List Str) → Str → Bool
owns_in none a = false
owns_in (some xs) a = elem a xs

abbrev pub is_owner : Option Str → Str → Bool
is_owner none uuid = false
is_owner (some owner) uuid = eq_bytes owner uuid

-- The session of that UUID has the address among its own; the address book gives the address to it.
abbrev pub owns : Str → Str → Server → Bool
owns uuid a s = owns_in (owned_of uuid s) a

abbrev pub booked : Str → Str → Server → Bool
booked uuid a s = is_owner (lookup a s.address_book) uuid

-- The two tables agree: an address is in the book under a UUID exactly when that UUID's session is
-- there and owns it; and a session owns an address once.
pub record IsConsistent (s : Server) : Type 0 where
  pub books : IsDict s.address_book
  pub clients : IsDict s.client_db
  pub once : (uuid : Str) → IsOnceIn (owned_of uuid s)
  pub agree : (uuid a : Str) → owns uuid a s ≡ booked uuid a s

pub SameAddresses-IsConsistent :
    {s t : Server} → SameAddresses s t → IsConsistent s → IsConsistent t
SameAddresses-IsConsistent same h = record {
  books = rw same.book h.books;
  clients = same.clients h.clients;
  once = λ uuid. rw (same.owned uuid) (h.once uuid);
  agree = λ uuid a. rw (same.owned uuid, same.book) (h.agree uuid a);
}

elem-append_one :
    (a v : Str) (xs : List Str) → elem a (xs ++ (v ∷ [])) ≡ (elem a xs || eq_bytes v a)
unfolding elem
elem-append_one a v [] = ground arith
elem-append_one a v (x ∷ xs) = ground (arith, elem-append_one a v xs)

append_one-IsOnce :
    (v : Str) (xs : List Str) → IsOnce xs → elem v xs ≡ false → IsOnce (xs ++ (v ∷ []))
unfolding elem
append_one-IsOnce v [] h new = (refl, tt)
append_one-IsOnce v (x ∷ xs) h new =
    ground (
      arith,
      elem-append_one x v xs,
      eq_bytes_iff v x,
      eq_bytes_iff x v,
      append_one-IsOnce v xs h.1,
    )

elem-remove_first :
    (a v : Str) (xs : List Str)
    → IsOnce xs
    → elem a (remove_first v xs) ≡ (if eq_bytes v a then false else elem a xs)
unfolding elem remove_first
elem-remove_first a v [] h = ground arith
elem-remove_first a v (x ∷ xs) h =
    ground
      (arith, eq_bytes_iff x v, eq_bytes_iff x a, eq_bytes_iff v a, elem-remove_first a v xs h.1)

remove_first-IsOnce : (v : Str) (xs : List Str) → IsOnce xs → IsOnce (remove_first v xs)
unfolding remove_first
remove_first-IsOnce v [] h = tt
remove_first-IsOnce v (x ∷ xs) h =
    ground (arith, elem-remove_first x v xs h.1, remove_first-IsOnce v xs h.1)

-- The states that REGISTER and UNREGISTER leave.
abbrev pub registered : Str → Str → Client → Server → Server
registered uuid value client s =
    let owned = client.addresses_owned ++ (value ∷ []) in
    record s {
      client_db = insert uuid (record client { addresses_owned = owned }) s.client_db;
      address_book = insert value uuid s.address_book;
    }

abbrev pub unregistered : Str → Str → Client → Server → Server
unregistered uuid value client s =
    let owned = remove_first value client.addresses_owned in
    record s {
      client_db = insert uuid (record client { addresses_owned = owned }) s.client_db;
      address_book = erase value s.address_book;
    }

module _ (uuid value : Str) (client : Client) (s : Server)
    (found : lookup uuid s.client_db ≡ some client) (h : IsConsistent s) where
  owned-IsOnce : IsOnce client.addresses_owned
  owned-IsOnce = ground (arith, h.once uuid)

  pub registered-IsConsistent :
      lookup value s.address_book ≡ none → IsConsistent (registered uuid value client s)
  registered-IsConsistent free =
      let owned = client.addresses_owned ++ (value ∷ []) in
      let client' : Client = record client { addresses_owned = owned } in
      record {
        books = insert-IsDict value uuid s.address_book h.books;
        clients = insert-IsDict uuid client' s.client_db h.clients;
        once = λ u. ground (
          arith,
          lookup-insert uuid u client' s.client_db,
          h.once u,
          h.agree uuid value,
          append_one-IsOnce value client.addresses_owned owned-IsOnce,
        );
        agree = λ u a. ground (
          arith,
          lookup-insert uuid u client' s.client_db,
          lookup-insert value a uuid s.address_book,
          elem-append_one a value client.addresses_owned,
          h.agree u a,
          h.agree u value,
          eq_bytes_iff uuid u,
          eq_bytes_iff value a,
        );
      }

  -- What a session owns is in the book.
  pub owned-booked :
      elem value client.addresses_owned ≡ true → lookup value s.address_book ≡ some uuid
  owned-booked owned = elim (Option-cases (lookup value s.address_book)) [
    | inl missing ↦ absurd (ground (arith, h.agree uuid value))
    | inr (owner, e) ↦ ground (arith, h.agree uuid value, eq_bytes_iff owner uuid)
  ]

  pub unregistered-IsConsistent :
      elem value client.addresses_owned ≡ true → IsConsistent (unregistered uuid value client s)
  unregistered-IsConsistent owned =
      let left = remove_first value client.addresses_owned in
      let client' : Client = record client { addresses_owned = left } in
      record {
        books = erase-IsDict value s.address_book h.books;
        clients = insert-IsDict uuid client' s.client_db h.clients;
        once = λ u. ground (
          arith,
          lookup-insert uuid u client' s.client_db,
          h.once u,
          remove_first-IsOnce value client.addresses_owned owned-IsOnce,
        );
        agree = λ u a. ground (
          arith,
          lookup-insert uuid u client' s.client_db,
          lookup-erase value a s.address_book h.books,
          elem-remove_first a value client.addresses_owned owned-IsOnce,
          h.agree u a,
          h.agree u value,
          owned-booked owned,
          eq_bytes_iff uuid u,
          eq_bytes_iff value a,
        );
      }
