-- ===== src/Server/Cleanup.antt =====
-- The clean-up of `handle_client` in pipebomb/server.py against the invariant of the address book.
use pipebomb.Base.{
  Str, ℕ, [], ◌∷◌, ◌≡◌, refl, true, false, Bool-cases, Option, none, some, Option-cases,
  if◌then◌else◌, eq_bytes, eq_bytes_iff, eq_bytes_refl, arith, ◌⊎◌, inl, inr,
}
use pipebomb.Base.Dict.{Dict, IsDict, lookup, lookup-erase, erase-IsDict}
use pipebomb.Server.State.{Server, Runtime}
use pipebomb.Server.Session.{drop_first_of, clean_up}
use pipebomb.Server.Registry.{IsConsistent, owns, is_owner, owned-booked}

-- An address has one owner.
one_owner :
    (o : Option Str) (u v : Str) → is_owner o u ≡ true → is_owner o v ≡ true → eq_bytes u v ≡ true
one_owner none u v hu hv = cc
one_owner (some owner) u v hu hv =
    ground (arith, eq_bytes_iff owner u, eq_bytes_iff owner v, eq_bytes_iff u v)

module _ (uuid : Str) where
  -- A key of another owner stays, a key that was not there does not come.
  lookup-drop_other :
      (a owner : Str) (book : Dict Str)
      → lookup a book ≡ some owner
      → eq_bytes owner uuid ≡ false
      → lookup a (drop_first_of uuid book) ≡ some owner
  unfolding lookup drop_first_of
  lookup-drop_other a owner [] e ne = e
  lookup-drop_other a owner ((k, o) ∷ book) e ne = ground (arith, lookup-drop_other a owner book)

  lookup-drop_none :
      (a : Str) (book : Dict Str) → lookup a book ≡ none → lookup a (drop_first_of uuid book) ≡ none
  unfolding lookup drop_first_of
  lookup-drop_none a [] e = e
  lookup-drop_none a ((k, o) ∷ book) e = ground (arith, lookup-drop_none a book)

  drop-IsDict : (book : Dict Str) → IsDict book → IsDict (drop_first_of uuid book)
  unfolding drop_first_of
  drop-IsDict [] h = tt
  drop-IsDict ((k, o) ∷ book) h = ground (arith, lookup-drop_none k book, drop-IsDict book h.1)

  -- Of two keys of the owner, one stays.
  lookup-drop_two :
      (a b : Str) (book : Dict Str)
      → lookup a book ≡ some uuid
      → lookup b book ≡ some uuid
      → eq_bytes a b ≡ false
      → (lookup a (drop_first_of uuid book) ≡ some uuid)
        ⊎ (lookup b (drop_first_of uuid book) ≡ some uuid)
  unfolding lookup drop_first_of
  lookup-drop_two a b [] ea eb ne = inl ea
  lookup-drop_two a b ((k, o) ∷ book) ea eb ne = ground (
    arith,
    eq_bytes_iff k a,
    eq_bytes_iff k b,
    eq_bytes_iff a b,
    eq_bytes_iff o uuid,
    lookup-drop_two a b book,
  )

  -- An owner's only key goes.
  lookup-drop_only :
      (a : Str) (book : Dict Str)
      → IsDict book
      → lookup a book ≡ some uuid
      → ((b : Str) → lookup b book ≡ some uuid → b ≡ a)
      → lookup a (drop_first_of uuid book) ≡ none
  unfolding lookup drop_first_of
  lookup-drop_only a [] h e only = refl
  lookup-drop_only a ((k, o) ∷ book) h e only = elim (Bool-cases (eq_bytes o uuid)) [
    | inl own ↦
        let only_k = only k (ground (arith, eq_bytes_refl k, eq_bytes_iff o uuid)) in
        rw own (rw (← only_k) h.0)
    | inr other ↦
        let stays : eq_bytes k a ≡ false = ground (arith, eq_bytes_iff k a, eq_bytes_iff o uuid) in
        rw (other, stays)
          (lookup-drop_only a book h.1 (ground arith)
            (λ b eb. only b (ground (arith, eq_bytes_iff k b))))
  ]

  -- So, where the owner has at most one key, just its key is gone afterwards.
  lookup-drop :
      (a b : Str) (book : Dict Str)
      → IsDict book
      → ((b : Str) → lookup b book ≡ some uuid → b ≡ a)
      → lookup b (drop_first_of uuid book)
        ≡ (if is_owner (lookup b book) uuid then none else lookup b book)
  lookup-drop a b book h only = elim (Option-cases (lookup b book)) [
    | inl missing ↦ rw missing (lookup-drop_none b book missing)
    | inr (owner, e) ↦ elim (Bool-cases (eq_bytes owner uuid)) [
      | inr other ↦ rw (e, other) (lookup-drop_other b owner book e other)
      | inl own ↦
          let mine : lookup b book ≡ some uuid = ground (arith, eq_bytes_iff owner uuid) in
          rw (e, own) (rw (only b mine) (lookup-drop_only a book h (rw (← only b mine) mine) only))
    ]
  ]

module _ (rt : Runtime) (sock : ℕ) (uuid : Str) (s : Server) (h : IsConsistent s) where
  booked_owned : (b : Str) → lookup b s.address_book ≡ some uuid → owns uuid b s ≡ true
  booked_owned b e = ground (arith, h.agree uuid b, eq_bytes_refl uuid)

  -- From a consistent state, the clean-up of a session that owns at most one address leaves a
  -- consistent state.
  pub clean_up-IsConsistent :
      (a : Str)
      → ((b : Str) → owns uuid b s ≡ true → b ≡ a)
      → IsConsistent (clean_up rt sock uuid s).1
  unfolding clean_up
  clean_up-IsConsistent a only = elim (Bool-cases s.keep_dead_sessions) [
    | inl keep ↦ simp keep h
    | inr drop ↦ simp drop (record {
      books = drop-IsDict uuid s.address_book h.books;
      clients = erase-IsDict uuid s.client_db h.clients;
      once = λ u.
          ground (arith, lookup-erase uuid u s.client_db h.clients, h.once u, eq_bytes_iff uuid u);
      agree = λ u b. ground (
        arith,
        lookup-erase uuid u s.client_db h.clients,
        lookup-drop uuid a b s.address_book h.books (λ b' e. only b' (booked_owned b' e)),
        h.agree u b,
        one_owner (lookup b s.address_book) uuid u,
        eq_bytes_iff uuid u,
      );
    })
  ]

  -- From a consistent state, where dead sessions are not kept: the clean-up of a session that owns two
  -- addresses leaves one of them in the book under a UUID that no session has any more.
  pub clean_up-stale :
      (a b : Str)
      → s.keep_dead_sessions ≡ false
      → owns uuid a s ≡ true
      → owns uuid b s ≡ true
      → eq_bytes a b ≡ false
      → let t = (clean_up rt sock uuid s).1 in
        (lookup uuid t.client_db ≡ none)
        × ((lookup a t.address_book ≡ some uuid) ⊎ (lookup b t.address_book ≡ some uuid))
  unfolding clean_up
  clean_up-stale a b keep oa ob ne = rw keep (
    ground (arith, lookup-erase uuid uuid s.client_db h.clients, eq_bytes_refl uuid),
    lookup-drop_two uuid a b s.address_book (in_book a oa) (in_book b ob) ne,
  )
    where
      in_book : (x : Str) → owns uuid x s ≡ true → lookup x s.address_book ≡ some uuid
      in_book x ox = elim (Option-cases (lookup uuid s.client_db)) [
        | inl missing ↦ absurd (ground (arith, missing))
        | inr (client, found) ↦ owned-booked uuid x client s found h (ground (arith, found))
      ]
