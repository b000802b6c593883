-- ===== src/Server/Addresses.antt =====
-- Which steps of pipebomb/server.py leave the registered addresses alone.
use pipebomb.Base.{
  Bytes, Str, ℕ, ◌+◌, List, ◌≡◌, refl, ◌∙◌, Option, none, some, Option-cases, eq_bytes_iff, arith,
  inl, inr,
}
use pipebomb.Base.Result.{Exn, Result, ok, err}
use pipebomb.Base.Dict.{IsDict, lookup, lookup-insert, insert-IsDict}
use pipebomb.Server.State.{Client, Server, Runtime}
use pipebomb.Server.Monad.{
  Exec, pure, raise, lift, gets, or_raise, continue, ◌>>=◌, ◌>>◌, client_at, put_client, sendall,
  close_socket, add_tx_nonce, add_rx_nonce, reply, reply_error,
}

abbrev pub owned_by : Option Client → Option (List Str)
owned_by none = none
owned_by (some client) = some client.addresses_owned

-- The addresses that a session owns, if there is one of that UUID.
abbrev pub owned_of : Str → Server → Option (List Str)
owned_of uuid s = owned_by (lookup uuid s.client_db)

-- The address book is the same, and every session owns what it owned.
pub record SameAddresses (s t : Server) : Type 0 where
  pub book : t.address_book ≡ s.address_book
  pub owned : (uuid : Str) → owned_of uuid t ≡ owned_of uuid s
  pub clients : IsDict s.client_db → IsDict t.client_db

pub SameAddresses-refl : (s : Server) → SameAddresses s s
SameAddresses-refl s = record { book = refl; owned = λ uuid. refl; clients = λ h. h }

pub SameAddresses-trans :
    {s t u : Server} → SameAddresses s t → SameAddresses t u → SameAddresses s u
SameAddresses-trans p q = record {
  book = q.book ∙ p.book;
  owned = λ uuid. q.owned uuid ∙ p.owned uuid;
  clients = λ h. q.clients (p.clients h);
}

-- A session that is written back with the addresses that it owned.
pub put_client-same :
    (uuid : Str) (client client' : Client) (s : Server)
    → lookup uuid s.client_db ≡ some client
    → client'.addresses_owned ≡ client.addresses_owned
    → SameAddresses s (put_client uuid client' s).1
unfolding put_client
put_client-same uuid client client' s found same = record {
  book = refl;
  owned = λ u. ground (arith, lookup-insert uuid u client' s.client_db, eq_bytes_iff uuid u);
  clients = insert-IsDict uuid client' s.client_db;
}

-- `m` leaves the addresses alone, whether it returns or raises.
pub record IsCalm {A : Type 0} (m : Exec A) : Type 0 where
  pub at : (s : Server) → SameAddresses s (m s).1

pub IsCalm-pure : {A : Type 0} (a : A) → IsCalm (pure a)
IsCalm-pure a = record { at = SameAddresses-refl }

pub IsCalm-raise : {A : Type 0} (e : Exn) → IsCalm (raise {A = A} e)
IsCalm-raise e = record { at = SameAddresses-refl }

pub IsCalm-lift : {A : Type 0} (r : Result A) → IsCalm (lift r)
IsCalm-lift r = record { at = SameAddresses-refl }

pub IsCalm-gets : {A : Type 0} (f : Server → A) → IsCalm (gets f)
IsCalm-gets f = record { at = SameAddresses-refl }

pub IsCalm-or_raise : {A : Type 0} (o : Option A) (e : Exn) → IsCalm (or_raise o e)
IsCalm-or_raise none e = IsCalm-raise e
IsCalm-or_raise (some a) e = IsCalm-pure a

pub IsCalm-client_at : (uuid : Str) → IsCalm (client_at uuid)
unfolding client_at
IsCalm-client_at uuid = record { at = λ s. (IsCalm-or_raise (lookup uuid s.client_db) _).at s }

pub IsCalm-sendall : (sock : ℕ) (packet : Bytes) → IsCalm (sendall sock packet)
unfolding sendall
IsCalm-sendall sock packet = record {
  at = λ s. record { book = refl; owned = λ uuid. refl; clients = λ h. h };
}

pub IsCalm-close_socket : (sock : ℕ) → IsCalm (close_socket sock)
unfolding close_socket
IsCalm-close_socket sock = record {
  at = λ s. record { book = refl; owned = λ uuid. refl; clients = λ h. h };
}

continue-same :
    {A B : Type 0} (r : Result A) (k : A → Exec B) (s t : Server)
    → SameAddresses s t
    → ((a : A) → IsCalm (k a))
    → SameAddresses s (continue r k t).1
continue-same (ok a) k s t same calm = SameAddresses-trans same ((calm a).at t)
continue-same (err e) k s t same calm = same

pub bind-same :
    {A B : Type 0} (m : Exec A) (k : A → Exec B) (s : Server)
    → SameAddresses s (m s).1
    → ((a : A) → IsCalm (k a))
    → SameAddresses s ((m >>= k) s).1
unfolding ◌>>=◌
bind-same m k s same rest = let (r, t) = m s in continue-same r k s t same rest

pub IsCalm-bind :
    {A B : Type 0} (m : Exec A) (k : A → Exec B)
    → IsCalm m
    → ((a : A) → IsCalm (k a))
    → IsCalm (m >>= k)
unfolding ◌>>=◌
IsCalm-bind m k calm rest = record {
  at = λ s. let (r, t) = m s in continue-same r k s t (calm.at s) rest;
}

-- A session that is read and written back, with some of its fields changed and its addresses not,
-- perhaps behind a computation that may raise.
module _ {A B : Type 0} (uuid : Str) (f : Client → A → Client) (k : Client → A → Exec B)
    (same : (client : Client) (a : A) → (f client a).addresses_owned ≡ client.addresses_owned)
    (rest : (client : Client) (a : A) → IsCalm (k client a)) where
  pub write_back-same :
      (r : Result A) (client : Client) (s : Server)
      → lookup uuid s.client_db ≡ some client
      → SameAddresses s ((lift r >>= λ a. (put_client uuid (f client a) >> k client a)) s).1
  unfolding ◌>>=◌ put_client
  write_back-same (ok a) client s found =
      SameAddresses-trans (put_client-same uuid client (f client a) s found (same client a))
        ((rest client a).at _)
  write_back-same (err e) client s found = SameAddresses-refl s

  pub IsCalm-update :
      (r : Client → Result A)
      → IsCalm (
          client_at uuid >>= λ client.
          (lift (r client) >>= λ a. (put_client uuid (f client a) >> k client a)))
  unfolding ◌>>=◌ client_at
  IsCalm-update r = record {
    at = λ s. elim (Option-cases (lookup uuid s.client_db)) [
      | inl missing ↦ rw missing (SameAddresses-refl s)
      | inr (client, found) ↦ rw found (write_back-same (r client) client s found)
    ];
  }

-- A session that is read, in a rule that may use that it is there.
pub IsCalm-at :
    {B : Type 0} (uuid : Str) (k : Client → Exec B)
    → ((client : Client) (s : Server)
        → lookup uuid s.client_db ≡ some client
        → SameAddresses s (k client s).1)
    → IsCalm (client_at uuid >>= k)
unfolding ◌>>=◌ client_at
IsCalm-at uuid k rest = record {
  at = λ s. elim (Option-cases (lookup uuid s.client_db)) [
    | inl missing ↦ rw missing (SameAddresses-refl s)
    | inr (client, found) ↦ rw found (rest client s found)
  ];
}

pub IsCalm-add_tx_nonce : (uuid : Str) → IsCalm (add_tx_nonce uuid)
unfolding add_tx_nonce
IsCalm-add_tx_nonce uuid =
    IsCalm-update uuid (λ client (_ : Unit {0}). record client { tx_nonce = client.tx_nonce + 1 })
      (λ _ _. pure tt) (λ _ _. refl) (λ _ _. IsCalm-pure tt) (λ _. ok tt)

pub IsCalm-add_rx_nonce : (uuid : Str) → IsCalm (add_rx_nonce uuid)
unfolding add_rx_nonce
IsCalm-add_rx_nonce uuid =
    IsCalm-update uuid (λ client (_ : Unit {0}). record client { rx_nonce = client.rx_nonce + 1 })
      (λ _ _. pure tt) (λ _ _. refl) (λ _ _. IsCalm-pure tt) (λ _. ok tt)

pub ruleset calm_rules = (
  IsCalm-pure, IsCalm-raise, IsCalm-lift, IsCalm-gets, IsCalm-or_raise, IsCalm-client_at,
  IsCalm-sendall, IsCalm-close_socket, IsCalm-add_tx_nonce, IsCalm-add_rx_nonce, IsCalm-bind,
)

module _ (rt : Runtime) (sock : ℕ) (uuid : Str) where
  pub IsCalm-reply : (payload : Bytes) → IsCalm (reply rt sock uuid payload)
  unfolding reply
  IsCalm-reply payload = search calm_rules

  pub IsCalm-reply_error : (code : ℕ) → IsCalm (reply_error rt sock uuid code)
  unfolding reply_error
  IsCalm-reply_error code = search (calm_rules, IsCalm-reply)
