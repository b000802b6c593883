-- ===== src/Handshake/Quiet.antt =====
-- Steps of a handshake that leave the tables and the draws of pipebomb/server.py alone, and what keeps
-- the invariant as long as the next UUID is fresh.
use pipebomb.Base.{Bytes, ℕ, ◌≡◌, refl, Bool, true, false, if◌then◌else◌, Option, some, none}
use pipebomb.Base.Result.{Exn, Result, ok, err}
use pipebomb.Base.Dict.{lookup}
use pipebomb.Server.State.{Server, Runtime}
use pipebomb.Server.Monad.{Exec, lift, gets, or_raise, continue, ◌>>=◌, sendall}
use pipebomb.Server.Addresses.{IsCalm}
use pipebomb.Server.Registry.{IsConsistent, SameAddresses-IsConsistent}
use pipebomb.Server.Consistency.{Keeps, Keeps-calm}

-- `m` touches neither the tables nor the draws, whether it returns or raises.
pub record Quiet {A : Type 0} (m : Exec A) : Type 0 where
  pub clients : (s : Server) → (m s).1.client_db ≡ s.client_db
  pub book : (s : Server) → (m s).1.address_book ≡ s.address_book
  pub draws : (s : Server) → (m s).1.drawn ≡ s.drawn

module _ (rt : Runtime) where
  -- The UUID that is drawn next is no session's.
  abbrev pub IsFresh : Server → Type 0
  IsFresh s = lookup (rt.uuid4_str s.drawn) s.client_db ≡ none

  -- `m` keeps the invariant if the next UUID is fresh.
  pub record Admits {A : Type 0} (m : Exec A) : Type 0 where
    pub at : (s : Server) → IsConsistent s → IsFresh s → IsConsistent (m s).1

  pub Admits-Keeps : {A : Type 0} (m : Exec A) → Keeps m → Admits m
  Admits-Keeps m keeps = record { at = λ s h _. keeps.at s h }

  pub Admits-calm : {A : Type 0} (m : Exec A) → IsCalm m → Admits m
  Admits-calm m calm = Admits-Keeps m (Keeps-calm calm)

  continue-Admits :
      {A B : Type 0} (r : Result A) (f : A → Exec B) (s : Server)
      → IsConsistent s
      → IsFresh s
      → ((a : A) → Admits (f a))
      → IsConsistent (continue r f s).1
  continue-Admits (ok a) f s h fresh rest = (rest a).at s h fresh
  continue-Admits (err e) f s h fresh rest = h

  pub Quiet-IsConsistent :
      {A : Type 0} (m : Exec A) (s : Server) → Quiet m → IsConsistent s → IsConsistent (m s).1
  Quiet-IsConsistent m s quiet h =
      SameAddresses-IsConsistent
        (record {
          book = quiet.book s;
          owned = λ uuid. rw (quiet.clients s);
          clients = λ d. rw (quiet.clients s) d;
        })
        h

  pub Admits-Quiet :
      {A B : Type 0} (m : Exec A) (f : A → Exec B)
      → Quiet m
      → ((a : A) → Admits (f a))
      → Admits (m >>= f)
  unfolding ◌>>=◌
  Admits-Quiet m f quiet rest = record {
    at = λ s h fresh.
        continue-Admits (m s).0 f (m s).1 (Quiet-IsConsistent m s quiet h)
          (rw (quiet.clients s, quiet.draws s) fresh) rest;
  }

  continue-calm :
      {A B : Type 0} (r : Result A) (f : A → Exec B) (s : Server)
      → IsConsistent s
      → ((a : A) → IsCalm (f a))
      → IsConsistent (continue r f s).1
  continue-calm (ok a) f s h rest = (Keeps-calm (rest a)).at s h
  continue-calm (err e) f s h rest = h

  pub Admits-then :
      {A B : Type 0} (m : Exec A) (f : A → Exec B)
      → Admits m
      → ((a : A) → IsCalm (f a))
      → Admits (m >>= f)
  unfolding ◌>>=◌
  Admits-then m f admits rest = record {
    at = λ s h fresh. continue-calm (m s).0 f (m s).1 (admits.at s h fresh) rest;
  }

  pub Admits-if :
      {A : Type 0} (b : Bool) (m n : Exec A) → Admits m → Admits n → Admits (if b then m else n)
  Admits-if true m n hm hn = hm
  Admits-if false m n hm hn = hn

pub Quiet-lift : {A : Type 0} (r : Result A) → Quiet (lift r)
Quiet-lift r = record { clients = λ s. refl; book = λ s. refl; draws = λ s. refl }

pub Quiet-gets : {A : Type 0} (f : Server → A) → Quiet (gets f)
Quiet-gets f = record { clients = λ s. refl; book = λ s. refl; draws = λ s. refl }

pub Quiet-sendall : (sock : ℕ) (packet : Bytes) → Quiet (sendall sock packet)
unfolding sendall
Quiet-sendall sock packet = record { clients = λ s. refl; book = λ s. refl; draws = λ s. refl }

pub Quiet-or_raise : {A : Type 0} (o : Option A) (e : Exn) → Quiet (or_raise o e)
Quiet-or_raise none e = record { clients = λ s. refl; book = λ s. refl; draws = λ s. refl }
Quiet-or_raise (some a) e = record { clients = λ s. refl; book = λ s. refl; draws = λ s. refl }

pub Quiet-lift_bind :
    {A B : Type 0} (r : Result A) (f : A → Exec B) → ((a : A) → Quiet (f a)) → Quiet (lift r >>= f)
unfolding ◌>>=◌
Quiet-lift_bind (ok a) f quiet = record {
  clients = (quiet a).clients;
  book = (quiet a).book;
  draws = (quiet a).draws;
}
Quiet-lift_bind (err e) f quiet = record {
  clients = λ s. refl;
  book = λ s. refl;
  draws = λ s. refl;
}
