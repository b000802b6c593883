-- ===== src/System.antt =====
-- The server of pipebomb/server.py as a whole: connections come in, packets arrive on any session in
-- any order, sessions end, and the program around it adds addresses and changes the table.
use pipebomb.Base.{Bytes, Str, ℕ, ◌≡◌, Option, none, some, true, length}
use pipebomb.Base.Dict.{lookup, insert}
use pipebomb.Server.State.{Client, Server, Runtime}
use pipebomb.Server.Session.{handle_frame, refuse_framing, clean_up}
use pipebomb.Server.Admin.{add_key, set_db, remove_db}
use pipebomb.Server.AdminLaws.{add_key-IsConsistent}
use pipebomb.Server.Addresses.{IsCalm, calm_rules}
use pipebomb.Server.Calm.{IsCalm-db}
use pipebomb.Server.Registry.{IsConsistent, owns}
use pipebomb.Server.Consistency.{Keeps-calm, handle_frame-IsConsistent}
use pipebomb.Server.Cleanup.{clean_up-IsConsistent}
use pipebomb.Handshake.Keys.{KeyExchange}
use pipebomb.Handshake.Accept.{Incoming, accept}
use pipebomb.Handshake.Consistency.{accept-IsConsistent}

-- The steps that leave the sessions and the address book alone.
IsCalm-refuse_framing :
    (rt : Runtime) (sock : ℕ) (uuid : Str) (code : ℕ) → IsCalm (refuse_framing rt sock uuid code)
unfolding refuse_framing
IsCalm-refuse_framing rt sock uuid code = search calm_rules

IsCalm-set_db : (key value : Bytes) → IsCalm (set_db key value)
unfolding set_db
IsCalm-set_db key value = IsCalm-db (λ s. insert key value s.db)

IsCalm-remove_db : (key : Bytes) → IsCalm (remove_db key)
unfolding remove_db
IsCalm-remove_db key = search (calm_rules, IsCalm-db)

module _ (rt : Runtime) (x : KeyExchange) where
  -- One step of the server. A connection draws a UUID that no session has; a packet, the end of the
  -- stream or a framing error comes on the socket of any session; an entry of the key-value table is
  -- set or removed; a session that ends owns one address at most; an address that is added is free, and
  -- its session is there.
  pub data Step : Server → Server → Type 0 where
    connects :
        (s : Server) (conn : Incoming)
        → lookup (rt.uuid4_str s.drawn) s.client_db ≡ none
        → Step s (accept rt x conn s).1
    receives :
        (s : Server) (sock : ℕ) (uuid : Str) (found : Option Bytes)
        → Step s (handle_frame rt sock uuid found s).1
    refuses :
        (s : Server) (sock : ℕ) (uuid : Str) (code : ℕ)
        → Step s (refuse_framing rt sock uuid code s).1
    stores : (s : Server) (key value : Bytes) → Step s (set_db key value s).1
    drops : (s : Server) (key : Bytes) → Step s (remove_db key s).1
    ends :
        (s : Server) (sock : ℕ) (uuid a : Str)
        → ((b : Str) → owns uuid b s ≡ true → b ≡ a)
        → Step s (clean_up rt sock uuid s).1
    adds :
        (s : Server) (key uuid : Str) (client : Client)
        → length uuid ≡ 36
        → lookup key s.address_book ≡ none
        → lookup uuid s.client_db ≡ some client
        → Step s (add_key key uuid s).1

  -- What a run comes to, in any interleaving of the sessions.
  pub data Reach (s : Server) : Server → Type 0 where
    here : Reach s s
    next : {t u : Server} → Reach s t → Step t u → Reach s u

  Step-IsConsistent : {s t : Server} → Step s t → IsConsistent s → IsConsistent t
  Step-IsConsistent (connects s conn fresh) h = accept-IsConsistent rt x conn s h fresh
  Step-IsConsistent (receives s sock uuid found) h =
      handle_frame-IsConsistent rt sock uuid found s h
  Step-IsConsistent (refuses s sock uuid code) h =
      (Keeps-calm (IsCalm-refuse_framing rt sock uuid code)).at s h
  Step-IsConsistent (stores s key value) h = (Keeps-calm (IsCalm-set_db key value)).at s h
  Step-IsConsistent (drops s key) h = (Keeps-calm (IsCalm-remove_db key)).at s h
  Step-IsConsistent (ends s sock uuid a only) h = clean_up-IsConsistent rt sock uuid s h a only
  Step-IsConsistent (adds s key uuid client sized free found) h =
      (add_key-IsConsistent key uuid client s sized free found h).1

  -- In every state that a run comes to from a consistent one, by any interleaving of connections that
  -- draw a fresh UUID, packets, framing errors, changes of the key-value table, ends of sessions with
  -- one address at most and additions of addresses that are free to sessions that are there, the
  -- address book and the sessions agree on who owns which address.
  pub Reach-IsConsistent : {s t : Server} → Reach s t → IsConsistent s → IsConsistent t
  Reach-IsConsistent here h = h
  Reach-IsConsistent (next r step) h = Step-IsConsistent step (Reach-IsConsistent r h)
