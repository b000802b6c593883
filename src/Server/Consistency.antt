-- ===== src/Server/Consistency.antt =====
-- Every packet and every end of a session in pipebomb/server.py keeps the address book and the
-- sessions' own lists in agreement, as far as it does.
use pipebomb.Base.{
  Bytes, Str, ℕ, [], ◌∷◌, ◌≡◌, Bool, true, false, Bool-cases, Option, none, some, Option-cases,
  if◌then◌else◌, inl, inr,
}
use pipebomb.Base.Result.{Result, ok, err}
use pipebomb.Base.Dict.{lookup}
use pipebomb.Wire.Packet.{ack, Verdict, accepted, rejected}
use pipebomb.Server.State.{Client, Server, Runtime}
use pipebomb.Server.Monad.{Exec, pure, continue, ◌>>=◌, ◌>>◌, client_at, add_rx_nonce, reply_error}
use pipebomb.Server.Requests.{served, elem, handle_register, handle_unregister, server_request}
use pipebomb.Server.Session.{done, dispatch, handle_verdict, handle_frame}
use pipebomb.Server.Addresses.{
  IsCalm, IsCalm-pure, IsCalm-raise, IsCalm-lift, IsCalm-client_at, IsCalm-add_rx_nonce, calm_rules,
  IsCalm-reply_error,
}
use pipebomb.Server.Calm.{
  IsCalm-serve, IsCalm-handle_set, IsCalm-handle_get, IsCalm-handle_delete, IsCalm-handle_list,
  IsCalm-handle_whoami, IsCalm-handle_unknown, IsCalm-client_request,
}
use pipebomb.Server.Registry.{
  IsConsistent, SameAddresses-IsConsistent, registered-IsConsistent, unregistered-IsConsistent,
  owned-booked, registered, unregistered,
}

-- `m` keeps the invariant, whether it returns or raises.
pub record Keeps {A : Type 0} (m : Exec A) : Type 0 where
  pub at : (s : Server) → IsConsistent s → IsConsistent (m s).1

pub Keeps-calm : {A : Type 0} {m : Exec A} → IsCalm m → Keeps m
Keeps-calm calm = record { at = λ s h. SameAddresses-IsConsistent (calm.at s) h }

pub Keeps-if :
    {A : Type 0} (b : Bool) (m n : Exec A) → Keeps m → Keeps n → Keeps (if b then m else n)
Keeps-if true m n km kn = km
Keeps-if false m n km kn = kn

continue-Keeps :
    {A B : Type 0} (r : Result A) (k : A → Exec B) (s : Server)
    → IsConsistent s
    → ((a : A) → Keeps (k a))
    → IsConsistent (continue r k s).1
continue-Keeps (ok a) k s h rest = (rest a).at s h
continue-Keeps (err e) k s h rest = h

pub Keeps-bind :
    {A B : Type 0} (m : Exec A) (k : A → Exec B)
    → Keeps m
    → ((a : A) → Keeps (k a))
    → Keeps (m >>= k)
unfolding ◌>>=◌
Keeps-bind m k km rest = record {
  at = λ s h. let (r, t) = m s in continue-Keeps r k t (km.at s h) rest;
}

module _ (rt : Runtime) (sock : ℕ) (uuid : Str) where
  register-at :
      (value : Bytes) (s : Server)
      → IsConsistent s
      → lookup value s.address_book ≡ none
      → IsConsistent (handle_register rt sock uuid value s).1
  unfolding handle_register
  register-at value s h free = elim (Option-cases (lookup uuid s.client_db)) [
    | inl missing ↦ rw (free, missing) h
    | inr (client, found) ↦
        rw (free, found)
          (SameAddresses-IsConsistent
            ((IsCalm-serve rt sock uuid ack).at (registered uuid value client s))
            (registered-IsConsistent uuid value client s found h free))
  ]

  pub Keeps-handle_register : (value : Bytes) → Keeps (handle_register rt sock uuid value)
  unfolding handle_register
  Keeps-handle_register value = record {
    at = λ s h. elim (Option-cases (lookup value s.address_book)) [
      | inl free ↦ register-at value s h free
      | inr (owner, taken) ↦ rw taken (SameAddresses-IsConsistent (refusal.at s) h)
    ];
  }
    where
      refusal : IsCalm (reply_error rt sock uuid 5 >> pure served)
      refusal = search (calm_rules, IsCalm-reply_error)

  -- In a consistent state the `pop` of UNREGISTER finds its address.
  unregister-at :
      (value : Bytes) (client : Client) (s : Server)
      → IsConsistent s
      → lookup uuid s.client_db ≡ some client
      → elem value client.addresses_owned ≡ true
      → IsConsistent (handle_unregister rt sock uuid value s).1
  unfolding handle_unregister
  unregister-at value client s h found owned =
      rw (found, owned, owned-booked uuid value client s found h owned)
        (SameAddresses-IsConsistent
          ((IsCalm-serve rt sock uuid ack).at (unregistered uuid value client s))
          (unregistered-IsConsistent uuid value client s found h owned))

  pub Keeps-handle_unregister : (value : Bytes) → Keeps (handle_unregister rt sock uuid value)
  unfolding handle_unregister
  Keeps-handle_unregister value = record {
    at = λ s h. elim (Option-cases (lookup uuid s.client_db)) [
      | inl missing ↦ rw missing h
      | inr (client, found) ↦ elim (Bool-cases (elem value client.addresses_owned)) [
        | inl owned ↦ unregister-at value client s h found owned
        | inr other ↦ rw (found, other) (SameAddresses-IsConsistent (refusal.at s) h)
      ]
    ];
  }
    where
      refusal : IsCalm (reply_error rt sock uuid 5 >> pure served)
      refusal = search (calm_rules, IsCalm-reply_error)

  Keeps-server_request :
      (opcode : ℕ) (value : Bytes) → Keeps (server_request rt sock uuid opcode value)
  unfolding server_request
  Keeps-server_request opcode value =
      search
        (
          Keeps-if, Keeps-handle_register, Keeps-handle_unregister, Keeps-calm, IsCalm-pure,
          IsCalm-handle_set, IsCalm-handle_get, IsCalm-handle_delete, IsCalm-handle_list,
          IsCalm-handle_whoami, IsCalm-handle_unknown,
        )
        depth 12

  Keeps-dispatch : (payload : Bytes) → Keeps (dispatch rt sock uuid payload)
  unfolding dispatch
  Keeps-dispatch [] = Keeps-calm (IsCalm-raise _)
  Keeps-dispatch (type_ ∷ value) =
      search (Keeps-if, Keeps-server_request, Keeps-calm, IsCalm-client_request)

  Keeps-handle_verdict : (verdict : Verdict) → Keeps (handle_verdict rt sock uuid verdict)
  unfolding handle_verdict
  Keeps-handle_verdict (rejected code) = Keeps-calm (search (calm_rules, IsCalm-reply_error))
  Keeps-handle_verdict (accepted payload) =
      Keeps-bind _ _ (Keeps-dispatch payload) (λ outcome. Keeps-calm (IsCalm-pure (done outcome)))

  -- Whatever arrives on a session, or if nothing does, the step keeps the invariant that the address
  -- book and the sessions agree on who owns which address, also where it raises.
  pub handle_frame-IsConsistent :
      (found : Option Bytes) (s : Server)
      → IsConsistent s
      → IsConsistent (handle_frame rt sock uuid found s).1
  unfolding handle_frame
  handle_frame-IsConsistent found = (frame_step found).at
    where
      frame_step : (found : Option Bytes) → Keeps (handle_frame rt sock uuid found)
      frame_step found =
          Keeps-bind (client_at uuid) _ (Keeps-calm (IsCalm-client_at uuid)) λ client.
            Keeps-bind _ _ (Keeps-calm (IsCalm-lift _)) λ verified.
              Keeps-bind (add_rx_nonce uuid) _ (Keeps-calm (IsCalm-add_rx_nonce uuid))
                λ _. Keeps-handle_verdict verified.0
