-- ===== src/Server/Endings.antt =====
-- The fuel of `handle_client` of pipebomb/server.py, from its start on and from where it waits.
use pipebomb.Base.{
  Bytes, Str, ℕ, zero, suc, ◌<◌, List, [], ◌∷◌, ◌≡◌, ◌≢◌, none, some, length, concat, arith, inl,
  inr, Option-cases, Bool-cases,
}
use pipebomb.Base.Result.{Exn, Result, ok, err, key_error, type_error, Result-cases}
use pipebomb.Base.Dict.{lookup}
use pipebomb.Wire.Packet.{verify_frame}
use pipebomb.Wire.Stream.{Received, frame, framing_error, end_of_stream, recv_frame}
use pipebomb.Wire.Struct.{to_bytes_little}
use pipebomb.Wire.Consumption.{pending, Consumes, recv_frame-Consumes}
use pipebomb.Server.State.{Server, Runtime}
use pipebomb.Server.Monad.{continue, ◌>>=◌}
use pipebomb.Server.Requests.{Outcome, served, goodbye, waiting}
use pipebomb.Server.Exchange.{handle_get_inbox}
use pipebomb.Server.Session.{
  Turn, done, refused, clean_up, after_loop, Exit, finished, waits, out_of_fuel, handle_frame,
  refuse_framing, after_turn, on_received, session_loop, handle_client, resume,
}

-- How the loop is left with so much fuel: not for want of it, and with more of it than bytes are
-- pending where it waits.
abbrev pub IsEnded : ℕ → Result Exit → Type 0
IsEnded fuel (ok (finished clean_exit)) = Unit
IsEnded fuel (ok (waits left unread)) = pending left unread < fuel
IsEnded fuel (ok out_of_fuel) = ⊥
IsEnded fuel (err e) = Unit

IsEnded-later : (fuel : ℕ) (r : Result Exit) → IsEnded fuel r → IsEnded (suc fuel) r
IsEnded-later fuel (ok (finished clean_exit)) h = tt
IsEnded-later fuel (ok (waits left unread)) h = omega (arith, h)
IsEnded-later fuel (ok out_of_fuel) h = h
IsEnded-later fuel (err e) h = tt

IsEnded-ne-out_of_fuel : (fuel : ℕ) (r : Result Exit) → IsEnded fuel r → r ≢ ok out_of_fuel
IsEnded-ne-out_of_fuel fuel (ok (finished clean_exit)) h = λ e. cc
IsEnded-ne-out_of_fuel fuel (ok (waits left unread)) h = λ e. cc
IsEnded-ne-out_of_fuel fuel (ok out_of_fuel) h = absurd h
IsEnded-ne-out_of_fuel fuel (err e) h = λ p. cc

module _ (rt : Runtime) (sock : ℕ) (uuid : Str) where
  -- A round with no frame raises before it has changed anything.
  handle_frame-none : (s : Server) → (e : Exn) × (handle_frame rt sock uuid none s ≡ (err e, s))
  unfolding handle_frame verify_frame
  handle_frame-none s = elim (Option-cases (lookup uuid s.client_db)) [
    | inl missing ↦ (key_error, rw missing)
    | inr (client, found) ↦ elim (Result-cases (to_bytes_little 12 client.rx_nonce)) [
      | inl (e, bad) ↦ (e, rw (found, bad))
      | inr (nonce, fits) ↦ (type_error, rw (found, fits))
    ]
  ]

  -- The loop with fuel for each byte that is pending.
  abbrev pub Ends : ℕ → Type 0
  Ends fuel =
      (buffer : Bytes) (chunks : List Bytes) (s : Server)
      → pending buffer chunks < fuel
      → IsEnded fuel (session_loop rt sock uuid fuel buffer chunks s).0

  module _ (fuel : ℕ) (ends : Ends fuel) where
    after_turn-IsEnded :
        (turn : Turn) (left : Bytes) (unread : List Bytes) (s : Server)
        → pending left unread < fuel
        → IsEnded fuel
            (after_turn rt sock uuid turn left unread (session_loop rt sock uuid fuel) s).0
    unfolding after_turn
    after_turn-IsEnded (done served) left unread s lt = ends left unread s lt
    after_turn-IsEnded (done goodbye) left unread s lt = tt
    after_turn-IsEnded (done waiting) left unread s lt = lt
    after_turn-IsEnded refused left unread s lt = tt

    continue-IsEnded :
        (r : Result Turn) (left : Bytes) (unread : List Bytes) (s : Server)
        → pending left unread < fuel
        → IsEnded fuel
            (continue r
              (λ turn. after_turn rt sock uuid turn left unread (session_loop rt sock uuid fuel))
              s).0
    continue-IsEnded (ok turn) left unread s lt = after_turn-IsEnded turn left unread s lt
    continue-IsEnded (err e) left unread s lt = tt

    on_received-IsEnded :
        (n : ℕ) (received : Received) (s : Server)
        → Consumes n (ok received)
        → n < suc fuel
        → IsEnded fuel (on_received rt sock uuid received (session_loop rt sock uuid fuel) s).0
    unfolding on_received
    on_received-IsEnded n (frame found left unread) s h lt =
        continue-IsEnded (handle_frame rt sock uuid (some found) s).0 left unread _ (omega arith)
    on_received-IsEnded n (framing_error code unread) s h lt =
        refused_framing-IsEnded (refuse_framing rt sock uuid code s).0
          (refuse_framing rt sock uuid code s).1
      where
        refused_framing-IsEnded :
            (r : Result (Unit {0})) (t : Server)
            → IsEnded fuel
                (continue r
                  (λ _. handle_frame rt sock uuid none >>= λ turn.
                    after_turn rt sock uuid turn [] unread (session_loop rt sock uuid fuel))
                  t).0
        refused_framing-IsEnded (ok _) t = let (e, raised) = handle_frame-none t in rw raised tt
        refused_framing-IsEnded (err e) t = tt
    on_received-IsEnded n (end_of_stream left) s h lt =
        let (e, raised) = handle_frame-none s in rw raised tt

    round-IsEnded :
        (n : ℕ) (r : Result Received) (s : Server)
        → Consumes n r
        → n < suc fuel
        → IsEnded fuel
            (continue r
              (λ received. on_received rt sock uuid received (session_loop rt sock uuid fuel))
              s).0
    round-IsEnded n (ok received) s h lt = on_received-IsEnded n received s h lt
    round-IsEnded n (err e) s h lt = tt

  -- The loop comes to an end by itself: with fuel for more rounds than bytes are pending it does not
  -- run out.
  pub session_loop-Ends : (fuel : ℕ) → Ends fuel
  unfolding session_loop
  session_loop-Ends zero buffer chunks s lt = absurd (omega arith)
  session_loop-Ends (suc fuel) buffer chunks s lt =
      IsEnded-later fuel (session_loop rt sock uuid (suc fuel) buffer chunks s).0 (
        round-IsEnded fuel (session_loop-Ends fuel) (pending buffer chunks)
          (recv_frame buffer chunks) s (recv_frame-Consumes buffer chunks) lt)

  exit-IsEnded :
      (fuel : ℕ) (r : Result Exit) (s : Server)
      → IsEnded fuel r
      → IsEnded fuel (continue r (after_loop rt sock uuid) s).0
  unfolding after_loop clean_up
  exit-IsEnded fuel (ok (finished clean_exit)) s h = elim (Bool-cases s.keep_dead_sessions) [
    | inl kept ↦ rw kept tt
    | inr dropped ↦ rw dropped tt
  ]
  exit-IsEnded fuel (ok (waits left unread)) s h = h
  exit-IsEnded fuel (ok out_of_fuel) s h = h
  exit-IsEnded fuel (err e) s h = tt

  handle_client-IsEnded :
      (fuel : ℕ) (chunks : List Bytes) (s : Server)
      → length (concat chunks) < fuel
      → IsEnded fuel (handle_client rt sock uuid fuel chunks s).0
  unfolding handle_client
  handle_client-IsEnded fuel chunks s lt = elim (Option-cases (lookup uuid s.client_db)) [
    | inl missing ↦ rw missing tt
    | inr (client, found) ↦ elim (Option-cases client.cipher) [
      | inl bare ↦ rw found (rw bare tt)
      | inr (key, keyed) ↦ rw found (
          rw keyed (
            exit-IsEnded fuel (session_loop rt sock uuid fuel [] chunks s).0 _
              (session_loop-Ends fuel [] chunks s (omega arith))))
    ]
  ]

  resume-IsEnded :
      (fuel : ℕ) (buffer : Bytes) (chunks : List Bytes) (s : Server)
      → pending buffer chunks < fuel
      → IsEnded fuel (resume rt sock uuid fuel buffer chunks s).0
  unfolding resume
  resume-IsEnded fuel buffer chunks s lt =
      got-IsEnded (handle_get_inbox rt sock uuid s).0 (handle_get_inbox rt sock uuid s).1
    where
      got-IsEnded :
          (r : Result Outcome) (t : Server)
          → IsEnded fuel
              (continue r
                (λ outcome.
                  after_turn rt sock uuid
                    (done outcome)
                    buffer
                    chunks
                    (session_loop rt sock uuid fuel)
                  >>= after_loop rt sock uuid)
                t).0
      got-IsEnded (ok outcome) t =
          exit-IsEnded fuel _ _
            (after_turn-IsEnded fuel (session_loop-Ends fuel) (done outcome) buffer chunks t lt)
      got-IsEnded (err e) t = tt

  -- A session that waits, and that is resumed each time that others have done something to the state.
  abbrev pub resumed : ℕ → List (Server → Server) → Result Exit × Server → Result Exit × Server
  resumed fuel [] left_at = left_at
  resumed fuel (others ∷ more) (ok (waits left unread), s) =
      resumed fuel more (resume rt sock uuid fuel left unread (others s))
  resumed fuel (others ∷ more) (ok (finished clean_exit), s) = (ok (finished clean_exit), s)
  resumed fuel (others ∷ more) (ok out_of_fuel, s) = (ok out_of_fuel, s)
  resumed fuel (others ∷ more) (err e, s) = (err e, s)

  resumed-IsEnded :
      (fuel : ℕ) (visits : List (Server → Server)) (r : Result Exit) (s : Server)
      → IsEnded fuel r
      → IsEnded fuel (resumed fuel visits (r, s)).0
  resumed-IsEnded fuel [] r s h = h
  resumed-IsEnded fuel (others ∷ more) (ok (waits left unread)) s h =
      resumed-IsEnded fuel more (resume rt sock uuid fuel left unread (others s)).0
        (resume rt sock uuid fuel left unread (others s)).1
        (resume-IsEnded fuel left unread (others s) h)
  resumed-IsEnded fuel (others ∷ more) (ok (finished clean_exit)) s h = h
  resumed-IsEnded fuel (others ∷ more) (ok out_of_fuel) s h = h
  resumed-IsEnded fuel (others ∷ more) (err e) s h = h

  -- With fuel for more rounds than the peer sends bytes, `handle_client` does not run out of it,
  -- however often it waits at an empty inbox and is resumed, and whatever the others do to the state
  -- in the meantime: at the end it has returned, has raised, or waits for its inbox.
  pub handle_client-ends :
      (fuel : ℕ) (chunks : List Bytes) (s : Server) (visits : List (Server → Server))
      → length (concat chunks) < fuel
      → (resumed fuel visits (handle_client rt sock uuid fuel chunks s)).0 ≢ ok out_of_fuel
  handle_client-ends fuel chunks s visits lt =
      IsEnded-ne-out_of_fuel fuel (resumed fuel visits (handle_client rt sock uuid fuel chunks s)).0
        (resumed-IsEnded fuel visits (handle_client rt sock uuid fuel chunks s).0
          (handle_client rt sock uuid fuel chunks s).1 (handle_client-IsEnded fuel chunks s lt))
