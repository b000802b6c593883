-- ===== src/Handshake/Admitted.antt =====
-- Who gets in: what `accept_clients` of pipebomb/server.py has seen of a peer whose session it goes on
-- to handle.
use pipebomb.Base.{
  Bytes, Str, ℕ, List, [], ◌∷◌, ◌≡◌, ◌≢◌, refl, ap, ◌∙◌, Bool, true, false, not, ◌==◌,
  if◌then◌else◌, Bool-cases, inl, inr, Option, some, length, eq_bytes, eq_bytes_iff, arith,
}
use pipebomb.Base.Result.{Result, ok, err}
use pipebomb.Wire.Packet.{verify_packet, Verdict, accepted, rejected}
use pipebomb.Wire.Stream.{read_exact, read_packet_frame}
use pipebomb.Server.State.{Server, Runtime}
use pipebomb.Server.Monad.{Exec, pure, lift, ◌>>=◌, ◌>>◌, close_socket}
use pipebomb.Handshake.Keys.{KeyExchange}
use pipebomb.Handshake.Accept.{Incoming, Admission, refused, logged_in, check_password, accept}

-- Inversion of a step that may only raise, and of a guard, which refuses.
lift-bind-ok :
    {A B : Type 0} (r : Result A) (f : A → Exec B) (t : Server) {b : B}
    → ((lift r >>= f) t).0 ≡ ok b
    → (a : A) × (r ≡ ok a) × ((f a t).0 ≡ ok b)
unfolding ◌>>=◌
lift-bind-ok (ok a) f t h = (a, refl, h)
lift-bind-ok (err e) f t h = cc

guard-passed :
    (sock : ℕ) (test : Bool) (m : Exec Admission) (t : Server) {uuid : Str} {rest : List Bytes}
    → ((if test then (do close_socket sock; pure refused) else m) t).0 ≡ ok (logged_in uuid rest)
    → (test ≡ false) × ((m t).0 ≡ ok (logged_in uuid rest))
unfolding ◌>>=◌ close_socket
guard-passed sock true m t h = cc
guard-passed sock false m t h = (refl, h)

module _ (rt : Runtime) (x : KeyExchange) (conn : Incoming) (s : Server) where
  -- The peer gave a public key, and then a frame that verifies, under the key of the exchange and the
  -- first nonce, as the server's password behind a zero byte.
  pub record Authenticated : Type 0 where
    pub public_key : Bytes
    pub secret : Bytes
    pub frame : Bytes
    pub behind_key : List Bytes
    pub behind_frame : List Bytes
    pub remainder : Option Bytes
    pub keyed : read_exact 32 [] conn.chunks ≡ (public_key, behind_key)
    pub sized : length public_key ≡ 32
    pub exchanged : x.exchange conn.private_key public_key ≡ ok secret
    pub framed : read_packet_frame behind_key ≡ ok (frame, behind_frame)
    pub verified :
        verify_packet rt.crypto frame (some (x.derive secret)) 0
        ≡ ok (accepted (0 ∷ s.password), remainder)

  check_password-accepted :
      (key : Bytes) (chunks : List Bytes) (verdict : Verdict) (t : Server) {uuid : Str}
      {rest : List Bytes}
      → (check_password rt x conn key chunks verdict t).0 ≡ ok (logged_in uuid rest)
      → verdict ≡ accepted (0 ∷ t.password)
  unfolding check_password
  check_password-accepted key chunks (rejected code) t h = absurd (ground arith)
  check_password-accepted key chunks (accepted password) t h =
      elim (Bool-cases (eq_bytes password (0 ∷ t.password))) [
        | inl same ↦ ap accepted ((eq_bytes_iff password (0 ∷ t.password)).0 same)
        | inr other ↦ absurd (refused-ne (rw other at h))
      ]
    where
      refused-ne : {uuid : Str} {rest : List Bytes} → ok refused ≢ ok (logged_in uuid rest)
      refused-ne h = cc

  -- A peer whose session is handled has given a public key of 32 bytes and then a first frame that
  -- verifies, under the key of the exchange and the first nonce, as the server's password behind a
  -- zero byte.
  pub accept-Authenticated :
      {uuid : Str} {rest : List Bytes}
      → (accept rt x conn s).0 ≡ ok (logged_in uuid rest)
      → Authenticated
  unfolding accept
  accept-Authenticated h =
      let (public_key, behind_key) = read_exact 32 [] conn.chunks in
      let greeted = record s { sent = (conn.socket, x.public_key conn.private_key) ∷ s.sent } in
      let (sized, h1) = guard-passed conn.socket (not (length public_key == 32)) _ s h in
      let (secret, es, h2) = lift-bind-ok (x.exchange conn.private_key public_key) _ greeted h1 in
      let ((frame, behind_frame), ef, h3) =
        lift-bind-ok (read_packet_frame behind_key) _ greeted h2 in
      let ((verdict, remainder), ev, h4) =
        lift-bind-ok (verify_packet rt.crypto frame (some (x.derive secret)) 0) _ greeted h3 in
      record {
        public_key = public_key;
        secret = secret;
        frame = frame;
        behind_key = behind_key;
        behind_frame = behind_frame;
        remainder = remainder;
        keyed = refl;
        sized = ground arith;
        exchanged = es;
        framed = ef;
        verified =
            ev
            ∙ ap (λ v. ok (v, remainder))
                (check_password-accepted (x.derive secret) behind_frame verdict greeted h4);
      }
