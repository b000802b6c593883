-- ===== src/Handshake/Script.antt =====
-- The messages of a handshake that goes through, whichever way the network cuts them:
-- `accept_clients` of pipebomb/server.py and `connect` of pipebomb/client.py.
use pipebomb.Base.{
  Bytes, ◌+◌, ◌≤◌, List, [], ◌∷◌, ◌++◌, ◌≡◌, refl, sym, ap, ◌∙◌, false, is_empty, some, length,
  arith,
}
use pipebomb.Base.Result.{ok}
use pipebomb.Wire.Crypto.{Crypto, IsCrypto, max_plaintext}
use pipebomb.Wire.Packet.{ack, construct_packet}
use pipebomb.Wire.Stream.{read_exact}
use pipebomb.Wire.Construct.{construct_total}
use pipebomb.Wire.Messages.{Carries, read_exact-carried}

-- The packets of both sides, under one key: the password, its acknowledgement, the login and the
-- answer to it.
pub record Script (c : Crypto) (key password login answer : Bytes) : Type 0 where
  pub password_packet : Bytes
  pub ack_packet : Bytes
  pub login_packet : Bytes
  pub answer_packet : Bytes
  pub password_built : construct_packet c (0 ∷ password) (some key) 0 ≡ ok password_packet
  pub ack_built : construct_packet c ack (some key) 0 ≡ ok ack_packet
  pub login_built : construct_packet c login (some key) 1 ≡ ok login_packet
  pub answer_built : construct_packet c answer (some key) 1 ≡ ok answer_packet

-- What a peer sends, cut in any way: its public key and two packets, and what is behind them.
pub record Heard (chunks : List Bytes) (public_key first second : Bytes) (rest : List Bytes)
    : Type 0 where
  pub key_chunks : List Bytes
  pub first_chunks : List Bytes
  pub second_chunks : List Bytes
  pub in_order : chunks ≡ key_chunks ++ (first_chunks ++ (second_chunks ++ rest))
  pub key_carried : Carries key_chunks public_key
  pub first_carried : Carries first_chunks first
  pub second_carried : Carries second_chunks second

-- The public key, and the chunks behind it.
pub heard-key :
    {chunks : List Bytes} (public_key : Bytes) {first second : Bytes} {rest : List Bytes}
    → (h : Heard chunks public_key first second rest) → length public_key ≡ 32
    → read_exact 32 [] chunks ≡ (public_key, h.first_chunks ++ (h.second_chunks ++ rest))
heard-key {chunks} public_key {first} {second} {rest} h sized =
    ap (λ n. read_exact n [] chunks) (sym sized)
    ∙ ap (read_exact (length public_key) []) h.in_order
    ∙ read_exact-carried public_key h.key_chunks (h.first_chunks ++ (h.second_chunks ++ rest))
        h.key_carried

-- There is such a script for every key, and for every password and login that fit a packet.
pub script_total :
    (c : Crypto) (laws : IsCrypto c) (key password login answer : Bytes)
    → length password + 8 ≤ max_plaintext
    → is_empty login ≡ false
    → length login + 7 ≤ max_plaintext
    → is_empty answer ≡ false
    → length answer + 7 ≤ max_plaintext
    → Script c key password login answer
script_total c laws key password login answer hp nl hl na ha =
    let (p, ep) = construct_total c laws (0 ∷ password) key 0 refl (omega arith) (omega arith) in
    let (a, ea) = construct_total c laws ack key 0 refl (omega arith) (omega arith) in
    let (l, el) = construct_total c laws login key 1 nl (omega arith) hl in
    let (r, er) = construct_total c laws answer key 1 na (omega arith) ha in
    record {
      password_packet = p;
      ack_packet = a;
      login_packet = l;
      answer_packet = r;
      password_built = ep;
      ack_built = ea;
      login_built = el;
      answer_built = er;
    }
