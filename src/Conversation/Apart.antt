-- ===== src/Conversation/Apart.antt =====
-- A call of one client, and the sessions of the others, in pipebomb/server.py.
use pipebomb.Base.{Bytes, Str, ℕ, ◌+◌, ◌≡◌, refl, sym, ap, ◌∙◌, false, eq_bytes}
use pipebomb.Base.Dict.{lookup, lookup-insert}
use pipebomb.Wire.Crypto.{IsCrypto}
use pipebomb.Server.State.{Client, Server, Runtime}
use pipebomb.Server.Replies.{sent_state}
use pipebomb.Client.Receive.{RawClient}
use pipebomb.Conversation.Call.{Linked, counted}
use pipebomb.Handshake.Agreement.{InStep}

-- A session with another inbox or outbox is in step as before.
pub InStep-kept :
    {key : Bytes} {client : RawClient} (a b : Client)
    → b.cipher ≡ a.cipher
    → b.rx_nonce ≡ a.rx_nonce
    → b.tx_nonce ≡ a.tx_nonce
    → InStep key client a
    → InStep key client b
InStep-kept a b same_cipher same_rx same_tx step = record {
  client_key = step.client_key;
  server_key = same_cipher ∙ step.server_key;
  to_server = step.to_server ∙ sym same_rx;
  to_client = same_tx ∙ step.to_client;
}

module _ (rt : Runtime) (laws : IsCrypto rt.crypto) (sock : ℕ) (uuid : Str) (key : Bytes)
    (c : RawClient) (s : Server) (calls : ℕ) (link : Linked uuid key c s (calls + 1)) where
  -- The session of another is as the dispatch left it.
  pub elsewhere :
      (t r : Server) (standing : Client) (packet : Bytes) (other : Str)
      → r ≡ sent_state rt sock uuid standing packet t
      → eq_bytes uuid other ≡ false
      → lookup other r.client_db ≡ lookup other t.client_db
  elsewhere t r standing packet other left apart =
      ap (λ (v : Server). lookup other v.client_db) left
      ∙ lookup-insert uuid other _ t.client_db
      ∙ rw apart refl

  -- The session that was filed, before the dispatch.
  pub before :
      (payload answer : Bytes) (other : Str)
      → eq_bytes uuid other ≡ false
      → lookup other (counted rt sock uuid laws payload answer key c s calls link).client_db
        ≡ lookup other s.client_db
  before payload answer other apart = lookup-insert uuid other _ s.client_db ∙ rw apart refl
