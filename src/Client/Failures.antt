-- ===== src/Client/Failures.antt =====
-- What the methods of src/client/client.cc leave behind, whatever the connection does.
use dafeng_wubi.Prelude.{
  ℕ, true, Option, none, some, ◌≡◌, refl, ◌⊎◌, inl, inr, arith, Bool-cases, Option-cases,
}
use dafeng_wubi.Endpoint.{Connection}
use dafeng_wubi.Protocol.{RerankRequest, CommitEvent, Message}
use dafeng_wubi.Protocol.Msgpack.{Msgpack}
use dafeng_wubi.Protocol.Frame.{encode_frame}
use dafeng_wubi.Protocol.Body.{encode_body}
use dafeng_wubi.Client.{
  record_commit, record_on, reset_connection, Clock, Dialer, Client, reset, reconnect, connected_or,
  ensure_connected, conclude, accepted, call_on, call, rerank, get_stats, ping, accept_rerank,
  accept_stats, accept_pong, rerank_message,
}

module _ (m : Msgpack) {conn : Connection} (dialer : Dialer conn) where
  open m use {Float}

  -- What a method may leave: a result, or no connection.
  abbrev pub Settled : {A : Type 0} → Option A × Client dialer → Type 0
  Settled {A} (result, client) = ((a : A) × (result ≡ some a)) ⊎ (client.conn_ ≡ none)

  reconnect-Settled : (client : Client dialer) → Settled (reconnect m dialer client)
  unfolding reconnect
  reconnect-Settled client = elim (Option-cases (dialer.connect_endpoint client.net).0) [
    | inl e ↦ inr e
    | inr found ↦ inl found
  ]

  connected_or-Settled :
      (c : Option conn.State) (client : Client dialer) → Settled (connected_or m dialer c client)
  unfolding connected_or
  connected_or-Settled none client = reconnect-Settled client
  connected_or-Settled (some c) client = elim (Bool-cases (conn.is_connected c)) [
    | inl up ↦ rw up (inl (c, refl))
    | inr down ↦ rw down (reconnect-Settled client)
  ]

  conclude-Settled :
      {A : Type 0} (a : Option A) (c : conn.State) (client : Client dialer)
      → Settled (conclude m dialer a c client)
  unfolding conclude reset
  conclude-Settled none c client = inr refl
  conclude-Settled (some a) c client = inl (a, refl)

  module _ {A : Type 0} (request : ℕ → Message Float) (accept : ℕ → Message Float → Option A)
      (timeout : ℕ) (clock : Clock) where
    call_on-Settled :
        (c : Option conn.State) (client : Client dialer)
        → ((s : conn.State) × (c ≡ some s)) ⊎ (client.conn_ ≡ none)
        → Settled (call_on m dialer request accept timeout clock c client)
    unfolding call_on
    call_on-Settled none client (inl (s, e)) = absurd (ground arith)
    call_on-Settled none client (inr e) = inr e
    call_on-Settled (some c) client h =
        conclude-Settled (accepted m dialer (accept client.next_request_id) _) _ _

    pub call-Settled :
        (client : Client dialer) → Settled (call m dialer request accept timeout clock client)
    unfolding call ensure_connected
    call-Settled client =
        let (c, client') = ensure_connected m dialer client in
        call_on-Settled c client' (connected_or-Settled client.conn_ client)

  -- What `RecordCommit` leaves: no connection, or the one that it has written the event to.
  abbrev pub Recorded : CommitEvent → (before after : Client dialer) → Type 0
  Recorded ev before after =
      ((c : conn.State) × ((ensure_connected m dialer before).0 ≡ some c)
        × (let r = conn.write_all (encode_frame (encode_body m (Message.commit_event ev))) 50 c in
            (r.0 ≡ true) × (after.conn_ ≡ some r.1)))
      ⊎ (after.conn_ ≡ none)

  record_on-Recorded :
      (ev : CommitEvent) (before : Client dialer) (o : Option conn.State) (client : Client dialer)
      → (ensure_connected m dialer before).0 ≡ o
      → ((s : conn.State) × (o ≡ some s)) ⊎ (client.conn_ ≡ none)
      → Recorded ev before (record_on m dialer ev o client)
  unfolding record_on reset
  record_on-Recorded ev before none client e (inl (s, f)) = absurd (ground arith)
  record_on-Recorded ev before none client e (inr f) = inr f
  record_on-Recorded ev before (some c) client e h =
      let bytes = encode_frame (encode_body m (Message.commit_event ev)) in
      elim (Bool-cases (conn.write_all bytes 50 c).0) [
        | inl f ↦ rw f (inl (c, e, (f, refl)))
        | inr f ↦ rw f (inr refl)
      ]

  record_commit-Recorded :
      (ev : CommitEvent) (client : Client dialer)
      → Recorded ev client (record_commit m dialer ev client)
  unfolding record_commit ensure_connected
  record_commit-Recorded ev client =
      let (o, client') = ensure_connected m dialer client in
      record_on-Recorded ev client o client' refl (connected_or-Settled client.conn_ client)

  reset_any-none :
      (o : Option conn.State) (client : Client dialer)
      → client.conn_ ≡ o
      → (elim o as (λ o. Client dialer) [ none ↦ client | some c ↦ reset m dialer c client ]).conn_
        ≡ none
  unfolding reset
  reset_any-none none client e = e
  reset_any-none (some c) client e = refl

  reset_connection-none : (client : Client dialer) → (reset_connection m dialer client).conn_ ≡ none
  unfolding reset_connection
  reset_connection-none client = reset_any-none client.conn_ client refl

  -- Whatever the connection, the dialer and the clock do, `Rerank`, `GetStats` and `Ping` give a result or leave the client without a
  -- connection, so that the next method connects again; `RecordCommit` leaves it without one or with the connection to which it has
  -- written the event, and `ResetConnection` leaves it without one.
  pub client-Settled :
      (req : RerankRequest) (ev : CommitEvent) (timeout : ℕ) (clock : Clock)
      (client : Client dialer)
      → Settled (rerank m dialer req timeout clock client)
        × Settled (get_stats m dialer timeout clock client)
        × Settled (ping m dialer timeout clock client)
        × Recorded ev client (record_commit m dialer ev client)
        × ((reset_connection m dialer client).conn_ ≡ none)
  unfolding rerank get_stats ping
  client-Settled req ev timeout clock client = (
    call-Settled (rerank_message m dialer req) (accept_rerank m dialer) timeout clock client,
    call-Settled _ (accept_stats m dialer) timeout clock client,
    call-Settled _ (accept_pong m dialer) timeout clock client,
    record_commit-Recorded ev client,
    reset_connection-none client,
  )
