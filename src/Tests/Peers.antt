-- ===== src/Tests/Peers.antt =====
-- `UnixConnection` of src/common/endpoint_unix.cc over prompt system calls: with a peer that only listens, and with the server of
-- src/daemon/server.cc.
use dafeng_wubi.Prelude.{
  ℕ, zero, suc, ◌≤◌, ◌<◌, true, [], ◌∷◌, ◌++◌, Option, none, some, ◌≡◌, refl, sym, ap, ◌∙◌, arith,
  length, take, drop, Bytes,
}
use mathlib.Core.List.{append-nil}
use dafeng_wubi.Endpoint.{Connection, Reliable}
use dafeng_wubi.Endpoint.Unix.{is_connected_now}
use dafeng_wubi.Protocol.{Message}
use dafeng_wubi.Protocol.Body.{encode_body}
use dafeng_wubi.Server.{Services, Server, handle_message}
use dafeng_wubi.Server.Run.{run, reply_first}
use dafeng_wubi.Server.Stream.{next_message, messages, frame, frames}
use dafeng_wubi.Server.Frames.{IsSendable, messages-frames}
use dafeng_wubi.Client.Exchange.{Answering}
use dafeng_wubi.Tests.PlainPack.{plain_pack, plain_pack_laws}
use dafeng_wubi.Endpoint.Ending.{unix_connection}
use dafeng_wubi.Tests.PeerOs.{
  peer_os, peer_interruptions, read_full-nothing, read_full-all, read_full-short, write_all-nothing,
  write_all-answered, encode_frame-pos,
}

-- the states with an open descriptor
abbrev pub IsUp : Option ℕ → Type 0
IsUp none = ⊥
IsUp (some fd) = Unit {0}

-- a peer that keeps what it gets and answers nothing
abbrev pub keeps : Bytes → Bytes → Bytes × Bytes
keeps b sent = ([], sent ++ b)

-- the program's connection to it
abbrev pub plain_stream : Connection
plain_stream = unix_connection (peer_os keeps) (peer_interruptions keeps)

abbrev pub State : Type 0
State = Option ℕ × (Bytes × Bytes)

pub reads :
    (n t : ℕ) (c : State)
    → IsUp c.0
    → 0 < t
    → n ≤ length c.1.0
    → plain_stream.read_full n t c ≡ (some (take n c.1.0), (c.0, (drop n c.1.0, c.1.1)))
reads n t (none, w) u h l = absurd u
reads zero t (some fd, w) u h l = read_full-nothing keeps fd t w
reads (suc n) t (some fd, w) u h l = read_full-all keeps fd (suc n) t w h (omega arith) l

pub writes :
    (b : Bytes) (t : ℕ) (c : State)
    → IsUp c.0
    → 0 < t
    → plain_stream.write_all b t c ≡ (true, (c.0, (c.1.0, c.1.1 ++ b)))
writes b t (none, w) u h = absurd u
writes [] t (some fd, (inc, sent)) u h =
    write_all-nothing keeps fd t (inc, sent)
    ∙ ap (λ l. (true, (some fd, (inc, l)))) (sym (append-nil sent))
writes (c ∷ b) t (some fd, (inc, sent)) u h =
    write_all-answered keeps fd t (c ∷ b) (inc, sent) h (omega arith)
    ∙ ap (λ l. (true, (some fd, (l, sent ++ c ∷ b)))) (append-nil inc)

pub refuses :
    (n t : ℕ) (c : State)
    → IsUp c.0
    → 0 < t
    → length c.1.0 < n
    → (rest : Bytes) × (plain_stream.read_full n t c ≡ (none, (c.0, (rest, c.1.1))))
refuses n t (none, w) u h l = absurd u
refuses n t (some fd, w) u h l = read_full-short keeps fd n t w h l

pub connected : (c : State) → IsUp c.0 → plain_stream.is_connected c ≡ true
unfolding is_connected_now
connected (none, w) u = absurd u
connected (some fd, w) u = refl

unfoldable pub plain_stream-Reliable : Reliable plain_stream
plain_stream-Reliable = record {
  IsOpen = λ c. IsUp c.0;
  incoming = λ c. c.1.0;
  outgoing = λ c. c.1.1;
  is_connected-true = connected;
  read_full-some = λ n t c u h l. rw (reads n t c u h l) (refl, refl, refl, u);
  read_full-none = λ n t c u h l. let (rest, e) = refuses n t c u h l in rw e (refl, refl);
  write_all-true = λ b t c u h. rw (writes b t c u h) (refl, refl, refl, u);
}

-- the server at the other end
module _ (svc : Services ℕ) where
  -- it handles the messages of what is written and sends the replies
  abbrev pub serves : Bytes → Server svc.Env → Bytes × Server svc.Env
  serves b s =
      let (replies, after) = run plain_pack svc (messages plain_pack (suc (length b)) b) s in
      (frames plain_pack replies, after)

  -- the program's connection to it
  abbrev pub server_stream : Connection
  server_stream = unix_connection (peer_os serves) (peer_interruptions serves)

  serves-message :
      (msg : Message ℕ) (s : Server svc.Env)
      → IsSendable plain_pack plain_pack_laws msg
      → let (reply, after) = handle_message plain_pack svc msg s in
        serves (frame plain_pack msg) s ≡ (frames plain_pack (reply_first reply []), after)
  unfolding run next_message
  serves-message msg s sendable =
      let bytes = frame plain_pack msg in
      let two : frames plain_pack (msg ∷ []) ++ [] ≡ bytes =
        append-nil (bytes ++ []) ∙ append-nil bytes in
      let one : messages plain_pack (suc (length bytes)) bytes ≡ msg ∷ [] =
        ap (messages plain_pack (suc (length bytes))) (sym two)
        ∙ messages-frames plain_pack plain_pack_laws (msg ∷ []) [] (suc (length bytes))
            (sendable, tt) refl (omega arith) in
      ap (λ l. (frames plain_pack (run plain_pack svc l s).0, (run plain_pack svc l s).1)) one

  abbrev pub Held : Type 0
  Held = Option ℕ × (Bytes × Server svc.Env)

  pub held_reads :
      (n t : ℕ) (c : Held)
      → IsUp c.0
      → 0 < t
      → n ≤ length c.1.0
      → server_stream.read_full n t c ≡ (some (take n c.1.0), (c.0, (drop n c.1.0, c.1.1)))
  held_reads n t (none, w) u h l = absurd u
  held_reads zero t (some fd, w) u h l = read_full-nothing serves fd t w
  held_reads (suc n) t (some fd, w) u h l = read_full-all serves fd (suc n) t w h (omega arith) l

  pub held_writes :
      (msg : Message ℕ) (t : ℕ) (c : Held)
      → IsUp c.0
      → 0 < t
      → IsSendable plain_pack plain_pack_laws msg
      → let (reply, after) = handle_message plain_pack svc msg c.1.1 in
        server_stream.write_all (frame plain_pack msg) t c
        ≡ (true, (c.0, (c.1.0 ++ frames plain_pack (reply_first reply []), after)))
  held_writes msg t (none, w) u h sendable = absurd u
  held_writes msg t (some fd, (inc, s)) u h sendable =
      write_all-answered serves fd t (frame plain_pack msg) (inc, s) h
        (encode_frame-pos (encode_body plain_pack msg))
      ∙ ap (λ r. (true, (some fd, (inc ++ r.0, r.1)))) (serves-message msg s sendable)

  pub held_connected : (c : Held) → IsUp c.0 → server_stream.is_connected c ≡ true
  unfolding is_connected_now
  held_connected (none, w) u = absurd u
  held_connected (some fd, w) u = refl

  -- The connection hands the client's messages to the server.
  unfoldable pub server_stream-Answering : Answering plain_pack plain_pack_laws svc server_stream
  server_stream-Answering = record {
    IsOpen = λ c. IsUp c.0;
    incoming = λ c. c.1.0;
    server = λ c. c.1.1;
    is_connected-true = held_connected;
    read_full-some = λ n t c u h l. rw (held_reads n t c u h l) (refl, refl, refl, u);
    write_all-handled = λ msg t c u h k. rw (held_writes msg t c u h k) (refl, refl, refl, u);
  }
