-- ===== src/Client/Read/Emitted.antt =====
-- From `Emit` of the tcp server to the handlers of a client: socket/tcp/server/server.go,
-- socket/tcp/protocol.go and the loop of `Connect` in socket/tcp/client/client.go.
use lemo.Base.{
  Bytes, ℕ, ◌≡◌, refl, ap, ◌∙◌, Bool, true, List, [], ◌∷◌, ◌++◌, map, Option, none, some, All,
  concat, ok,
}
use lemo.Base.Io.{Io}
use lemo.Client.Read.{read_loop}
use lemo.Client.Read.Cuts.{read_loop-deliver}
use lemo.Connections.{Conn, get_connection}
use lemo.Protocol.{decode}
use lemo.Protocol.Delivery.{wire, IsSendable, wires-IsFrame}
use lemo.Protocol.Reader.{start}
use lemo.Protocol.Tcp.{encode}
use lemo.Server.{Net, State, emit, push}
use lemo.Socket.{Pack}
use lemo.Socket.Dispatch.{Site, decode_message}
use lemo.Socket.Dispatch.Delivered.{handle_all, deliver-wire}
use lemo.Socket.MessageType
use lemo.Transports.TcpClient.Sends.{message_of, emit_each}
use mathlib.Core.List.{append_assoc, append-nil}

-- A network that writes without errors to one connection; `written` is what was written to it.
pub record Writes {U N : Type 0} (net : Net U N) (conn : N) (written : U → Bytes) : Type 0 where
  pub no_error : (message : Bytes) (u : U) → (net.write conn message u).0 ≡ none
  pub appended :
      (message : Bytes) (u : U) → written (net.write conn message u).1 ≡ written u ++ message

module _ {U N : Type 0} (net : Net U N) (fd : ℕ) (conn : Conn N) (written : U → Bytes)
    (writes : Writes net conn.net_conn written) where
  abbrev emit_one : Pack → Io (State U N) (Option Bytes)
  emit_one = emit net encode fd

  abbrev after_write : Pack → State U N → State U N
  after_write pack s = record s { env = (net.write conn.net_conn (wire (message_of pack)) s.env).1 }

  emit_one-after_write :
      (pack : Pack) (s : State U N)
      → get_connection s.table fd ≡ some conn
      → emit_one pack s ≡ ok (none, after_write pack s)
  unfolding emit push encode
  emit_one-after_write pack s found =
      rw found (rw (writes.no_error (wire (message_of pack)) s.env) refl)

  -- What `Emit` of several packs to an open descriptor writes.
  emit_each-written :
      (packs : List Pack) (s : State U N)
      → get_connection s.table fd ≡ some conn
      → (s' : State U N) × (emit_each emit_one packs s ≡ ok (tt, s'))
        × (written s'.env ≡ written s.env ++ concat (map wire (map message_of packs)))
  unfolding emit_each
  emit_each-written [] s found = (s, refl, rw append-nil refl)
  emit_each-written (pack ∷ packs) s found =
      let (s', run, all) = emit_each-written packs (after_write pack s) found in
      (
        s',
        rw (emit_one-after_write pack s found) run,
        all
            ∙ ap (λ bytes. bytes ++ concat (map wire (map message_of packs)))
                (writes.appended (wire (message_of pack)) s.env)
            ∙ append_assoc (written s.env) (wire (message_of pack))
                (concat (map wire (map message_of packs))),
      )

  -- From `Emit` of the server to the handlers of the client. The descriptor is open, nothing has been
  -- written to its connection, whose writes do not fail, and the client has the default protocol.
  -- The server emits packs that the format can carry: each `Emit` returns. Whatever the network's
  -- cuts of the bytes that are written, the loop of the client gives the middleware and handlers
  -- exactly those packs, in order, each with its id, event and payload, and the reader gives no error.
  pub emit_each-read_loop :
      {S C X : Type 0} (site : Site S C X) (client : C) (on_error : Bytes → Io S (Unit {0}))
      (known : ℕ → Bool) (cut : Bytes → List Bytes) (packs : List Pack) (s : State U N) (c : S)
      → known MessageType.bin ≡ true
      → site.decode ≡ decode known
      → ((bytes : Bytes) → concat (cut bytes) ≡ bytes)
      → get_connection s.table fd ≡ some conn
      → written s.env ≡ []
      → All IsSendable (map message_of packs)
      → (s' : State U N) × (emit_each (emit net encode fd) packs s ≡ ok (tt, s'))
        × (read_loop on_error (decode_message site client) known start (cut (written s'.env)) c
            ≡ handle_all site client (map message_of packs) c)
  emit_each-read_loop site client on_error known cut packs s c b d cuts found fresh fits =
      let (s', run, all) = emit_each-written packs s found in
      let ps = map message_of packs in
      let sent : written s'.env ≡ concat (map wire ps) =
        all ∙ ap (λ bytes. bytes ++ concat (map wire ps)) fresh in
      (
        s',
        run,
        read_loop-deliver on_error (decode_message site client) known (map wire ps)
              (cut (written s'.env)) (wires-IsFrame known b ps fits) (cuts _ ∙ sent) c
            ∙ deliver-wire site client known b d on_error ps fits c,
      )
