-- ===== src/Transports/TcpClient/Sends.antt =====
-- What a tcp client writes for packs that are emitted one after another:
-- socket/tcp/client/client.go over socket/tcp/protocol.go.
use lemo.Base.{Bytes, ◌≡◌, refl, ◌∙◌, List, [], ◌∷◌, ◌++◌, map, Option, none, concat, ok}
use lemo.Base.Io.{Io, pure, ◌>>=◌}
use lemo.Protocol.Delivery.{Message, wire}
use lemo.Protocol.Tcp.{encode}
use lemo.Socket.{Pack}
use lemo.Transports.TcpClient.{push, emit}
use mathlib.Core.List.{append_assoc, append-nil}

-- The message of a pack.
abbrev pub message_of : Pack → Message
message_of pack = record { id = pack.id; route = pack.event; body = pack.payload }

-- A caller that emits the packs in order, whatever `Emit` returns.
unfoldable pub emit_each : {U : Type 0} → (Pack → Io U (Option Bytes)) → List Pack → Io U (Unit {0})
emit_each emit [] = pure tt
emit_each emit (pack ∷ packs) = emit pack >>= λ _. emit_each emit packs

-- A connection whose environment is what was written to it.
abbrev pub record_write : Bytes → Bytes → Option Bytes × Bytes
record_write message written = (none, written ++ message)

abbrev pub tcp_emit : Pack → Io Bytes (Option Bytes)
tcp_emit = emit (push record_write) encode

tcp_emit-wire :
    (pack : Pack) (written : Bytes)
    → tcp_emit pack written ≡ ok (none, written ++ wire (message_of pack))
unfolding push emit encode
tcp_emit-wire pack written = refl

pub emit_each-wire :
    (packs : List Pack) (written : Bytes)
    → emit_each tcp_emit packs written
      ≡ ok (tt, written ++ concat (map wire (map message_of packs)))
unfolding emit_each
emit_each-wire [] written = rw append-nil
emit_each-wire (pack ∷ packs) written =
    rw (tcp_emit-wire pack written)
      (emit_each-wire packs (written ++ wire (message_of pack)) ∙ rw append_assoc)
