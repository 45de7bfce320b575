-- ===== src/Tests/Emitting.antt =====
-- From `Emit` of the tcp server to the loop of a client, at a network that keeps what is written and
-- gives it back byte by byte.
use lemo.Base.{Bytes, ℕ, ◌≡◌, refl, ap, List, [], ◌∷◌, ◌++◌, map, none, some, ok, concat, length}
use lemo.Base.Assoc.{lookup}
use lemo.Base.Io.{pure}
use lemo.Client.Read.{read_loop}
use lemo.Client.Read.Emitted.{Writes, emit_each-read_loop}
use lemo.Connections.{Conn, get_connection}
use lemo.Protocol.Reader.{start}
use lemo.Protocol.Tcp.{is_message_type, decode, encode}
use lemo.Protocol.Words.{pos}
use lemo.Server.{Net, State, emit}
use lemo.Server.Conns.{emit_everywhere}
use lemo.Server.Conns.Everywhere.{open_among, write_each, emit_everywhere_lem}
use lemo.Socket.MessageType
use lemo.Socket.{Pack}
use lemo.Socket.Dispatch.{decode_message}
use lemo.Socket.Dispatch.Delivered.{handle_all}
use lemo.Tests.Codec.{hello, hi, bin_known}
use lemo.Tests.Dispatching.{site}
use lemo.Tests.Streams.{two_greetings-IsSendable}
use lemo.Transports.TcpClient.Sends.{message_of, emit_each}

abbrev net : Net Bytes ℕ
net = record {
  write = λ conn message written. (none, written ++ message);
  close = λ conn written. (none, written);
  set_read_deadline = λ conn written. (none, written);
  set_read_buffer = λ conn written. (none, written);
  set_write_buffer = λ conn written. (none, written);
}

abbrev conn : Conn ℕ
conn = record { fd = 1; net_conn = 5 }

abbrev open_state : State Bytes ℕ
open_state = record { table = record { fd = 1; connections = (1, conn) ∷ [] }; env = [] }

net-Writes : Writes net 5 (λ written. written)
net-Writes = record { no_error = λ message u. refl; appended = λ message u. refl }

abbrev packs : List Pack
packs =
    record { event = hello; payload = hi; id = pos 7 }
    ∷ record { event = hello; payload = hi; id = pos 7 }
    ∷ []

-- One byte at a time.
unfoldable singly : Bytes → List Bytes
singly [] = []
singly (b ∷ bytes) = (b ∷ []) ∷ singly bytes

concat-singly : (bytes : Bytes) → concat (singly bytes) ≡ bytes
unfolding singly
concat-singly [] = refl
concat-singly (b ∷ bytes) = ap (λ l. b ∷ l) (concat-singly bytes)

is_open : get_connection open_state.table 1 ≡ some conn
unfolding get_connection lookup
is_open = refl

same_decode : site.decode ≡ lemo.Protocol.decode is_message_type
unfolding decode
same_decode = refl

emit_each-read_loop_example :
    (s' : State Bytes ℕ) × (emit_each (emit net encode 1) packs open_state ≡ ok (tt, s'))
    × (read_loop (λ e. pure tt) (decode_message site 0) is_message_type start (singly s'.env) []
        ≡ handle_all site 0 (map message_of packs) [])
emit_each-read_loop_example =
    emit_each-read_loop net 1 conn (λ written. written) net-Writes site 0 (λ e. pure tt)
      is_message_type singly packs open_state [] bin_known same_decode concat-singly is_open refl
      two_greetings-IsSendable

-- `EmitAll` while the descriptor 2 is gone.
emit_everywhere_lem_example :
    emit_everywhere net encode
      (1 ∷ 2 ∷ [])
      (record { event = hello; payload = hi; id = pos 7 })
      open_state
    ≡ ok (
      (2, length (open_among open_state.table (1 ∷ 2 ∷ []))),
      record open_state {
        env =
            write_each net
              (encode MessageType.bin (pos 7) hello hi)
              (open_among open_state.table (1 ∷ 2 ∷ []))
              [];
      },
    )
emit_everywhere_lem_example =
    emit_everywhere_lem net encode (record { event = hello; payload = hi; id = pos 7 })
      (λ n msg u. refl) (1 ∷ 2 ∷ []) open_state
