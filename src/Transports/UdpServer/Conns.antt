-- ===== src/Transports/UdpServer/Conns.antt =====
-- The methods of `Conn` in socket/udp/server/conn.go, and what socket/udp/server/server.go emits to all
-- connections. `marshal` is the library call of the Json and of the ProtoBuf form; `fds` are the keys
-- of the table in the order in which `range` yields them.
use lemo.Base.{Bytes, ℕ, ◌+◌, List, [], ◌∷◌, Option, ◌⊎◌, length}
use lemo.Base.Io.{Io, pure, ◌>>=◌}
use lemo.Connections.Addresses.{AddrTable, Peer}
use lemo.Protocol.Udp.{close_message}
use lemo.Protocol.Words.{ℤ}
use lemo.Server.{count_success}
use lemo.Socket.{Pack, ValuePack}
use lemo.Transports.UdpServer.{State, write, push, emit, value_emit}

unfoldable pub get_connections_count : AddrTable → ℕ
get_connections_count t = length t.connections

-- The loop of `EmitAll`, `JsonEmitAll` and `ProtoBufEmitAll`, with its two counters.
unfoldable pub emit_all :
    {U : Type 0}
    → (send : ℕ → Io (State U) (Option Bytes)) → List ℕ
    → (counter success : ℕ) → Io (State U) (ℕ × ℕ)
emit_all send [] counter success = pure (counter, success)
emit_all send (fd ∷ fds) counter success =
    send fd >>= λ err. emit_all send fds (counter + 1) (count_success success err)

module _ {U : Type 0} (itoa : ℕ → Bytes) (read_buffer_size : ℕ)
    (write_to_udp : Bytes → Bytes → U → Option Bytes × U) where
  -- `Conn.Push`
  unfoldable pub conn_push : Peer → Bytes → Io (State U) (Option Bytes)
  unfolding push
  conn_push conn msg = push itoa read_buffer_size write_to_udp conn.fd msg

  -- `Conn.Close`
  unfoldable pub conn_close : Peer → Io (State U) (Option Bytes)
  unfolding write
  conn_close conn = write itoa read_buffer_size write_to_udp conn close_message

  module _ (encode : ℕ → ℤ → Bytes → Bytes → Bytes) where
    -- `Conn.Emit`
    unfoldable pub conn_emit : Peer → Pack → Io (State U) (Option Bytes)
    unfolding emit
    conn_emit conn pack = emit itoa read_buffer_size write_to_udp encode conn.fd pack

    -- `EmitAll`
    unfoldable pub emit_everywhere : List ℕ → Pack → Io (State U) (ℕ × ℕ)
    unfolding emit emit_all
    emit_everywhere fds pack =
        emit_all (λ fd. emit itoa read_buffer_size write_to_udp encode fd pack) fds 0 0

    module _ {D : Type 0} (marshal : D → Bytes ⊎ Bytes) where
      -- `Conn.JsonEmit` and `Conn.ProtoBufEmit`
      unfoldable pub conn_json_emit : Peer → ValuePack D → Io (State U) (Option Bytes)
      unfolding value_emit
      conn_json_emit conn pack =
          value_emit itoa read_buffer_size write_to_udp encode marshal conn.fd pack

      unfoldable pub conn_proto_buf_emit : Peer → ValuePack D → Io (State U) (Option Bytes)
      unfolding value_emit
      conn_proto_buf_emit conn pack =
          value_emit itoa read_buffer_size write_to_udp encode marshal conn.fd pack

      -- `ProtoBufEmit`
      unfoldable pub proto_buf_emit : ℕ → ValuePack D → Io (State U) (Option Bytes)
      unfolding value_emit
      proto_buf_emit fd pack = value_emit itoa read_buffer_size write_to_udp encode marshal fd pack

      -- `JsonEmitAll` and `ProtoBufEmitAll`
      unfoldable pub json_emit_all : List ℕ → ValuePack D → Io (State U) (ℕ × ℕ)
      unfolding value_emit emit_all
      json_emit_all fds pack =
          emit_all (λ fd. value_emit itoa read_buffer_size write_to_udp encode marshal fd pack) fds
            0 0

      unfoldable pub proto_buf_emit_all : List ℕ → ValuePack D → Io (State U) (ℕ × ℕ)
      unfolding value_emit emit_all
      proto_buf_emit_all fds pack =
          emit_all (λ fd. value_emit itoa read_buffer_size write_to_udp encode marshal fd pack) fds
            0 0
