-- ===== src/Server/Conns.antt =====
-- The methods of `Conn` in socket/tcp/server/conn.go, and what socket/tcp/server/server.go emits to
-- all connections. `marshal` is the library call of the Json and of the ProtoBuf form; `fds` are the
-- keys of the table in the order in which `range` yields them.
pub mod Everywhere
use lemo.Base.{Bytes, ℕ, List, Option, ◌⊎◌}
use lemo.Base.Io.{Io}
use lemo.Connections.{Conn}
use lemo.Protocol.Words.{ℤ}
use lemo.Server.{Net, State, with_env, push, emit, value_emit, emit_all}
use lemo.Socket.{Pack, ValuePack}

module _ {U N : Type 0} (net : Net U N) where
  -- `Conn.Push`
  unfoldable pub conn_push : Conn N → Bytes → Io (State U N) (Option Bytes)
  unfolding push
  conn_push conn msg = push net conn.fd msg

  -- `Conn.Close` and `Conn.Write`
  unfoldable pub conn_close : Conn N → Io (State U N) (Option Bytes)
  conn_close conn = with_env (net.close conn.net_conn)

  unfoldable pub conn_write : Conn N → Bytes → Io (State U N) (Option Bytes)
  conn_write conn msg = with_env (net.write conn.net_conn msg)

  module _ (encode : ℕ → ℤ → Bytes → Bytes → Bytes) where
    -- `Conn.Emit`
    unfoldable pub conn_emit : Conn N → Pack → Io (State U N) (Option Bytes)
    unfolding emit
    conn_emit conn pack = emit net encode conn.fd pack

    -- `EmitAll`
    unfoldable pub emit_everywhere : List ℕ → Pack → Io (State U N) (ℕ × ℕ)
    unfolding emit emit_all
    emit_everywhere fds pack = emit_all (λ fd. emit net encode fd pack) fds 0 0

    module _ {D : Type 0} (marshal : D → Bytes ⊎ Bytes) where
      -- `Conn.JsonEmit` and `Conn.ProtoBufEmit`
      unfoldable pub conn_json_emit : Conn N → ValuePack D → Io (State U N) (Option Bytes)
      unfolding value_emit
      conn_json_emit conn pack = value_emit net encode marshal conn.fd pack

      unfoldable pub conn_proto_buf_emit : Conn N → ValuePack D → Io (State U N) (Option Bytes)
      unfolding value_emit
      conn_proto_buf_emit conn pack = value_emit net encode marshal conn.fd pack

      -- `ProtoBufEmit`
      unfoldable pub proto_buf_emit : ℕ → ValuePack D → Io (State U N) (Option Bytes)
      unfolding value_emit
      proto_buf_emit fd pack = value_emit net encode marshal fd pack

      -- `JsonEmitAll` and `ProtoBufEmitAll`
      unfoldable pub json_emit_all : List ℕ → ValuePack D → Io (State U N) (ℕ × ℕ)
      unfolding value_emit emit_all
      json_emit_all fds pack = emit_all (λ fd. value_emit net encode marshal fd pack) fds 0 0

      unfoldable pub proto_buf_emit_all : List ℕ → ValuePack D → Io (State U N) (ℕ × ℕ)
      unfolding value_emit emit_all
      proto_buf_emit_all fds pack = emit_all (λ fd. value_emit net encode marshal fd pack) fds 0 0
