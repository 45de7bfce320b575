-- ===== src/Transports/WebsocketServer/Conns.antt =====
-- The methods of `Conn` in socket/websocket/server/conn.go, and what
-- socket/websocket/server/server.go emits to all connections: the code of the tcp server, but for
-- the headers that `Host` and `ClientIP` read.
use lemo.Base.{Bytes, codes, ℕ, [], ◌∷◌, List, Option, none, some, ◌⊎◌}
use lemo.Base.Io.{Io}
use lemo.Connections.{Conn}
use lemo.Protocol.Words.{ℤ}
use lemo.Server.{Net, State}
use lemo.Server.Conns
use lemo.Socket.{Pack, ValuePack}

abbrev pub or_else : Bytes → Bytes → Bytes
or_else [] t = t
or_else (c ∷ s) t = c ∷ s

abbrev pub some_or_empty : Option Bytes → Bytes
some_or_empty none = []
some_or_empty (some s) = s

-- What `Conn` reads of the request that was upgraded.
pub record Upgraded : Type 0 where
  pub header : Bytes → Bytes
  pub host : Bytes
  pub remote_addr : Bytes

unfoldable pub host : Upgraded → Bytes
host r = or_else (r.header (codes "Host")) r.host

-- `ClientIP`, with `strings.Split(s, ",")[0]` and `net.SplitHostPort` as parameters.
unfoldable pub client_ip :
    (before_comma : Bytes → Bytes) (split_host_port : Bytes → Option Bytes) → Upgraded → Bytes
client_ip before_comma split_host_port r =
    or_else (before_comma (r.header (codes "X-Forwarded-For")))
      (or_else (r.header (codes "X-Real-IP")) (some_or_empty (split_host_port r.remote_addr)))

module _ {U N : Type 0} (net : Net U N) where
  unfoldable pub conn_push : Conn N → Bytes → Io (State U N) (Option Bytes)
  unfolding Conns.conn_push
  conn_push = Conns.conn_push net

  unfoldable pub conn_close : Conn N → Io (State U N) (Option Bytes)
  unfolding Conns.conn_close
  conn_close = Conns.conn_close net

  unfoldable pub conn_write : Conn N → Bytes → Io (State U N) (Option Bytes)
  unfolding Conns.conn_write
  conn_write = Conns.conn_write net

  unfoldable pub conn_emit :
      (ℕ → ℤ → Bytes → Bytes → Bytes) → Conn N → Pack → Io (State U N) (Option Bytes)
  unfolding Conns.conn_emit
  conn_emit = Conns.conn_emit net

  unfoldable pub emit_everywhere :
      (ℕ → ℤ → Bytes → Bytes → Bytes) → List ℕ → Pack → Io (State U N) (ℕ × ℕ)
  unfolding Conns.emit_everywhere
  emit_everywhere = Conns.emit_everywhere net

  unfoldable pub conn_json_emit :
      (ℕ → ℤ → Bytes → Bytes → Bytes)
      → {D : Type 0} → (D → Bytes ⊎ Bytes)
      → Conn N
      → ValuePack D
      → Io (State U N) (Option Bytes)
  unfolding Conns.conn_json_emit
  conn_json_emit encode = Conns.conn_json_emit net encode

  unfoldable pub conn_proto_buf_emit :
      (ℕ → ℤ → Bytes → Bytes → Bytes)
      → {D : Type 0} → (D → Bytes ⊎ Bytes)
      → Conn N
      → ValuePack D
      → Io (State U N) (Option Bytes)
  unfolding Conns.conn_proto_buf_emit
  conn_proto_buf_emit encode = Conns.conn_proto_buf_emit net encode

  unfoldable pub proto_buf_emit :
      (ℕ → ℤ → Bytes → Bytes → Bytes)
      → {D : Type 0} → (D → Bytes ⊎ Bytes)
      → ℕ
      → ValuePack D
      → Io (State U N) (Option Bytes)
  unfolding Conns.proto_buf_emit
  proto_buf_emit encode = Conns.proto_buf_emit net encode

  unfoldable pub json_emit_all :
      (ℕ → ℤ → Bytes → Bytes → Bytes)
      → {D : Type 0} → (D → Bytes ⊎ Bytes)
      → List ℕ
      → ValuePack D
      → Io (State U N) (ℕ × ℕ)
  unfolding Conns.json_emit_all
  json_emit_all encode = Conns.json_emit_all net encode

  unfoldable pub proto_buf_emit_all :
      (ℕ → ℤ → Bytes → Bytes → Bytes)
      → {D : Type 0} → (D → Bytes ⊎ Bytes)
      → List ℕ
      → ValuePack D
      → Io (State U N) (ℕ × ℕ)
  unfolding Conns.proto_buf_emit_all
  proto_buf_emit_all encode = Conns.proto_buf_emit_all net encode
