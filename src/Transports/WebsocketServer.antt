-- ===== src/Transports/WebsocketServer.antt =====
-- socket/websocket/server: router.go and server.go. The routes, the table, the emits and the dispatch
-- are those of the tcp server; `process` reads whole messages, with no reader, and stops at the
-- first error of `decodeMessage`.
pub mod Process
pub mod Routes
pub mod Conns
use lemo.Base.{Bytes, ℕ, Bool, List, Option, Outcome}
use lemo.Base.Io.{Io}
use lemo.Router.{Hit, Tire, Node, Group, Route, Store, Router}
use lemo.Socket.{Stream}
use lemo.Socket.Dispatch
use lemo.Socket.Dispatch.{Site, Middle}
use lemo.Connections.{Conn, Table}
use lemo.Connections
use lemo.Protocol.Words.{ℤ}
use lemo.Socket.{Pack, ValuePack}
use lemo.Base.{◌⊎◌}
use lemo.Server.{Net, State, Server}
use lemo.Base.{none, some, [], ◌∷◌, inl, inr}
use lemo.Server.{with_env}
use lemo.Base.Io.{pure, ◌>>=◌, ◌>>◌}

module _ {H : Type 0} (tire : Tire (Node H)) (to_lower : Bytes → Bytes) (grow : ℕ → ℕ → ℕ) where
  unfoldable pub route_handler :
      Store H
      → Router tire to_lower grow
      → Route
      → Bytes
      → H
      → Outcome (Store H × Router tire to_lower grow × Node H)
  unfolding lemo.Router.route_handler
  route_handler = lemo.Router.route_handler tire to_lower grow

  unfoldable pub get_all_routers : Router tire to_lower grow → Outcome (List (Node H))
  unfolding lemo.Router.get_all_routers
  get_all_routers = lemo.Router.get_all_routers tire to_lower grow

  unfoldable pub get_route : Router tire to_lower grow → Bytes → Option (Hit (Node H) × Bytes)
  unfolding lemo.Router.get_route
  get_route = lemo.Router.get_route tire to_lower grow

  unfoldable pub remove :
      Router tire to_lower grow → List Bytes → Outcome (Router tire to_lower grow)
  unfolding lemo.Router.server_remove
  remove = lemo.Router.server_remove tire to_lower grow

  unfoldable pub group_remove :
      Router tire to_lower grow → Group → Bytes → Outcome (Router tire to_lower grow)
  unfolding lemo.Router.server_group_remove
  group_remove = lemo.Router.server_group_remove tire to_lower grow

module _ {S C X : Type 0} where
  unfoldable pub handler : Site S C X → Middle S C X
  unfolding Dispatch.handler
  handler = Dispatch.handler

  unfoldable pub middleware : Site S C X → Middle S C X
  unfolding Dispatch.middleware
  middleware = Dispatch.middleware

  unfoldable pub decode_message : Site S C X → C → Bytes → Io S (Option Bytes)
  unfolding Dispatch.decode_message
  decode_message = Dispatch.decode_message

module _ {N : Type 0} where
  unfoldable pub add_connect : Table N → Conn N → Table N × Conn N
  unfolding Connections.add_connect
  add_connect = Connections.add_connect

  unfoldable pub del_connect : Table N → Conn N → Table N
  unfolding Connections.del_connect
  del_connect = Connections.del_connect

  unfoldable pub get_connection : Table N → ℕ → Option (Conn N)
  unfolding Connections.get_connection
  get_connection = Connections.get_connection

  unfoldable pub get_connections_count : Table N → ℕ
  unfolding Connections.get_connections_count
  get_connections_count = Connections.get_connections_count

-- The write of `net` sends a frame of type `Bin`.
module _ {U N : Type 0} (net : Net U N) where
  unfoldable pub push : ℕ → Bytes → Io (State U N) (Option Bytes)
  unfolding lemo.Server.push
  push = lemo.Server.push net

  unfoldable pub close : ℕ → Io (State U N) (Option Bytes)
  unfolding lemo.Server.close
  close = lemo.Server.close net

  unfoldable pub emit : (ℕ → ℤ → Bytes → Bytes → Bytes) → ℕ → Pack → Io (State U N) (Option Bytes)
  unfolding lemo.Server.emit
  emit = lemo.Server.emit net

  unfoldable pub value_emit :
      (ℕ → ℤ → Bytes → Bytes → Bytes)
      → {D : Type 0} → (D → Bytes ⊎ Bytes)
      → ℕ
      → ValuePack D
      → Io (State U N) (Option Bytes)
  unfolding lemo.Server.value_emit
  value_emit encode = lemo.Server.value_emit net encode

-- The loop of `EmitAll`, `JsonEmitAll` and `ProtoBufEmitAll`.
unfoldable pub emit_all :
    {U N : Type 0} → (ℕ → Io (State U N) (Option Bytes)) → List ℕ → ℕ → ℕ → Io (State U N) (ℕ × ℕ)
unfolding lemo.Server.emit_all
emit_all = lemo.Server.emit_all

module _ {U N X : Type 0} (net : Net U N) (server : Server U N X) where
  unfoldable pub on_open : Conn N → Io (State U N) (Conn N)
  unfolding lemo.Server.on_open
  on_open = lemo.Server.on_open net server

  unfoldable pub on_close : Conn N → Io (State U N) (Unit {0})
  unfolding lemo.Server.on_close
  on_close = lemo.Server.on_close net server

  open server use {site, on_error_callback}

  -- After one message: the next, or `onError` and the end of the loop.
  abbrev pub after_message : Option Bytes → Io (State U N) (Unit {0}) → Io (State U N) (Unit {0})
  after_message none next = next
  after_message (some err) next = on_error_callback err

  -- An empty message moves the deadline.
  abbrev pub keep_alive : Conn N → Bytes → Io (State U N) (Unit {0})
  keep_alive conn [] = with_env (net.set_read_deadline conn.net_conn) >>= λ _. pure tt
  keep_alive conn (b ∷ message) = pure tt

  -- The loop of `process` over what `netConn.ReadMessage` returns: messages, and then an error.
  unfoldable pub read_loop : Conn N → List Bytes → Io (State U N) (Unit {0})
  read_loop conn [] = pure tt
  read_loop conn (message ∷ messages) =
      let next : Io (State U N) (Unit {0}) = read_loop conn messages in
      keep_alive conn message
      >> (Dispatch.decode_message site conn message >>= λ err. after_message err next)

  -- `process` after the upgrade of the request, which is a parameter, with its error.
  -- `set_handlers` gives the ping and pong handlers to the network connection.
  unfoldable pub process :
      (upgraded : Bytes ⊎ N) (set_handlers : Conn N → U → Unit {0} × U)
      → List Bytes
      → Io (State U N) (Unit {0})
  process (inl err) set_handlers messages = on_error_callback err
  process (inr net_conn) set_handlers messages =
      with_env (net.set_read_deadline net_conn) >>= λ err. elim err [
        | some e ↦ on_error_callback e
        | none ↦
            with_env (set_handlers (record { fd = 0; net_conn = net_conn }))
            >> (on_open (record { fd = 0; net_conn = net_conn }) >>= λ conn.
                read_loop conn messages >> on_close conn)
      ]
