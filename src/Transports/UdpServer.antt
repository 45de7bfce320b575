-- ===== src/Transports/UdpServer.antt =====
-- socket/udp/server: router.go, the sending of server.go and conn.go, and its dispatch. Connections.Addresses
-- has the connection table and `process`.
pub mod Size
pub mod Queue
pub mod Routes
pub mod Conns
use lemo.Base.{Bytes, ℕ, Bool, List, Option, Outcome}
use lemo.Base.Io.{Io}
use lemo.Router.{Hit, Tire, Node, Group, Route, Store, Router}
use lemo.Socket.{Stream}
use lemo.Socket.Dispatch
use lemo.Socket.Dispatch.{Site, Middle}
use lemo.Base.{◌⊎◌, inl, inr, none, some, ok, panic}
use lemo.Base.Io.{pure, ◌>>=◌, ◌>>◌}
use lemo.Base.Assoc.{lookup}
use lemo.Connections.Addresses.{Peer, AddrTable, add_connect, del_connect}
use lemo.Protocol.Udp.{close_message}
use lemo.Protocol.Words.{ℤ}
use lemo.Socket.{Pack, ValuePack}
use lemo.Socket.MessageType
use lemo.Server.{client_is_close, fd_not_found}
use lemo.Transports.Limit.{limited}

module _ {H : Type 0} (tire : Tire (Node H)) (to_lower : Bytes → Bytes) (grow : ℕ → ℕ → ℕ) where
  unfoldable pub route_handler :
      Store H
      → Router tire to_lower grow
      → Route
      → Bytes
      → H
      → Outcome (Store H × Router tire to_lower grow × Node H)
  unfolding lemo.Router.route_handler
  route_handler = lemo.Router.route_handler tire to_lower grow

  unfoldable pub get_all_routers : Router tire to_lower grow → Outcome (List (Node H))
  unfolding lemo.Router.get_all_routers
  get_all_routers = lemo.Router.get_all_routers tire to_lower grow

  unfoldable pub get_route : Router tire to_lower grow → Bytes → Option (Hit (Node H) × Bytes)
  unfolding lemo.Router.get_route
  get_route = lemo.Router.get_route tire to_lower grow

  unfoldable pub remove :
      Router tire to_lower grow → List Bytes → Outcome (Router tire to_lower grow)
  unfolding lemo.Router.server_remove
  remove = lemo.Router.server_remove tire to_lower grow

  unfoldable pub group_remove :
      Router tire to_lower grow → Group → Bytes → Outcome (Router tire to_lower grow)
  unfolding lemo.Router.server_group_remove
  group_remove = lemo.Router.server_group_remove tire to_lower grow

module _ {S C X : Type 0} where
  unfoldable pub handler : Site S C X → Middle S C X
  unfolding Dispatch.handler
  handler = Dispatch.handler

  unfoldable pub middleware : Site S C X → Middle S C X
  unfolding Dispatch.middleware
  middleware = Dispatch.middleware

  unfoldable pub decode_message : Site S C X → C → Bytes → Io S (Option Bytes)
  unfolding Dispatch.decode_message
  decode_message = Dispatch.decode_message

pub record State (U : Type 0) : Type 0 where
  pub table : AddrTable
  pub env : U

unfoldable pub get_connection : AddrTable → ℕ → Option Peer
get_connection t fd = lookup fd t.connections

module _ {U : Type 0} where
  abbrev pub with_env : {A : Type 0} → (U → A × U) → Io (State U) A
  with_env f s = let (a, u) = f s.env in ok (a, record s { env = u })

  abbrev pub lifted : {A : Type 0} → State U → Outcome (A × U) → Outcome (A × State U)
  lifted s panic = panic
  lifted s (ok (a, u)) = ok (a, record s { env = u })

  abbrev pub lift : {A : Type 0} → Io U A → Io (State U) A
  lift m s = lifted s (m s.env)

-- `write_to_udp` is the call on the socket, given the address of the peer.
module _ {U : Type 0} (itoa : ℕ → Bytes) (read_buffer_size : ℕ)
    (write_to_udp : Bytes → Bytes → U → Option Bytes × U) where
  -- `Conn.Write` and `Conn.WriteToUDP`, which differ in the address.
  unfoldable pub write : Peer → Bytes → Io (State U) (Option Bytes)
  unfolding limited
  write conn msg = lift (limited itoa read_buffer_size (write_to_udp conn.net_conn) msg)

  -- `Push`
  unfoldable pub push : ℕ → Bytes → Io (State U) (Option Bytes)
  unfolding write get_connection
  push fd msg s = elim (get_connection s.table fd) [
    | none ↦ ok (some client_is_close, s)
    | some conn ↦ write conn msg s
  ]

  -- `Close`, with `Conn.Close`.
  unfoldable pub close : ℕ → Io (State U) (Option Bytes)
  unfolding write get_connection
  close fd s = elim (get_connection s.table fd) [
    | none ↦ ok (some fd_not_found, s)
    | some conn ↦ write conn close_message s
  ]

  module _ (encode : ℕ → ℤ → Bytes → Bytes → Bytes) where
    unfoldable pub emit : ℕ → Pack → Io (State U) (Option Bytes)
    unfolding push
    emit fd pack = push fd (encode MessageType.bin pack.id pack.event pack.payload)

    -- `JsonEmit` and `ProtoBufEmit`
    unfoldable pub value_emit :
        {D : Type 0} → (D → Bytes ⊎ Bytes) → ℕ → ValuePack D → Io (State U) (Option Bytes)
    value_emit marshal fd pack = elim (marshal pack.value) [
      | inl err ↦ pure (some err)
      | inr encoded ↦ push fd (encode MessageType.bin pack.id pack.event encoded)
    ]
