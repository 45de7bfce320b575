-- ===== src/Transports/Copies.antt =====
-- The rest of what the socket clients copy from one another: `ProtoBufEmit`, `Use` and `SetRouter` of
-- socket/tcp/client/client.go and its udp and websocket copies, and the handlers of heartbeats that
-- `Connect` gives the udp and the websocket client. `U` is the environment.
use lemo.Base.{Bool, Bytes, ℕ, List, Option, ◌⊎◌}
use lemo.Base.Io.{Io}
use lemo.Client.Read
use lemo.Client.Connect
use lemo.Client.Connect.{Settings, World}
use lemo.Protocol.Words.{ℤ}
use lemo.Socket.{ValuePack}
use lemo.Socket.Dispatch
use lemo.Socket.Dispatch.{Site, Middle, Found}
use lemo.Transports.TcpClient
use lemo.Transports.UdpClient
use lemo.Transports.WebsocketClient

module _ {U : Type 0} (push : Bytes → Io U (Option Bytes))
    (encode : ℕ → ℤ → Bytes → Bytes → Bytes) where
  module _ {D : Type 0} (marshal : D → Bytes ⊎ Bytes) where
    unfoldable pub tcp_proto_buf_emit : ValuePack D → Io U (Option Bytes)
    unfolding TcpClient.value_emit
    tcp_proto_buf_emit = TcpClient.value_emit push encode marshal

    unfoldable pub udp_proto_buf_emit : ValuePack D → Io U (Option Bytes)
    unfolding UdpClient.value_emit
    udp_proto_buf_emit = UdpClient.value_emit push encode marshal

    unfoldable pub websocket_proto_buf_emit : ValuePack D → Io U (Option Bytes)
    unfolding WebsocketClient.value_emit
    websocket_proto_buf_emit = WebsocketClient.value_emit push encode marshal

  unfoldable pub udp_heart_beat : Io U (Option Bytes)
  unfolding Read.default_heart_beat
  udp_heart_beat = Read.default_heart_beat push encode

  unfoldable pub udp_ping : Io U (Option Bytes)
  unfolding Read.default_ping
  udp_ping = Read.default_ping push encode

  unfoldable pub udp_pong :
      (reset : ℕ → Io U (Unit {0})) (heart_beat_timeout : ℕ) → Io U (Option Bytes)
  unfolding Read.default_pong
  udp_pong = Read.default_pong push encode

  unfoldable pub websocket_heart_beat : Io U (Option Bytes)
  unfolding Read.default_heart_beat
  websocket_heart_beat = Read.default_heart_beat push encode

  unfoldable pub websocket_ping : Io U (Option Bytes)
  unfolding Read.default_ping
  websocket_ping = Read.default_ping push encode

  unfoldable pub websocket_pong :
      (reset : ℕ → Io U (Unit {0})) (heart_beat_timeout : ℕ) → Io U (Option Bytes)
  unfolding Read.default_pong
  websocket_pong = Read.default_pong push encode

module _ {U N : Type 0} (world : World U N) where
  unfoldable pub udp_reconnecting : Settings → Io U Bool → Io U Bool
  unfolding Connect.reconnecting
  udp_reconnecting = Connect.reconnecting world

  unfoldable pub websocket_reconnecting : Settings → Io U Bool → Io U Bool
  unfolding Connect.reconnecting
  websocket_reconnecting = Connect.reconnecting world

module _ {S C X : Type 0} where
  -- `Use` and `SetRouter` of the tcp client.
  unfoldable pub tcp_use_middle : List (Middle S C X → Middle S C X) → Site S C X → Site S C X
  unfolding Dispatch.use_middle
  tcp_use_middle = Dispatch.use_middle

  unfoldable pub tcp_set_router : (Bytes → Io S (Option (Found S C X))) → Site S C X → Site S C X
  unfolding Dispatch.set_router
  tcp_set_router = Dispatch.set_router

  -- `Use` and `SetRouter` of the udp client.
  unfoldable pub udp_use_middle : List (Middle S C X → Middle S C X) → Site S C X → Site S C X
  unfolding Dispatch.use_middle
  udp_use_middle = Dispatch.use_middle

  unfoldable pub udp_set_router : (Bytes → Io S (Option (Found S C X))) → Site S C X → Site S C X
  unfolding Dispatch.set_router
  udp_set_router = Dispatch.set_router

  -- `Use` and `SetRouter` of the websocket client.
  unfoldable pub websocket_use_middle : List (Middle S C X → Middle S C X) → Site S C X → Site S C X
  unfolding Dispatch.use_middle
  websocket_use_middle = Dispatch.use_middle

  unfoldable pub websocket_set_router :
      (Bytes → Io S (Option (Found S C X))) → Site S C X → Site S C X
  unfolding Dispatch.set_router
  websocket_set_router = Dispatch.set_router

  -- `Use` and `SetRouter` of the udp server.
  unfoldable pub udp_server_use_middle :
      List (Middle S C X → Middle S C X) → Site S C X → Site S C X
  unfolding Dispatch.use_middle
  udp_server_use_middle = Dispatch.use_middle

  unfoldable pub udp_server_set_router :
      (Bytes → Io S (Option (Found S C X))) → Site S C X → Site S C X
  unfolding Dispatch.set_router
  udp_server_set_router = Dispatch.set_router

  -- `Use` and `SetRouter` of the websocket server.
  unfoldable pub websocket_server_use_middle :
      List (Middle S C X → Middle S C X) → Site S C X → Site S C X
  unfolding Dispatch.use_middle
  websocket_server_use_middle = Dispatch.use_middle

  unfoldable pub websocket_server_set_router :
      (Bytes → Io S (Option (Found S C X))) → Site S C X → Site S C X
  unfolding Dispatch.set_router
  websocket_server_set_router = Dispatch.set_router
