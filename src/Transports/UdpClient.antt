-- ===== src/Transports/UdpClient.antt =====
-- socket/udp/client/router.go, and what socket/udp/client/client.go sends and dispatches. The code is
-- that of the tcp client but for the limit on the size of a datagram, and `process`.
pub mod Routes
use lemo.Base.{Bytes, ℕ, List, Option, Outcome}
use lemo.Base.Io.{Io}
use lemo.Router.{Hit, Tire, Node, Group, Route, Store, Router}
use lemo.Socket.Dispatch
use lemo.Socket.Dispatch.{Site, Middle}
use lemo.Base.{◌⊎◌, inl, inr, none, some}
use lemo.Protocol.Words.{ℤ}
use lemo.Socket.{Pack, ValuePack}
use lemo.Socket.MessageType
use lemo.Base.Io.{pure, ◌>>=◌}
use lemo.Base.{ok, panic, [], ◌∷◌}
use lemo.Protocol.Udp.{close_message}
use lemo.Params.{index}
use lemo.Connections.Addresses.{Case, carries, opening, closing, ignoring, case_of}
use lemo.Transports.Limit.{limited}

module _ {H : Type 0} (tire : Tire (Node H)) (to_lower : Bytes → Bytes) (grow : ℕ → ℕ → ℕ) where
  unfoldable pub route_handler :
      Store H
      → Router tire to_lower grow
      → Route
      → Bytes
      → H
      → Outcome (Store H × Router tire to_lower grow × Node H)
  unfolding lemo.Router.route_handler
  route_handler = lemo.Router.route_handler tire to_lower grow

  unfoldable pub get_all_routers : Router tire to_lower grow → Outcome (List (Node H))
  unfolding lemo.Router.get_all_routers
  get_all_routers = lemo.Router.get_all_routers tire to_lower grow

  unfoldable pub get_route : Router tire to_lower grow → Bytes → Option (Hit (Node H) × Bytes)
  unfolding lemo.Router.get_route
  get_route = lemo.Router.get_route tire to_lower grow

  unfoldable pub remove :
      Router tire to_lower grow → List Bytes → Outcome (Router tire to_lower grow)
  unfolding lemo.Router.client_remove
  remove = lemo.Router.client_remove tire to_lower grow

  unfoldable pub group_remove :
      Router tire to_lower grow → Group → Bytes → Outcome (Router tire to_lower grow)
  unfolding lemo.Router.client_group_remove
  group_remove = lemo.Router.client_group_remove tire to_lower grow

module _ {S C X : Type 0} where
  unfoldable pub handler : Site S C X → Middle S C X
  unfolding Dispatch.handler
  handler = Dispatch.handler

  unfoldable pub middleware : Site S C X → Middle S C X
  unfolding Dispatch.middleware
  middleware = Dispatch.middleware

  unfoldable pub decode_message : Site S C X → C → Bytes → Io S (Option Bytes)
  unfolding Dispatch.decode_message
  decode_message = Dispatch.decode_message

module _ {U : Type 0} (itoa : ℕ → Bytes) (read_buffer_size : ℕ)
    (write : Bytes → U → Option Bytes × U) where
  -- `Push`, and `WriteToUDP`, which differ in the address that `write` sends to.
  unfoldable pub push : Bytes → Io U (Option Bytes)
  unfolding limited
  push message = limited itoa read_buffer_size write message

  -- `Close`: the error of the last message is dropped.
  unfoldable pub close : (U → Option Bytes × U) → Io U (Option Bytes)
  unfolding push
  close close_conn = push close_message >>= λ _ u. ok (close_conn u)

-- "close"
abbrev pub close_error : Bytes
close_error = 99 ∷ 108 ∷ 111 ∷ 115 ∷ 101 ∷ []

module _ {S C X : Type 0} (site : Site S C X) (client : C) (message : Bytes) where
  unfoldable pub on_case : Case → Io S (Option Bytes)
  unfolding decode_message
  on_case carries = decode_message site client message
  on_case opening = pure none
  on_case closing = pure (some close_error)
  on_case ignoring = pure none

  -- `process`: the read of `message[2]` panics on a datagram of fewer than three bytes.
  unfoldable pub process : Io S (Option Bytes)
  unfolding on_case
  process = elim (index message 2) [
    | panic ↦ λ s. panic
    | ok message_type ↦ on_case (case_of message_type)
  ]

-- `U` is the environment. `push` is `Push`, and `encode` is `Protocol.Encode`.
module _ {U : Type 0} (push : Bytes → Io U (Option Bytes))
    (encode : ℕ → ℤ → Bytes → Bytes → Bytes) where
  unfoldable pub emit : Pack → Io U (Option Bytes)
  emit pack = push (encode MessageType.bin pack.id pack.event pack.payload)

  -- `JsonEmit` and `ProtoBufEmit`
  unfoldable pub value_emit : {D : Type 0} → (D → Bytes ⊎ Bytes) → ValuePack D → Io U (Option Bytes)
  value_emit marshal pack = elim (marshal pack.value) [
    | inl err ↦ pure (some err)
    | inr encoded ↦ push (encode MessageType.bin pack.id pack.event encoded)
  ]
