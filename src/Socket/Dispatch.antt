-- ===== src/Socket/Dispatch.antt =====
-- From a decoded message to the user's handlers: `decodeMessage`, `middleware` and `handler` of the
-- servers and clients, which are the same code in socket/tcp, socket/udp and socket/websocket.
-- Written from socket/tcp/server/server.go; the clients have a client where a server has a
-- connection. A handler gets the stream by pointer: here it returns the stream as it leaves it.
-- The fields of a node are the contents of its slices (Router) when the message arrives.
pub mod Pipeline
pub mod Onion
pub mod Delivered
pub mod Routes
use lemo.Base.{
  Bytes, ℕ, ◌==◌, Bool, true, false, List, [], ◌∷◌, ◌++◌, Option, none, some, Outcome, ok, panic,
  if◌then◌else◌,
}
use lemo.Base.Io.{Io, pure, ◌>>=◌, ◌>>◌, call_if_set, then_with}
use lemo.Params.{Params}
use lemo.Protocol.{Decoded}
use lemo.Socket.{Stream, Pack}
use lemo.Socket.MessageType
use mathlib.Core.List.{reverse}

-- " 404 not found"
abbrev pub not_found : Bytes
not_found = 32 ∷ 52 ∷ 48 ∷ 52 ∷ 32 ∷ 110 ∷ 111 ∷ 116 ∷ 32 ∷ 102 ∷ 111 ∷ 117 ∷ 110 ∷ 100 ∷ []

-- The stream that `decodeMessage` builds.
abbrev pub fresh_stream : {X : Type 0} → Decoded → Stream X
fresh_stream d = record {
  pack = record { event = d.route; payload = d.body; id = d.id };
  params = record { keys = []; values = [] };
  context = none;
  logger = none;
}

-- `S` is the state of the whole program, `C` the type of `conn`, `X` that of a stream's context.
-- An error is its message.
module _ (S C X : Type 0) where
  -- A `function`, `Before` or `After`: its error, and the stream as it leaves it.
  abbrev pub Handler : Type 0
  Handler = C → Stream X → Io S (Option Bytes × Stream X)

  abbrev pub Middle : Type 0
  Middle = C → Stream X → Io S (Stream X)

  -- What dispatch reads of a `node`.
  pub record Node : Type 0 where
    pub function : Handler
    pub before : List Handler
    pub after : List Handler

  -- `getRoute` and `ParseParams`: a node with the names and the values of its parameters.
  pub record Found : Type 0 where
    pub node : Node
    pub keys : List Bytes
    pub values : List Bytes

  -- The fields of a server or client that dispatch reads. `get_route` is none while the router is
  -- nil.
  pub record Site : Type 0 where
    pub on_error : Option (Bytes → Io S (Unit {0}))
    pub on_message : Option (C → Bytes → Io S (Unit {0}))
    pub on_unknown : Option (C → Bytes → Middle → Io S (Unit {0}))
    pub ping_handler : C → Io S (Option Bytes)
    pub pong_handler : C → Io S (Option Bytes)
    pub decode : Bytes → Outcome Decoded
    pub get_route : Option (Bytes → Io S (Option Found))
    pub middle : List (Middle → Middle)

-- After a handler in one of the loops: go on with the rest, or leave the loop.
module _ {S X : Type 0} where
  abbrev pub unless_error :
      (Stream X → Io S (Option Bytes × Stream X))
      → Option Bytes × Stream X
      → Io S (Option Bytes × Stream X)
  unless_error rest (none, stream) = rest stream
  unless_error rest (some e, stream) = pure (some e, stream)

module _ {S C X : Type 0} where
  -- One of the `for` loops over `Before` or `After`, up to the first error.
  unfoldable pub run_until_error : List (Handler S C X) → Handler S C X
  run_until_error [] conn stream = pure (none, stream)
  run_until_error (h ∷ hs) conn stream =
      h conn stream >>= unless_error (λ stream. run_until_error hs conn stream)

  -- `if err != nil { if s.OnError != nil { s.OnError(err) } }`, and `return`.
  abbrev pub report : Site S C X → Bytes → Stream X → Io S (Stream X)
  report site e stream = call_if_set site.on_error e >> pure stream

  -- After a stage of `handler`: go on with the rest, or report the error and return.
  abbrev pub unless_failed :
      Site S C X → (Stream X → Io S (Stream X)) → Option Bytes × Stream X → Io S (Stream X)
  unless_failed site rest (none, stream) = rest stream
  unless_failed site rest (some e, stream) = report site e stream

  -- What stands below `getRoute` in `handler`: the three stages, each of which may end it.
  unfoldable pub run_node : Site S C X → Node S C X → Middle S C X
  run_node site node conn stream =
      run_until_error node.before conn stream
      >>= unless_failed site (λ stream.
        node.function conn stream
        >>= unless_failed site
            (λ stream. run_until_error node.after conn stream >>= unless_failed site pure))

  unfoldable pub handler : Site S C X → Middle S C X
  handler site conn stream = elim site.get_route [
    | none ↦ report site (stream.event ++ not_found) stream
    | some get_route ↦ get_route stream.event >>= λ found. elim found [
      | none ↦ report site (stream.event ++ not_found) stream
      | some n ↦
          run_node site n.node conn
            (record stream { params = record { keys = n.keys; values = n.values } })
    ]
  ]

  -- `next = s.middle[i](next)` for i from len(s.middle) - 1 down to 0: over the reversed list.
  unfoldable pub wrap : List (Middle S C X → Middle S C X) → Middle S C X → Middle S C X
  wrap [] next = next
  wrap (m ∷ ms) next = wrap ms (m next)

  unfoldable pub middleware : Site S C X → Middle S C X
  middleware site = wrap (reverse site.middle) (handler site)

  -- `Use`
  unfoldable pub use_middle : List (Middle S C X → Middle S C X) → Site S C X → Site S C X
  use_middle middle site = record site { middle = site.middle ++ middle }

  -- `SetRouter`, with what `getRoute` and `ParseParams` of the router give.
  unfoldable pub set_router : (Bytes → Io S (Option (Found S C X))) → Site S C X → Site S C X
  set_router get_route site = record site { get_route = some get_route }

  -- `decodeMessage`, with its error. `Decode` may panic.
  unfoldable pub decode_message : Site S C X → C → Bytes → Io S (Option Bytes)
  decode_message site conn message = elim (site.decode message) [
    | panic ↦ λ s. panic
    | ok d ↦
        (elim site.on_message [ none ↦ pure tt | some f ↦ f conn message ])
        >> (if d.message_type == MessageType.unknown
            then (elim site.on_unknown [
              | none ↦ pure none
              | some f ↦ f conn message (middleware site) >> pure none
            ])
            else if d.message_type == MessageType.ping
            then site.ping_handler conn
            else if d.message_type == MessageType.pong
            then site.pong_handler conn
            else middleware site conn (fresh_stream d) >>= λ _. pure none)
  ]
