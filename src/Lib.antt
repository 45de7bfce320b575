-- ===== src/Lib.antt =====
-- lemo: tcp, udp and websocket servers and clients that exchange framed messages and dispatch them
-- to routes, with an http side.
--
-- A message is a 16-byte header (two zero bytes, the type, the length of the route in one byte, the
-- length of the body in four, an id in eight), the route and the body. A server reads chunks of
-- bytes from a connection, cuts them into messages, decodes each, runs it through the middleware
-- and, by the router, through the Before handlers, the function and the After handlers of a route.
-- Handlers answer by pushing encoded messages to a descriptor of the connection table.
--
-- Base: what the modules share: library names, tests on numbers, lists, association lists, panics
--   (Outcome) and effects on a state that may panic (Io).
-- Protocol: socket/tcp/protocol.go and its udp and websocket copies. `decode`, `encode`,
--   `is_header_invalid`, `get_len` and `pack_bin` are `Decode`, `Encode`, `isHeaderInvalid`,
--   `getLen` and `packBin`; Protocol.Reader is the closure of `Reader`; Protocol.Tcp, Udp and
--   Websocket fill in the fixed messages and the message types.
-- Params: params.go. Socket: socket/socket_stream.go; Socket.Dispatch is `decodeMessage`,
--   `middleware` and `handler` of the servers and clients.
-- Slices: Go slices over a store of arrays, since the routers append to slices that routes share.
-- Router: socket/tcp/server/router.go and the other socket routers. A group that a route refers to
--   is taken as it stands when `Handler` of the route is called.
-- Connections: the table of the servers (`addConnect`, `delConnect`, `GetConnection`); its child
--   Addresses is the table of the udp server with `addrMap`, and its `process`; its child Refined is
--   the table as a partial function, and its child Listing the goroutine of `GetConnections`.
-- Socket.Dispatch.Routes and Http.Server.Routes are what the two kinds of `handler` read of their
--   routers; Server.Routed follows packs from `Emit` of a client to the handlers of a route, and
--   Client.Read.Emitted those of a server to a client. Socket.Dispatch.Delivered and Client.Read.Cuts
--   are what both ways share.
-- Server: socket/tcp/server/server.go and conn.go: Push, Emit, EmitAll, Close, onOpen, onClose,
--   process; Server.Conns is the methods of `Conn` and the emits to all; Server.Startup is Ready and Start of all the servers.
-- Transports: the udp and websocket servers and the three clients, in socket/udp, socket/websocket
--   and socket/tcp/client, by the definitions above where the code is a copy.
-- Client: `Connect` of the clients: Client.Connect is its settings, its dialing and `reconnecting`,
--   Client.Lifecycle its goroutines as a step relation; Client.Async is the calls of async.go, and
--   its child Waits their wait against the goroutine that reads;
--   Client.Read the loops that read, and the default handlers of heartbeats.
-- Http: the directory http. Http.Store, Value, Json and Files are the files of those names;
--   Http.Store.Struct is `Struct`, over the list of the fields of a struct; Http.Stream is
--   http_stream.go; Http.Router and Http.Server are http/server; Http.Request is
--   info.go of http/client, and its children Make, Send and Calls are do.go, progress.go, params.go
--   and func.go.
-- Tests: the theorems at concrete inputs.
--
-- Parameters: the network connection, the prefix tree (github.com/lemoyxk/structure/tire),
-- `strings.ToLower`, `strconv.Itoa`, the clock, the file system, the HTTP, URL and JSON libraries, the
-- growth of slices in the Go runtime, the marshalling of values, and the user's handlers and
-- callbacks, which may change any of the state and may panic.
-- What is assumed of the prefix tree is the record IsTire (Router.Lookup) and, for the
-- http router, IsLastWins (Http.Router.Methods); of the response of net/http, IsResponse
-- (Http.Server.Response); of `filepath.Join` on Unix, IsJoin (Http.Server.Climbs). An error is its
-- message.
--
-- Bounds: a byte is a number, below 256 where a theorem needs it; a Go int has 64 bits, so no length
-- in the codec wraps; descriptors are bit patterns of an int64 and wrap at 2^64. The loop of the
-- reader has fuel one more than the bytes it holds, and each of its rounds but the last removes at
-- least 16.
--
-- Each method that locks is one step, and the callbacks of one connection run one after another, as
-- the code has them in one goroutine; two connections at work at once are not modelled beyond the
-- histories of the table, the timers of the udp server and the goroutines of one client. `Connect`
-- reconnects without end; its attempts are bounded by fuel, and the result says whether it returned.
--
-- Not modelled: GetConnections while the table changes, which it reads without the lock; the methods
-- that only read a field or call the net package; a field of an interface type in `Struct`; the examples and
-- the generated example/protobuf.
pub mod Base
pub mod Socket
pub mod Protocol
pub mod Params
pub mod Slices
pub mod Router
pub mod Connections
pub mod Server
pub mod Client
pub mod Http
pub mod Transports
pub mod Tests
