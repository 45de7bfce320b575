-- ===== src/Client.antt =====
-- The clients of socket/tcp/client, socket/udp/client and socket/websocket/client beyond what they
-- send: `Connect` with its attempts (Client.Connect) and its goroutines (Client.Lifecycle), the calls
-- that wait for an answer (Client.Async), and the loops that read (Client.Read).
pub mod Lifecycle
pub mod Connect
pub mod Async
pub mod Read
