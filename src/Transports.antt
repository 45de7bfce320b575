-- ===== src/Transports.antt =====
-- The servers and clients of the other transports: udp and websocket, and the tcp client. Where a
-- file is a copy of the code that the modules Router, Socket.Dispatch, Connections and Server
-- translate, its definitions here are those; what differs is written out.
pub mod Limit
pub mod Copies
pub mod TcpClient
pub mod UdpServer
pub mod UdpClient
pub mod WebsocketServer
pub mod WebsocketClient
