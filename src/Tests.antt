-- ===== src/Tests.antt =====
-- The theorems at concrete inputs, and test data.
pub mod Codec
pub mod Streams
pub mod Serving
pub mod Dispatching
pub mod Tables
pub mod Routing
pub mod Trees
pub mod Emitting
pub mod Structs
pub mod Routed
pub mod Datagrams
pub mod Clients
pub mod Forms
pub mod Files
pub mod Pages
