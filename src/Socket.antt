-- ===== src/Socket.antt =====
-- What the socket transports share: socket/socket_stream.go, and the parts of the servers and
-- clients that are copied from transport to transport.
pub mod MessageType
pub mod Dispatch
use lemo.Base.{Bytes, Option}
use lemo.Params.{Params}
use lemo.Protocol.Words.{ℤ}

pub record Pack : Type 0 where
  pub event : Bytes
  pub payload : Bytes
  pub id : ℤ

-- `JsonPack` and `ProtoBufPack`: the data is a value that a library marshals.
pub record ValuePack (D : Type 0) : Type 0 where
  pub event : Bytes
  pub value : D
  pub id : ℤ

-- `X` is what handlers keep in `Context` and `Logger`.
pub record Stream (X : Type 0) : Type 0 where
  pub pack : Pack
  pub open pack use *
  pub params : Params
  pub context : Option X
  pub logger : Option X
