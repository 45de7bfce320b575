-- ===== src/Protocol.antt =====
-- The 16-byte framed message format that the three transports share: socket/tcp/protocol.go, and
-- its copies socket/udp/protocol.go and socket/websocket/protocol.go. The copies differ in the
-- message types that a header may carry and in the fixed messages, which are parameters here and
-- are filled by Protocol.Tcp, Protocol.Udp and Protocol.Websocket. A byte is a number below 256,
-- and a Go `int` has 64 bits, so the sum of the lengths in a header does not wrap.
pub mod Words
pub mod Framed
pub mod RoundTrip
pub mod Sound
pub mod Total
pub mod Reader
pub mod Delivery
pub mod Tcp
pub mod Udp
pub mod Websocket
use lemo.Base.{
  Bytes, ℕ, ◌+◌, ◌*◌, ◌%◌, ◌^◌, Bool, true, false, not, List, [], ◌∷◌, ◌++◌, ltb, ◌==◌,
  if◌then◌else◌, length, get_or, take, drop, Outcome, ok, ◌>>=◌, slice,
}
use lemo.Socket.MessageType
use Words.{ℤ, pos, put_uint32, uint32, put_uint64, uint64, to_uint64, to_int64}

abbrev pub head_len : ℕ
head_len = 16

-- The four results of `Decode`.
pub record Decoded : Type 0 where
  pub message_type : ℕ
  pub id : ℤ
  pub route : Bytes
  pub body : Bytes

abbrev pub nothing : Decoded
nothing = record { message_type = MessageType.unknown; id = pos 0; route = []; body = [] }

-- `getLen`: the length that a header announces.
unfoldable pub get_len : Bytes → ℕ
get_len message =
    if ltb (length message) head_len
    then 0
    else get_or message 3 0 + uint32 (take 4 (drop 4 message)) + head_len

-- `packBin`.
unfoldable pub pack_bin : ℤ → Bytes → Bytes → Bytes
pack_bin id route body =
    0
    ∷ 0
    ∷ MessageType.bin
    ∷ (length route % 256)
    ∷ (put_uint32 (length body % 2 ^ 32) ++ (put_uint64 (to_uint64 id) ++ (route ++ body)))

-- `is_message_type` is the last test of the transport's `isHeaderInvalid`.
module _ (is_message_type : ℕ → Bool) where
  -- `isHeaderInvalid`, which in spite of its name is true of a header that is valid.
  unfoldable pub is_header_invalid : Bytes → Bool
  is_header_invalid message =
      if ltb (length message) head_len
      then false
      else if not (get_or message 0 0 == 0)
      then false
      else if not (get_or message 1 0 == 0)
      then false
      else is_message_type (get_or message 2 0)

  -- `HeadLen + message[3]` is a sum of bytes, since the constant has no type of its own.
  unfoldable pub cut : Bytes → ℕ
  cut message = (head_len + get_or message 3 0) % 256

  split : Bytes → Outcome Decoded
  unfolding cut
  split message = do
    route ← slice head_len (cut message) message
    body ← slice (cut message) (length message) message
    ok (record {
      message_type = get_or message 2 0;
      id = to_int64 (uint64 (take 8 (drop 8 message)));
      route = route;
      body = body;
    })

  unfoldable pub decode : Bytes → Outcome Decoded
  unfolding split
  decode message =
      if not (is_header_invalid message)
      then ok nothing
      else if not (get_len message == length message)
      then ok nothing
      else split message

-- `Encode`, over the transport's `PingMessage` and `PongMessage`.
module _ (ping_message pong_message : Bytes) where
  unfoldable pub encode : ℕ → ℤ → Bytes → Bytes → Bytes
  encode message_type id route body =
      if message_type == MessageType.bin
      then pack_bin id route body
      else if message_type == MessageType.ping
      then ping_message
      else if message_type == MessageType.pong
      then pong_message
      else []
