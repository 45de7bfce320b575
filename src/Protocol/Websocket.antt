-- ===== src/Protocol/Websocket.antt =====
-- socket/websocket/protocol.go: the codec over websocket frames.
use lemo.Base.{Bytes, Bool, ◌||◌, ℕ, ◌==◌, [], ◌∷◌, Outcome}
use lemo.Socket.MessageType
use lemo.Protocol.{Decoded}
use lemo.Protocol.Words.{ℤ}
use lemo.Protocol

abbrev pub ping_message : Bytes
ping_message = 0 ∷ 0 ∷ 9 ∷ 0 ∷ 0 ∷ 0 ∷ 0 ∷ 0 ∷ 0 ∷ 0 ∷ 0 ∷ 0 ∷ 0 ∷ 0 ∷ 0 ∷ 0 ∷ []

abbrev pub pong_message : Bytes
pong_message = 0 ∷ 0 ∷ 10 ∷ 0 ∷ 0 ∷ 0 ∷ 0 ∷ 0 ∷ 0 ∷ 0 ∷ 0 ∷ 0 ∷ 0 ∷ 0 ∷ 0 ∷ 0 ∷ []

unfoldable pub is_message_type : ℕ → Bool
is_message_type t = t == MessageType.bin || t == MessageType.ping || t == MessageType.pong

unfoldable pub is_header_invalid : Bytes → Bool
unfolding Protocol.is_header_invalid is_message_type
is_header_invalid = Protocol.is_header_invalid is_message_type

unfoldable pub decode : Bytes → Outcome Decoded
unfolding Protocol.decode is_message_type
decode = Protocol.decode is_message_type

unfoldable pub encode : ℕ → ℤ → Bytes → Bytes → Bytes
unfolding Protocol.encode
encode = Protocol.encode ping_message pong_message

unfoldable pub get_len : Bytes → ℕ
unfolding Protocol.get_len
get_len = Protocol.get_len

unfoldable pub pack_bin : ℤ → Bytes → Bytes → Bytes
unfolding Protocol.pack_bin
pack_bin = Protocol.pack_bin
