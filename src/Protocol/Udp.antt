-- ===== src/Protocol/Udp.antt =====
-- socket/udp/protocol.go: the codec over UDP, whose headers may also open and close a connection.
use lemo.Base.{Bytes, Bool, ◌||◌, ℕ, ◌==◌, [], ◌∷◌, Outcome}
use lemo.Socket.MessageType
use lemo.Protocol.{Decoded}
use lemo.Protocol.Words.{ℤ}
use lemo.Protocol
use lemo.Protocol.Reader
use lemo.Protocol.Reader.{Fed}

abbrev pub open_message : Bytes
open_message = 0 ∷ 0 ∷ 3 ∷ 0 ∷ 0 ∷ 0 ∷ 0 ∷ 0 ∷ 0 ∷ 0 ∷ 0 ∷ 0 ∷ 0 ∷ 0 ∷ 0 ∷ 0 ∷ []

abbrev pub close_message : Bytes
close_message = 0 ∷ 0 ∷ 4 ∷ 0 ∷ 0 ∷ 0 ∷ 0 ∷ 0 ∷ 0 ∷ 0 ∷ 0 ∷ 0 ∷ 0 ∷ 0 ∷ 0 ∷ 0 ∷ []

abbrev pub ping_message : Bytes
ping_message = 0 ∷ 0 ∷ 9 ∷ 0 ∷ 0 ∷ 0 ∷ 0 ∷ 0 ∷ 0 ∷ 0 ∷ 0 ∷ 0 ∷ 0 ∷ 0 ∷ 0 ∷ 0 ∷ []

abbrev pub pong_message : Bytes
pong_message = 0 ∷ 0 ∷ 10 ∷ 0 ∷ 0 ∷ 0 ∷ 0 ∷ 0 ∷ 0 ∷ 0 ∷ 0 ∷ 0 ∷ 0 ∷ 0 ∷ 0 ∷ 0 ∷ []

unfoldable pub is_message_type : ℕ → Bool
is_message_type t =
    t == MessageType.bin
    || t == MessageType.ping
    || t == MessageType.pong
    || t == MessageType.open_type
    || t == MessageType.close

unfoldable pub is_header_invalid : Bytes → Bool
unfolding Protocol.is_header_invalid is_message_type
is_header_invalid = Protocol.is_header_invalid is_message_type

unfoldable pub decode : Bytes → Outcome Decoded
unfolding Protocol.decode is_message_type
decode = Protocol.decode is_message_type

unfoldable pub encode : ℕ → ℤ → Bytes → Bytes → Bytes
unfolding Protocol.encode
encode = Protocol.encode ping_message pong_message

unfoldable pub get_len : Bytes → ℕ
unfolding Protocol.get_len
get_len = Protocol.get_len

unfoldable pub pack_bin : ℤ → Bytes → Bytes → Bytes
unfolding Protocol.pack_bin
pack_bin = Protocol.pack_bin

-- One call of the closure that `Reader` returns; the server and the client do not use it.
unfoldable pub read : Reader.Reader → Bytes → Fed
unfolding Reader.read is_message_type
read = Reader.read is_message_type
