-- ===== src/Socket/MessageType.antt =====
-- The message types of socket/socket_stream.go.
use lemo.Base.{ℕ}

abbrev pub unknown : ℕ
unknown = 0

abbrev pub text : ℕ
text = 1

abbrev pub bin : ℕ
bin = 2

abbrev pub open_type : ℕ
open_type = 3

abbrev pub close : ℕ
close = 4

abbrev pub ping : ℕ
ping = 9

abbrev pub pong : ℕ
pong = 10
