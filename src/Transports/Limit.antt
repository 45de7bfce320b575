-- ===== src/Transports/Limit.antt =====
-- The limit on the size of a datagram, in `Conn.Write` and `WriteToUDP` of socket/udp/server/conn.go
-- and in `Push` and `WriteToUDP` of socket/udp/client/client.go.
use lemo.Base.{Bytes, ℕ, ◌+◌, [], ◌∷◌, ◌++◌, Option, some, ltb, length, if◌then◌else◌, ok}
use lemo.Base.Io.{Io}
use lemo.Protocol.{head_len}

-- "max length is "
abbrev pub max_length_is : Bytes
max_length_is = 109 ∷ 97 ∷ 120 ∷ 32 ∷ 108 ∷ 101 ∷ 110 ∷ 103 ∷ 116 ∷ 104 ∷ 32 ∷ 105 ∷ 115 ∷ 32 ∷ []

-- "but now is "
abbrev pub but_now_is : Bytes
but_now_is = 98 ∷ 117 ∷ 116 ∷ 32 ∷ 110 ∷ 111 ∷ 119 ∷ 32 ∷ 105 ∷ 115 ∷ 32 ∷ []

-- `itoa` is `strconv.Itoa`, and `write` the locked write to the socket.
module _ (itoa : ℕ → Bytes) (read_buffer_size : ℕ) where
  abbrev pub too_long : Bytes → Bytes
  too_long msg = max_length_is ++ (itoa read_buffer_size ++ (but_now_is ++ itoa (length msg)))

  unfoldable pub limited :
      {U : Type 0} → (Bytes → U → Option Bytes × U) → Bytes → Io U (Option Bytes)
  limited write msg u =
      if ltb (read_buffer_size + head_len) (length msg)
      then ok (some (too_long msg), u)
      else ok (write msg u)
