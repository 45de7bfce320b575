-- ===== src/Client/Read.antt =====
-- The readers' goroutines of `Connect` and the handlers of heartbeats that `Connect` gives a client
-- without any: socket/tcp/client/client.go and its udp and websocket copies. What the connection
-- returns is a list, before its first error; the state `S` is what the callbacks change.
pub mod First
pub mod Cuts
pub mod Emitted
use lemo.Base.{
  Bytes, codes, ℕ, ◌==◌, Bool, List, [], ◌∷◌, Option, none, some, if◌then◌else◌, str_eq,
}
use lemo.Base.Io.{Io, pure, ◌>>=◌, ◌>>◌}
use lemo.Protocol.Reader.{Reader, Status, read, read_on, invalid_header, out_of_fuel}
use lemo.Protocol.Words.{ℤ, pos}
use lemo.Server.{invalid_header_error}
use lemo.Socket.MessageType

module _ {S : Type 0} (on_error : Bytes → Io S (Unit {0})) where
  -- The tcp client. The callback of the reader assigns the error of `decodeMessage` to `err`, which
  -- the result of the reader then overwrites.
  module _ (decode_message : Bytes → Io S (Option Bytes)) where
    unfoldable pub deliver : List Bytes → Io S (Unit {0})
    deliver [] = pure tt
    deliver (frame ∷ frames) = decode_message frame >>= λ _. deliver frames

    abbrev pub after_read : Status → Io S (Unit {0}) → Io S (Unit {0})
    after_read read_on next = next
    after_read invalid_header next = on_error invalid_header_error
    after_read out_of_fuel next = pure tt

    unfoldable pub read_loop : (ℕ → Bool) → Reader → List Bytes → Io S (Unit {0})
    unfolding deliver
    read_loop known reader [] = pure tt
    read_loop known reader (chunk ∷ chunks) =
        let result = read known reader chunk in
        let next : Io S (Unit {0}) = read_loop known result.reader chunks in
        deliver result.frames >> after_read result.status next

    -- The websocket client.
    abbrev pub after_message : Option Bytes → Io S (Unit {0}) → Io S (Unit {0})
    after_message none next = next
    after_message (some err) next = on_error err

    unfoldable pub websocket_read_loop : List Bytes → Io S (Unit {0})
    websocket_read_loop [] = pure tt
    websocket_read_loop (message ∷ messages) =
        decode_message message >>= λ err. after_message err (websocket_read_loop messages)

  -- The udp client: the error "close", which `process` gives for a Close message, is not reported.
  module _ (process : Bytes → Io S (Option Bytes)) where
    abbrev pub after_datagram : Option Bytes → Io S (Unit {0}) → Io S (Unit {0})
    after_datagram none next = next
    after_datagram (some err) next = if str_eq err (codes "close") then pure tt else on_error err

    unfoldable pub udp_read_loop : List Bytes → Io S (Unit {0})
    udp_read_loop [] = pure tt
    udp_read_loop (message ∷ messages) =
        process message >>= λ err. after_datagram err (udp_read_loop messages)

module _ {S : Type 0} (push : Bytes → Io S (Option Bytes))
    (encode : ℕ → ℤ → Bytes → Bytes → Bytes) where
  unfoldable pub default_heart_beat : Io S (Option Bytes)
  default_heart_beat = push (encode MessageType.ping (pos 0) [] [])

  unfoldable pub default_ping : Io S (Option Bytes)
  default_ping = push (encode MessageType.pong (pos 0) [] [])

  unfoldable pub default_pong :
      (reset : ℕ → Io S (Unit {0})) → (heart_beat_timeout : ℕ) → Io S (Option Bytes)
  default_pong reset timeout = if timeout == 0 then pure none else reset timeout >> pure none
