-- ===== src/Tests/Streams.antt =====
-- The reader of socket/tcp/protocol.go at concrete streams.
use lemo.Base.{Bytes, ◌≡◌, refl, ◌⊎◌, inl, List, [], ◌∷◌, ◌++◌, arith, ok, map, concat, All}
use lemo.Socket.MessageType
use lemo.Protocol.{decode}
use lemo.Protocol.Words.{ℤ, pos}
use lemo.Protocol.Delivery.{Message, wire, received, IsSendable, delivery}
use lemo.Protocol.Tcp.{is_message_type, ping_message, encode}
use lemo.Protocol.Tcp.Desync.{read-ping, merged}
use lemo.Protocol.Reader.{Reader, start, read, read_all, read_on, invalid_header}
use lemo.Protocol.Reader.Chunks.{IsPending}
use lemo.Protocol.Reader.Stream.{read_all-read, read_total}
use lemo.Tests.Codec.{hello, hi, wire_hello, bin_known}

abbrev pub greeting : Message
greeting = record { id = pos 7; route = hello; body = hi }

pub greeting-IsSendable : IsSendable greeting
greeting-IsSendable = record {
  id_fits = omega arith;
  route_fits = omega arith;
  body_fits = omega arith;
}

pub wire-greeting : wire greeting ≡ wire_hello
unfolding lemo.Protocol.pack_bin lemo.Protocol.Words.put_uint32 lemo.Protocol.Words.put_uint64
    lemo.Protocol.Words.to_uint64
wire-greeting = refl

-- Two messages, cut inside the header of the first and inside the second.
abbrev pub two_greetings : List Message
two_greetings = greeting ∷ greeting ∷ []

abbrev pub pieces : List Bytes
pieces =
    (0 ∷ 0 ∷ 2 ∷ [])
    ∷ (6 ∷ 0 ∷ 0 ∷ 0 ∷ 2 ∷ 0 ∷ 0 ∷ 0 ∷ 0 ∷ 0 ∷ 0 ∷ 0 ∷ 7 ∷ 47 ∷ 104 ∷ 101 ∷ 108 ∷ 108 ∷ 111 ∷ 104
        ∷ 105 ∷ 0 ∷ [])
    ∷ (0 ∷ 2 ∷ 6 ∷ 0 ∷ 0 ∷ 0 ∷ 2 ∷ 0 ∷ 0 ∷ 0 ∷ 0 ∷ 0 ∷ 0 ∷ 0 ∷ 7 ∷ 47 ∷ 104 ∷ 101 ∷ 108 ∷ 108 ∷ 111
        ∷ 104 ∷ 105 ∷ [])
    ∷ []

pub pieces-wire : concat pieces ≡ concat (map wire two_greetings)
unfolding lemo.Protocol.pack_bin lemo.Protocol.Words.put_uint32 lemo.Protocol.Words.put_uint64
    lemo.Protocol.Words.to_uint64
pieces-wire = refl

pub two_greetings-IsSendable : All IsSendable two_greetings
two_greetings-IsSendable = (greeting-IsSendable, (greeting-IsSendable, tt))

delivery_example :
    (map (decode is_message_type) (read_all is_message_type start pieces).frames
      ≡ map (λ p. ok (received p)) two_greetings)
    × ((read_all is_message_type start pieces).status ≡ read_on)
delivery_example =
    delivery is_message_type bin_known two_greetings pieces two_greetings-IsSendable pieces-wire

-- A reader that has kept three bytes of a header.
abbrev pub pending : Reader
pending = record { single_message_len = 0; message = 0 ∷ 0 ∷ 2 ∷ [] }

pub pending-IsPending : IsPending is_message_type pending
pending-IsPending = inl (refl, omega arith)

abbrev rest_of_greeting : List Bytes
rest_of_greeting =
    (6 ∷ 0 ∷ 0 ∷ 0 ∷ 2 ∷ 0 ∷ 0 ∷ 0 ∷ 0 ∷ 0 ∷ 0 ∷ 0 ∷ 7 ∷ 47 ∷ [])
    ∷ (104 ∷ 101 ∷ 108 ∷ 108 ∷ 111 ∷ 104 ∷ 105 ∷ [])
    ∷ []

read_all-read_example :
    read_all is_message_type pending rest_of_greeting
    ≡ read is_message_type pending (concat rest_of_greeting)
read_all-read_example = read_all-read is_message_type pending rest_of_greeting pending-IsPending

read_total_example :
    ((read is_message_type pending wire_hello).status ≡ invalid_header)
    ⊎ (((read is_message_type pending wire_hello).status ≡ read_on)
        × IsPending is_message_type (read is_message_type pending wire_hello).reader)
read_total_example = read_total is_message_type pending wire_hello pending-IsPending

read-ping_example :
    read is_message_type start (ping_message ++ encode MessageType.bin (pos 7) hello hi)
    ≡ record { reader = start; frames = merged hello ∷ []; status = invalid_header }
read-ping_example = read-ping (pos 7) hello hi (omega arith) (omega arith)
