-- ===== src/Tests/Codec.antt =====
-- The codec of socket/tcp/protocol.go and the parameters of params.go at concrete inputs.
use lemo.Base.{
  Bytes, ℕ, zero, suc, ◌+◌, ◌%◌, ◌^◌, ◌≤◌, ◌<◌, ◌≡◌, refl, ◌⊎◌, Bool, true, false, List, [], ◌∷◌,
  ◌++◌, arith, ok, panic, length,
}
use lemo.Socket.MessageType
use lemo.Protocol.{Decoded, decode, pack_bin, nothing}
use lemo.Protocol.Words.{ℤ, pos}
use lemo.Protocol.RoundTrip.{decode-pack_bin_wraps, decode-pack_bin_long}
use lemo.Protocol.Total.{decode_total}
use lemo.Protocol.{is_header_invalid}
use lemo.Protocol.Sound.{decode_sound, IsEncodingOf}
use lemo.Protocol.Tcp.{is_message_type}

-- "/hello" and "hi"
abbrev pub hello : Bytes
hello = 47 ∷ 104 ∷ 101 ∷ 108 ∷ 108 ∷ 111 ∷ []

abbrev pub hi : Bytes
hi = 104 ∷ 105 ∷ []

abbrev pub replicate : ℕ → ℕ → Bytes
replicate zero b = []
replicate (suc n) b = b ∷ replicate n b

pub bin_known : is_message_type MessageType.bin ≡ true
unfolding is_message_type
bin_known = refl

decode-pack_bin_wraps_example :
    decode is_message_type (pack_bin (pos 7) (replicate 240 97) hi) ≡ panic
decode-pack_bin_wraps_example =
    decode-pack_bin_wraps is_message_type bin_known (pos 7) (replicate 240 97) hi (omega arith)
      (omega arith) (omega arith)

decode-pack_bin_long_example :
    decode is_message_type (pack_bin (pos 7) (replicate 256 97) hi) ≡ ok nothing
decode-pack_bin_long_example =
    decode-pack_bin_long is_message_type bin_known (pos 7) (replicate 256 97) hi (omega arith)
      (omega arith)

-- A message as it stands on the wire.
abbrev pub wire_hello : Bytes
wire_hello =
    0 ∷ 0 ∷ 2 ∷ 6 ∷ 0 ∷ 0 ∷ 0 ∷ 2 ∷ 0 ∷ 0 ∷ 0 ∷ 0 ∷ 0 ∷ 0 ∷ 0 ∷ 7 ∷ 47 ∷ 104 ∷ 101 ∷ 108 ∷ 108 ∷ 111
    ∷ 104 ∷ 105 ∷ []

abbrev decoded_hello : Decoded
decoded_hello = record { message_type = MessageType.bin; id = pos 7; route = hello; body = hi }

decode_hello : decode is_message_type wire_hello ≡ ok decoded_hello
unfolding decode is_message_type lemo.Protocol.is_header_invalid lemo.Protocol.get_len
    lemo.Protocol.Words.uint32 lemo.Base.slice lemo.Protocol.Words.to_int64
    lemo.Protocol.Words.uint64
decode_hello = refl

decode_sound_example :
    (decoded_hello ≡ nothing) ⊎ IsEncodingOf is_message_type wire_hello decoded_hello
decode_sound_example =
    decode_sound is_message_type wire_hello decoded_hello (ground arith) decode_hello

decode_total_example :
    ((d : Decoded) × (decode is_message_type wire_hello ≡ ok d))
    ⊎ ((decode is_message_type wire_hello ≡ panic)
        × (240 ≤ 6)
        × (is_header_invalid is_message_type wire_hello ≡ true))
decode_total_example = decode_total is_message_type wire_hello (ground arith)
