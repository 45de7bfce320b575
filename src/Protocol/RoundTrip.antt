-- ===== src/Protocol/RoundTrip.antt =====
-- What `Decode` makes of the messages that `Encode` builds, by the length of the route.
use lemo.Base.{
  Bytes, ℕ, ◌%◌, ◌^◌, ◌≤◌, ◌<◌, ◌≡◌, refl, Bool, true, ◌++◌, arith, length, length-append,
  take-length-append, drop-length-append, ok, panic,
}
use lemo.Socket.MessageType
use lemo.Protocol.{nothing, pack_bin, decode}
use lemo.Protocol.Framed.{framed, decode-framed, decode-framed_wraps, decode-framed_mismatch}
use lemo.Protocol.Words.{ℤ, IsInt64, to_uint64, to_uint64-lt, to_int64-to_uint64}

pub pack_bin-framed :
    (id : ℤ) (route body : Bytes)
    → pack_bin id route body
      ≡ framed MessageType.bin
          (length route % 256)
          (length body % 2 ^ 32)
          (to_uint64 id)
          (route ++ body)
unfolding pack_bin framed
pack_bin-framed id route body = refl

module _ (is_message_type : ℕ → Bool) (known : is_message_type MessageType.bin ≡ true) (id : ℤ)
    (route body : Bytes) (short : length body < 2 ^ 32) where
  -- When the type `Bin` is known, the body is shorter than 2^32 bytes, the id is an int64 and the
  -- route is shorter than 240 bytes, `Decode` gives back the id, the route and the body that
  -- `packBin` was given.
  pub decode-pack_bin :
      IsInt64 id
      → length route < 240
      → decode is_message_type (pack_bin id route body)
        ≡ ok (record { message_type = MessageType.bin; id = id; route = route; body = body })
  decode-pack_bin hi h =
      let fits : length route % 256 ≡ length route = omega arith in
      let whole : length body % 2 ^ 32 ≡ length body = omega arith in
      rw (pack_bin-framed id route body, fits, whole)
        (rw
          (decode-framed is_message_type MessageType.bin (length route) (length body) (to_uint64 id)
            (route ++ body) known short (to_uint64-lt id) (omega (arith, length-append route body))
            h)
          (rw (
            to_int64-to_uint64 id hi,
            take-length-append route body,
            drop-length-append route body,
          )))

  -- When the type `Bin` is known and the body is shorter than 2^32 bytes: a message whose route has
  -- from 240 to 255 bytes makes `Decode` panic, whatever the id.
  pub decode-pack_bin_wraps :
      240 ≤ length route
      → length route < 256
      → decode is_message_type (pack_bin id route body) ≡ panic
  decode-pack_bin_wraps h k = rw (pack_bin-framed id route body) (
      decode-framed_wraps is_message_type _ (length route % 256) (length body % 2 ^ 32) _ _ known
        (omega arith) (omega (arith, length-append route body)) (omega arith) (omega arith))

  -- When the type `Bin` is known and the body is shorter than 2^32 bytes: a message whose route has
  -- 256 bytes or more is not accepted; `Decode` gives the results of no message.
  pub decode-pack_bin_long :
      256 ≤ length route → decode is_message_type (pack_bin id route body) ≡ ok nothing
  decode-pack_bin_long h = rw (pack_bin-framed id route body) (
      decode-framed_mismatch is_message_type _ (length route % 256) (length body % 2 ^ 32) _ _
        (omega arith) (omega (arith, length-append route body)))
