-- ===== src/Protocol/Tcp/Desync.antt =====
-- The 12-byte heartbeat of socket/tcp/protocol.go in a stream that is cut by 16-byte headers.
use lemo.Base.{
  Bytes, suc, ◌+◌, ◌%◌, ◌^◌, ◌≤◌, ◌<◌, ◌≡◌, refl, ap, ◌∙◌, inl, false, [], ◌∷◌, ◌++◌, arith, length,
  length-append, le→ltb,
}
use lemo.Socket.MessageType
use lemo.Protocol.{get_len, pack_bin, head_len}
use lemo.Protocol
use lemo.Protocol.Tcp.{ping_message, is_message_type, encode}
use lemo.Protocol.Words.{ℤ, uint32, put_uint32, put_uint64, to_uint64}
use lemo.Protocol.Reader.{start, invalid_header, read}
use lemo.Protocol.Reader.Rounds.{round_invalid}
use lemo.Protocol.Reader.Chunks.{read-scan}
use lemo.Protocol.Reader.Stream.{IsFrame, deliver_all, scan-concat}

-- A heartbeat and the first four bytes of the message behind it.
abbrev pub merged : Bytes → Bytes
merged route = ping_message ++ 0 ∷ 0 ∷ MessageType.bin ∷ (length route % 256) ∷ []

abbrev tail_of : ℤ → Bytes → Bytes → Bytes
tail_of id route body =
    put_uint32 (length body % 2 ^ 32) ++ (put_uint64 (to_uint64 id) ++ (route ++ body))

merged-IsFrame : (route : Bytes) → IsFrame is_message_type (merged route)
unfolding is_message_type Protocol.is_header_invalid Protocol.get_len uint32
merged-IsFrame route = (refl, refl)

stream :
    (id : ℤ) (route body : Bytes)
    → ping_message ++ encode MessageType.bin id route body ≡ merged route ++ tail_of id route body
unfolding encode pack_bin
stream id route body = refl

long_tail :
    (id : ℤ) (route body : Bytes)
    → 4 ≤ length route + length body
    → 16 ≤ length (tail_of id route body)
unfolding put_uint32 put_uint64
long_tail id route body k = omega (arith, length-append route body)

tail-invalid :
    (id : ℤ) (route body : Bytes)
    → length body < 512
    → 4 ≤ length route + length body
    → Protocol.is_header_invalid is_message_type (tail_of id route body) ≡ false
unfolding Protocol.is_header_invalid
tail-invalid id route body h k =
    rw (le→ltb (length (tail_of id route body)) 16 (long_tail id route body k))
      (unfold put_uint32 is_message_type in ground arith)

-- One heartbeat in front of a message whose body has fewer than 512 bytes (and that has at least 4
-- bytes of route and body) spoils the stream: the reader delivers the heartbeat with the first four
-- bytes of the message as one message, then reports an invalid header and drops what is left.
pub read-ping :
    (id : ℤ) (route body : Bytes)
    → length body < 512
    → 4 ≤ length route + length body
    → read is_message_type start (ping_message ++ encode MessageType.bin id route body)
      ≡ record { reader = start; frames = merged route ∷ []; status = invalid_header }
read-ping id route body h k =
    let rest = tail_of id route body in
    let whole = merged route ++ rest in
    let long : 16 ≤ length rest = long_tail id route body k in
    ap (read is_message_type start) (stream id route body)
    ∙ read-scan is_message_type start whole (suc (length whole)) (inl (refl, omega arith))
        (omega arith)
    ∙ scan-concat is_message_type (suc (length whole)) (merged route ∷ []) rest
        (merged-IsFrame route, tt) (omega arith)
    ∙ ap (deliver_all is_message_type (merged route ∷ []))
        (round_invalid is_message_type (length rest) rest long (tail-invalid id route body h k))
