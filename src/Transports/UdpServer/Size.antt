-- ===== src/Transports/UdpServer/Size.antt =====
-- What the limit of `Conn.Write` in socket/udp/server/conn.go means for `Emit`.
use lemo.Base.{
  Bytes, ℕ, ◌+◌, ◌≤◌, ◌<◌, ◌≡◌, ap, ◌∙◌, ◌++◌, Option, some, arith, length, length-append, ok,
}
use lemo.Base.{lt→ltb, le→ltb}
use lemo.Connections.Addresses.{Peer}
use lemo.Socket.{Pack}
use lemo.Socket.MessageType
use lemo.Protocol.{head_len, pack_bin}
use lemo.Protocol.Udp
use lemo.Protocol.RoundTrip.{pack_bin-framed}
use lemo.Protocol.Framed.{length-framed}
use lemo.Transports.Limit.{too_long, limited}
use lemo.Transports.UdpServer.{State, lifted, get_connection, emit, push, write}

limited_sent :
    {U : Type 0} (itoa : ℕ → Bytes) (limit : ℕ) (send : Bytes → U → Option Bytes × U) (msg : Bytes)
    (u : U)
    → length msg ≤ limit + head_len
    → limited itoa limit send msg u ≡ ok (send msg u)
unfolding limited
limited_sent itoa limit send msg u h = rw (le→ltb (limit + head_len) (length msg) h)

limited_refused :
    {U : Type 0} (itoa : ℕ → Bytes) (limit : ℕ) (send : Bytes → U → Option Bytes × U) (msg : Bytes)
    (u : U)
    → limit + head_len < length msg
    → limited itoa limit send msg u ≡ ok (some (too_long itoa limit msg), u)
unfolding limited
limited_refused itoa limit send msg u h = rw (lt→ltb (limit + head_len) (length msg) h)

module _ {U : Type 0} (itoa : ℕ → Bytes) (read_buffer_size : ℕ)
    (write_to_udp : Bytes → Bytes → U → Option Bytes × U) where
  -- `Emit` to a connection that is open: a pack whose event and data are together no longer than
  -- `ReadBufferSize` is sent as one datagram, and it fits the buffer of `ReadBufferSize + HeadLen`
  -- bytes that a peer with the same setting reads into; a longer one is an error, and nothing is sent.
  pub emit_lem :
      (fd : ℕ) (pack : Pack) (s : State U) (conn : Peer)
      → get_connection s.table fd ≡ some conn
      → let msg = pack_bin pack.id pack.event pack.payload in
        (length pack.event + length pack.payload ≤ read_buffer_size
          → (length msg ≤ read_buffer_size + head_len)
            × (emit itoa read_buffer_size write_to_udp Udp.encode fd pack s
                ≡ ok (
                  (write_to_udp conn.net_conn msg s.env).0,
                  record s { env = (write_to_udp conn.net_conn msg s.env).1 },
                )))
        × (read_buffer_size < length pack.event + length pack.payload
            → emit itoa read_buffer_size write_to_udp Udp.encode fd pack s
              ≡ ok (some (too_long itoa read_buffer_size msg), s))
  unfolding emit push write get_connection Udp.encode
  emit_lem fd pack s conn e =
      let size : length (pack_bin pack.id pack.event pack.payload)
          ≡ head_len + (length pack.event + length pack.payload) =
        ap length (pack_bin-framed pack.id pack.event pack.payload)
        ∙ length-framed MessageType.bin _ _ _ (pack.event ++ pack.payload)
        ∙ ap (λ n. head_len + n) (length-append pack.event pack.payload) in
      (
        λ h. (
          omega arith,
          rw (e, push)
              (ap (lifted s) (
                limited_sent itoa read_buffer_size (write_to_udp conn.net_conn)
                  (pack_bin pack.id pack.event pack.payload) s.env (omega arith))),
        ),
        λ h.
            rw (e, push)
              (ap (lifted s) (
                limited_refused itoa read_buffer_size (write_to_udp conn.net_conn)
                  (pack_bin pack.id pack.event pack.payload) s.env (omega arith))),
      )
