-- ===== src/Tests/Datagrams.antt =====
-- The udp server at concrete inputs.
use lemo.Base.{Bytes, ℕ, ◌+◌, ◌≤◌, ◌<◌, ◌≡◌, refl, List, [], ◌∷◌, Option, none, some, ok, length}
use lemo.Base.Assoc.{lookup}
use lemo.Connections.Addresses.{Peer}
use lemo.Protocol.{head_len, pack_bin}
use lemo.Protocol.Udp
use lemo.Protocol.Words.{pos}
use lemo.Socket.{Pack}
use lemo.Transports.Limit.{too_long}
use lemo.Transports.UdpServer.{State, get_connection, emit}
use lemo.Transports.UdpServer.Size.{emit_lem}
use lemo.Tests.Codec.{hello, hi}

abbrev peer : Peer
peer = record { fd = 1; net_conn = hi }

abbrev one_peer : State (List ℕ)
one_peer = record {
  table = record { fd = 1; connections = (1, peer) ∷ []; addr_map = λ a. none };
  env = [];
}

abbrev send_to : Bytes → Bytes → List ℕ → Option Bytes × List ℕ
send_to addr msg log = (none, length msg ∷ log)

abbrev pack : Pack
pack = record { event = hello; payload = hi; id = pos 7 }

peer_found : get_connection one_peer.table 1 ≡ some peer
unfolding get_connection lookup
peer_found = refl

emit_lem_example :
    (length hello + length hi ≤ 1024
      → (length (pack_bin (pos 7) hello hi) ≤ 1024 + head_len)
        × (emit (λ n. n ∷ []) 1024 send_to Udp.encode 1 pack one_peer
            ≡ ok (
              (send_to hi (pack_bin (pos 7) hello hi) []).0,
              record one_peer { env = (send_to hi (pack_bin (pos 7) hello hi) []).1 },
            )))
    × (1024 < length hello + length hi
        → emit (λ n. n ∷ []) 1024 send_to Udp.encode 1 pack one_peer
          ≡ ok (some (too_long (λ n. n ∷ []) 1024 (pack_bin (pos 7) hello hi)), one_peer))
emit_lem_example = emit_lem (λ n. n ∷ []) 1024 send_to 1 pack one_peer peer peer_found
