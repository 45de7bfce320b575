-- ===== src/Connections/Addresses.antt =====
-- `process` of socket/udp/server/server.go, and the address map beside its connection table. The
-- datagrams of all peers come to one socket; `process` finds the connection by the peer's address,
-- under `processLock`. `host` is `Conn.Host`, the address as a string. What a datagram makes the
-- server do besides, for the connection that it concerns, is the `Action`.
pub mod Consistent
pub mod Sessions
use lemo.Base.{
  Bytes, ℕ, suc, ◌+◌, ◌%◌, ◌^◌, ◌≤◌, ◌<◌, ◌≡◌, ◌≢◌, ◌⊎◌, inl, inr, refl, sym, subst, ap, ◌∙◌, ◌||◌,
  Bool, true, false, List, [], ◌∷◌, Option, none, some, arith, ◌==◌, str_eq, eq_of_str_eq,
  str_eq_refl, if◌then◌else◌, length, get_elem?, Outcome, ok, panic, Option-cases, ◌>>=◌,
}
use lemo.Base.Assoc.{lookup, insert, delete, lookup-insert, lookup-delete}
use lemo.Connections.{Conn}
use lemo.Params.{index}
use lemo.Socket.MessageType

-- The network connection of a `Conn` is the peer's address.
abbrev pub Peer : Type 0
Peer = Conn Bytes

abbrev pub host : Peer → Bytes
host conn = conn.net_conn

pub record AddrTable : Type 0 where
  pub fd : ℕ
  pub connections : List (ℕ × Peer)
  pub addr_map : Bytes → Option ℕ

unfoldable pub add_connect : AddrTable → Peer → AddrTable × Peer
add_connect t conn =
    let fd = (t.fd + 1) % 2 ^ 64 in
    let conn' : Peer = record conn { fd = fd } in
    (
      record {
        fd = fd;
        connections = insert fd conn' t.connections;
        addr_map = λ a. if str_eq a (host conn) then some fd else t.addr_map a;
      },
      conn',
    )

unfoldable pub del_connect : AddrTable → Peer → AddrTable
del_connect t conn = record t {
  connections = delete conn.fd t.connections;
  addr_map = λ a. if str_eq a (host conn) then none else t.addr_map a;
}

-- `fd, ok := s.addrMap[addr]; conn, ok := s.connections[fd]`: a missing key gives 0, and the second
-- `ok` takes the place of the first.
unfoldable pub find : AddrTable → Bytes → Option Peer
find t addr = elim (t.addr_map addr) [
  | none ↦ lookup 0 t.connections
  | some fd ↦ lookup fd t.connections
]

-- What the server does: nothing, `conn.accept <- message`, `onOpen` and an `OpenMessage` to the
-- peer, or `onClose`.
pub data Action : Type 0 where
  ignored : Action
  accepted opens closes : Peer → Action

-- The cases of the `switch` on the message type.
pub data Case : Type 0 where
  carries opening closing ignoring : Case

unfoldable pub case_of : ℕ → Case
case_of message_type =
    if message_type == MessageType.bin
      || message_type == MessageType.ping
      || message_type == MessageType.pong
    then carries
    else if message_type == MessageType.open_type
    then opening
    else if message_type == MessageType.close
    then closing
    else ignoring

unfoldable pub on_case : AddrTable → Bytes → Case → Option Peer → AddrTable × Action
on_case t addr carries none = (t, ignored)
on_case t addr carries (some conn) = (t, accepted conn)
on_case t addr opening (some conn) = (t, ignored)
on_case t addr opening none =
    let (t', conn) = add_connect t (record { fd = 0; net_conn = addr }) in (t', opens conn)
on_case t addr closing none = (t, ignored)
on_case t addr closing (some conn) = (del_connect t conn, closes conn)
on_case t addr ignoring conn = (t, ignored)

-- `process`: the read of `message[2]` panics on a datagram of fewer than three bytes.
unfoldable pub process : AddrTable → Bytes → Bytes → Outcome (AddrTable × Action)
process t addr message =
    index message 2 >>= λ message_type. ok (on_case t addr (case_of message_type) (find t addr))

-- The two maps agree: an address stands for the descriptor of a connection to that address, every
-- connection is found by its address, and descriptors are positive and at most the counter.
pub record IsConsistent (t : AddrTable) : Type 0 where
  pub address :
      (a : Bytes) (k : ℕ)
      → t.addr_map a ≡ some k
      → (c : Peer) × (lookup k t.connections ≡ some c) × (host c ≡ a)
  pub connection :
      (k : ℕ) (c : Peer)
      → lookup k t.connections ≡ some c
      → (t.addr_map (host c) ≡ some k) × (c.fd ≡ k) × (0 < k) × (k ≤ t.fd)

-- `find` gives a connection exactly when the address is mapped, and it is the one to that address.
pub find_lem :
    (t : AddrTable) (a : Bytes)
    → IsConsistent t
    → ((t.addr_map a ≡ none) × (find t a ≡ none))
      ⊎ ((c : Peer) × (find t a ≡ some c)
          × (host c ≡ a)
          × (t.addr_map a ≡ some c.fd)
          × (lookup c.fd t.connections ≡ some c))
unfolding find
find_lem t a v = elim (Option-cases (t.addr_map a)) [
  | inl e ↦ inl (
    e,
    rw (e, find)
        (elim (Option-cases (lookup 0 t.connections)) [
          | inl missing ↦ missing
          | inr (c, e0) ↦ let (_, _, p, _) = v.connection 0 c e0 in absurd (omega arith)
        ]),
  )
  | inr (k, e) ↦
      let (c, found, same) = v.address a k e in
      let (_, fd, _, _) = v.connection k c found in
      inr (
        c,
        rw (e, find) found,
        same,
        rw fd e,
        subst (λ n. lookup n t.connections ≡ some c) (sym fd) found,
      )
]
