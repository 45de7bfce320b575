-- ===== src/Connections.antt =====
-- The connection table of the socket servers: `fd`, `connections`, `addConnect`, `delConnect`,
-- `GetConnection`, `GetConnectionsCount`, as in socket/tcp/server/server.go and its websocket copy,
-- and with `addrMap` as in socket/udp/server/server.go. A descriptor is the bit pattern of an
-- `int64`, so adding one wraps at 2^64. The methods lock `mux`, so each is one step. `N` is the
-- type of the network connection.
pub mod Listing
pub mod Valid
pub mod Refined
pub mod Addresses
use lemo.Base.{Bytes, ℕ, ◌+◌, ◌%◌, ◌^◌, List, [], ◌∷◌, Option, none, some, length}
use lemo.Base.Assoc.{lookup, insert, delete}

module _ (N : Type 0) where
  -- The fields of a `Conn` that the server sets; `name` stands for the rest.
  pub record Conn : Type 0 where
    pub fd : ℕ
    pub net_conn : N

  pub record Table : Type 0 where
    pub fd : ℕ
    pub connections : List (ℕ × Conn)

module _ {N : Type 0} where
  -- `connections = make(map[int64]*Conn)`, with `fd` still 0.
  abbrev pub empty : Table N
  empty = record { fd = 0; connections = [] }

  unfoldable pub add_connect : Table N → Conn N → Table N × Conn N
  add_connect t conn =
      let fd = (t.fd + 1) % 2 ^ 64 in
      let conn' : Conn N = record conn { fd = fd } in
      (record { fd = fd; connections = insert fd conn' t.connections }, conn')

  unfoldable pub del_connect : Table N → Conn N → Table N
  del_connect t conn = record t { connections = delete conn.fd t.connections }

  unfoldable pub get_connection : Table N → ℕ → Option (Conn N)
  get_connection t fd = lookup fd t.connections

  unfoldable pub get_connections_count : Table N → ℕ
  get_connections_count t = length t.connections

-- What happens to the table over time.
pub data Event (N : Type 0) : Type 0 where
  opened : N → Event N
  closed : Conn N → Event N

module _ {N : Type 0} where
  unfoldable pub step : Table N → Event N → Table N
  unfolding add_connect del_connect
  step t (opened n) = (add_connect t (record { fd = 0; net_conn = n })).0
  step t (closed conn) = del_connect t conn

  unfoldable pub run : Table N → List (Event N) → Table N
  unfolding step
  run t [] = t
  run t (e ∷ es) = run (step t e) es
