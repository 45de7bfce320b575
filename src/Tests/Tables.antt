-- ===== src/Tests/Tables.antt =====
-- The connection tables at concrete histories.
use lemo.Base.{
  Bytes, ℕ, false, length, ◌+◌, ◌*◌, ◌++◌, ◌<◌, ◌≤◌, ◌≡◌, refl, ◌⊎◌, inl, inr, List, [], ◌∷◌, none,
  some, ok, panic, ◌==◌, if◌then◌else◌, arith, str_eq, eq_of_str_eq, str_eq_refl, Bool-cases,
  ℕ_discrete, sym, subst, ap,
}
use lemo.Base.Assoc.{lookup}
use lemo.Connections.{Table, Event, opened, closed, run, get_connection, get_connections_count}
use lemo.Connections.Listing.{
  Listing, Lists, get_connections, GoesOn, HasAll, sends, receives, get_connections_lem,
}
use lemo.Connections.Valid.{IsValid, run-IsValid, run_stays_closed}
use lemo.Connections.Refined.{Directory, Represents, after, open_to, run-Represents}
use lemo.Connections.Addresses.{AddrTable, Peer, host, Action, process, IsConsistent}
use lemo.Connections.Addresses.Consistent.{process-IsConsistent}
use lemo.Tests.Codec.{hello, hi}
use lemo.Tests.Serving.{one_open, one_open-IsValid, conn1}
use lemo.Connections.Addresses
use lemo.Connections.Addresses.{case_of, Case, carries, opening, opens, ignored, on_case, find}
use lemo.Connections.Addresses.Sessions.{
  no_sessions, SessionReach, start, next, receives, open_by, SessionReach-find, del_connect_stale,
}
use lemo.Socket.MessageType.{open_type}
use lemo.Base.Assoc.{insert}
use lemo.Base.{◌∙◌}

abbrev table1 : Table ℕ
table1 = one_open.table

abbrev history : List (Event ℕ)
history = opened 6 ∷ closed conn1 ∷ opened 7 ∷ []

run-IsValid_example : IsValid (run table1 history)
run-IsValid_example = run-IsValid table1 history one_open-IsValid (omega arith)

abbrev directory : Directory ℕ
directory = record { last = 1; conn = λ k. if 1 == k then some conn1 else none }

one_conn : (k : ℕ) → get_connection table1 k ≡ directory.conn k
unfolding get_connection lookup
one_conn k = refl

table1-Represents : Represents table1 directory
unfolding get_connections_count open_to
table1-Represents = record { last_same = refl; conn_same = one_conn; count_same = refl }

run-Represents_example : Represents (run table1 history) (after directory history)
run-Represents_example =
    run-Represents table1 directory history one_open-IsValid table1-Represents (omega arith)

-- The table after its only connection was closed.
abbrev closed1 : Table ℕ
closed1 = record { fd = 1; connections = [] }

missing : get_connection closed1 1 ≡ none
unfolding get_connection lookup
missing = refl

run_stays_closed_example : get_connection (run closed1 history) 1 ≡ none
run_stays_closed_example = run_stays_closed closed1 history 1 (omega arith) (omega arith) missing

-- One peer, at the address "hi".
abbrev peer : Peer
peer = record { fd = 2; net_conn = hi }

abbrev one_peer : AddrTable
one_peer = record {
  fd = 2;
  connections = (2, peer) ∷ [];
  addr_map = λ a. if str_eq a hi then some 2 else none;
}

one_peer-IsConsistent : IsConsistent one_peer
unfolding lookup
one_peer-IsConsistent = record { address = address; connection = connection }
  where
    address :
        (a : Bytes) (k : ℕ)
        → one_peer.addr_map a ≡ some k
        → (c : Peer) × (lookup k one_peer.connections ≡ some c) × (host c ≡ a)
    address a k e = elim (Bool-cases (str_eq a hi)) [
      | inl same ↦ (peer, ground arith, sym (eq_of_str_eq a hi same))
      | inr differs ↦ absurd (ground arith)
    ]

    connection :
        (k : ℕ) (c : Peer)
        → lookup k one_peer.connections ≡ some c
        → (one_peer.addr_map (host c) ≡ some k) × (c.fd ≡ k) × (0 < k) × (k ≤ 2)
    connection k c e = elim (ℕ_discrete 2 k) [
      | yes same ↦
          let this : peer ≡ c = ground arith in
          subst
            (λ (d : Peer). (one_peer.addr_map (host d) ≡ some k) × (d.fd ≡ k) × (0 < k) × (k ≤ 2))
            this (rw (str_eq_refl hi) (ap some same), same, omega arith, omega arith)
      | no differs ↦ absurd (ground arith)
    ]

process-IsConsistent_example :
    ((3 < 3) × (process one_peer hello (0 ∷ 0 ∷ 3 ∷ []) ≡ panic))
    ⊎ ((3 ≤ 3)
        × ((t' : AddrTable) × (act : Action) × (process one_peer hello (0 ∷ 0 ∷ 3 ∷ [])
              ≡ ok (t', act))
            × IsConsistent t'))
process-IsConsistent_example =
    process-IsConsistent one_peer hello (0 ∷ 0 ∷ 3 ∷ []) one_peer-IsConsistent (omega arith)

-- The timer of an earlier connection of the same peer fires, and then a message comes.
abbrev stale : Peer
stale = record { fd = 1; net_conn = hi }

peer_found : find one_peer (host stale) ≡ some peer
unfolding find lookup str_eq
peer_found = refl

carried : case_of 2 ≡ carries
unfolding case_of
carried = refl

del_connect_stale_example :
    let t' = Addresses.del_connect one_peer stale in
    (lookup 2 t'.connections ≡ some peer)
    × (find t' hi ≡ none)
    × (process t' hi (0 ∷ 0 ∷ 2 ∷ []) ≡ ok (t', ignored))
del_connect_stale_example =
    del_connect_stale one_peer peer stale 0 0 2 [] one_peer-IsConsistent peer_found (omega arith)
      (λ e. (let f : Path Case carries opening = sym carried ∙ e in cc))

-- A peer opens a connection, and its timer fires.
abbrev opening_message : Bytes
opening_message = 0 ∷ 0 ∷ open_type ∷ []

abbrev with_peer : AddrTable × Peer
with_peer = Addresses.add_connect no_sessions.table (record { fd = 0; net_conn = hi })

opens_it : process no_sessions.table hi opening_message ≡ ok (with_peer.0, opens with_peer.1)
unfolding process case_of on_case find lookup
opens_it = refl

reached : SessionReach (record { table = with_peer.0; opened = open_by (opens with_peer.1) [] })
reached =
    next start (receives hi opening_message with_peer.0 (opens with_peer.1) (omega arith) opens_it)

peer_there : find with_peer.0 hi ≡ some with_peer.1
unfolding find lookup str_eq Addresses.add_connect insert
peer_there = refl

SessionReach-find_example : host with_peer.1 ≡ hi
SessionReach-find_example = SessionReach-find reached hi with_peer.1 peer_there

abbrev two : List ℕ
two = 7 ∷ 8 ∷ []

-- The caller has received one of two connections, and the other one is in the channel.
abbrev half_listed : Listing ℕ
half_listed = record { rest = []; channel = 8 ∷ []; closed = false; received = 7 ∷ [] }

half_listed-Lists : Lists (get_connections two) 3 half_listed
half_listed-Lists =
    Lists.later
      (Lists.later (Lists.later Lists.here (sends 7 (8 ∷ []) refl (omega arith)))
        (receives 7 [] refl))
      (sends 8 [] refl (omega arith))

get_connections_lem_example :
    (half_listed.received ++ (half_listed.channel ++ half_listed.rest) ≡ two)
    × (3 ≤ 2 * length two + 1)
    × (GoesOn half_listed ⊎ ((3 ≡ 2 * length two + 1) × HasAll two half_listed))
get_connections_lem_example = get_connections_lem two half_listed-Lists
