-- ===== src/Connections/Addresses/Sessions.antt =====
-- socket/udp/server/server.go, the datagrams and the timers of all connections. `process` is one
-- step, since it holds `processLock`; the goroutine of a timer does not hold it, so its `onClose` may
-- come at any time after the connection was opened, also when `process` has closed it already.
use lemo.Base.{
  Bytes, ℕ, ◌+◌, ◌%◌, ◌^◌, ◌≤◌, ◌<◌, ◌≡◌, ◌≢◌, inl, inr, refl, sym, subst, ap, ◌∙◌, [], ◌∷◌, List,
  none, some, arith, str_eq, eq_of_str_eq, str_eq_refl, if◌then◌else◌, Outcome, ok, panic,
  Bool-cases, Option-cases, ℕ_discrete,
}
use lemo.Base.Assoc.{lookup, insert, delete, lookup-insert, lookup-delete}
use lemo.Connections.Addresses.{
  Peer, host, AddrTable, add_connect, del_connect, find, process, Case, carries, opening, closing,
  ignoring, case_of, on_case, Action, ignored, accepted, opens, closes, IsConsistent, find_lem,
}

-- The table, and every connection that was ever opened, under its descriptor.
pub record Sessions : Type 0 where
  pub table : AddrTable
  pub opened : List (ℕ × Peer)

unfoldable pub open_by : Action → List (ℕ × Peer) → List (ℕ × Peer)
open_by ignored cs = cs
open_by (accepted conn) cs = cs
open_by (opens conn) cs = insert conn.fd conn cs
open_by (closes conn) cs = cs

pub data SessionStep (s : Sessions) : Sessions → Type 0 where
  -- A datagram, while the counter of descriptors has not wrapped.
  receives :
      (addr message : Bytes) (t : AddrTable) (act : Action)
      → s.table.fd + 1 < 2 ^ 64
      → process s.table addr message ≡ ok (t, act)
      → SessionStep s (record { table = t; opened = open_by act s.opened })
  -- The timer of a connection has fired: `onClose`.
  expires :
      (conn : Peer)
      → lookup conn.fd s.opened ≡ some conn
      → SessionStep s (record s { table = del_connect s.table conn })

abbrev pub no_sessions : Sessions
no_sessions = record {
  table = record { fd = 0; connections = []; addr_map = λ a. none };
  opened = [];
}

pub data SessionReach : Sessions → Type 0 where
  start : SessionReach no_sessions
  next : {s s' : Sessions} → SessionReach s → SessionStep s s' → SessionReach s'

pub record IsRouted (t : AddrTable) (cs : List (ℕ × Peer)) : Type 0 where
  pub handed : (k : ℕ) (c : Peer) → lookup k cs ≡ some c → (c.fd ≡ k) × (0 < k) × (k ≤ t.fd)
  pub kept : (k : ℕ) (c : Peer) → lookup k t.connections ≡ some c → lookup k cs ≡ some c
  pub address :
      (a : Bytes) (k : ℕ)
      → t.addr_map a ≡ some k
      → (c : Peer) × (lookup k t.connections ≡ some c) × (host c ≡ a)

found_lem :
    (t : AddrTable) (cs : List (ℕ × Peer)) (a : Bytes) (c : Peer)
    → IsRouted t cs
    → find t a ≡ some c
    → (host c ≡ a) × (lookup c.fd cs ≡ some c)
unfolding find
found_lem t cs a c v e = elim (Option-cases (t.addr_map a)) [
  | inl free ↦
      let e' : lookup 0 t.connections ≡ some c = rw (free, find) at e in
      let (_, p, _) = v.handed 0 c (v.kept 0 c e') in absurd (omega arith)
  | inr (k, m) ↦
      let (d, found, at) = v.address a k m in
      let e' : lookup k t.connections ≡ some c = rw (m, find) at e in
      let (fd, _, _) = v.handed k c (v.kept k c e') in
      let same : d ≡ c = cc in
      (
        subst (λ (x : Peer). host x ≡ a) same at,
        subst (λ j. lookup j cs ≡ some c) (sym fd) (v.kept k c e'),
      )
]

module _ (t : AddrTable) (cs : List (ℕ × Peer)) (conn : Peer) (v : IsRouted t cs) where
  del_connect-IsRouted : lookup conn.fd cs ≡ some conn → IsRouted (del_connect t conn) cs
  unfolding del_connect
  del_connect-IsRouted present = record { handed = v.handed; kept = kept; address = address }
    where
      kept :
          (k : ℕ) (c : Peer)
          → lookup k (delete conn.fd t.connections) ≡ some c
          → lookup k cs ≡ some c
      kept k c e = ground (arith, lookup-delete conn.fd k t.connections, v.kept k c)

      address :
          (a : Bytes) (k : ℕ)
          → (if str_eq a (host conn) then none else t.addr_map a) ≡ some k
          → (c : Peer) × (lookup k (delete conn.fd t.connections) ≡ some c) × (host c ≡ a)
      address a k e = elim (Bool-cases (str_eq a (host conn))) [
        | inl same ↦ absurd (ground arith)
        | inr differs ↦
            let (c, found, at) = v.address a k (ground arith) in
            (
              c,
              elim (ℕ_discrete conn.fd k) [
                | yes same ↦
                    absurd (ground (arith, str_eq_refl a, at, found, v.kept k c found, present))
                | no other ↦ ground (arith, lookup-delete conn.fd k t.connections)
              ],
              at,
            )
      ]

  add_connect-IsRouted :
      t.fd + 1 < 2 ^ 64
      → let (t', conn') = add_connect t conn in IsRouted t' (insert conn'.fd conn' cs)
  unfolding add_connect
  add_connect-IsRouted h =
      let next : (t.fd + 1) % 2 ^ 64 ≡ t.fd + 1 = omega arith in
      rw next (record { handed = handed; kept = kept; address = address })
    where
      conn' : Peer
      conn' = record conn { fd = t.fd + 1 }

      handed :
          (k : ℕ) (c : Peer)
          → lookup k (insert (t.fd + 1) conn' cs) ≡ some c
          → (c.fd ≡ k) × (0 < k) × (k ≤ t.fd + 1)
      handed k c e = elim (ℕ_discrete (t.fd + 1) k) [
        | yes same ↦
            let this : conn' ≡ c = ground (arith, lookup-insert (t.fd + 1) k conn' cs) in
            (ap (λ (d : Peer). d.fd) (sym this) ∙ same, omega arith, omega arith)
        | no other ↦
            let old : lookup k cs ≡ some c = ground (arith, lookup-insert (t.fd + 1) k conn' cs) in
            let (fd, p, le) = v.handed k c old in (fd, p, omega arith)
      ]

      kept :
          (k : ℕ) (c : Peer)
          → lookup k (insert (t.fd + 1) conn' t.connections) ≡ some c
          → lookup k (insert (t.fd + 1) conn' cs) ≡ some c
      kept k c e = ground (
        arith,
        lookup-insert (t.fd + 1) k conn' t.connections,
        lookup-insert (t.fd + 1) k conn' cs,
        v.kept k c,
      )

      address :
          (a : Bytes) (k : ℕ)
          → (if str_eq a (host conn) then some (t.fd + 1) else t.addr_map a) ≡ some k
          → (c : Peer) × (lookup k (insert (t.fd + 1) conn' t.connections) ≡ some c) × (host c ≡ a)
      address a k e = elim (Bool-cases (str_eq a (host conn))) [
        | inl same ↦ (
          conn',
          ground (arith, lookup-insert (t.fd + 1) k conn' t.connections),
          sym (eq_of_str_eq a (host conn) same),
        )
        | inr other ↦
            let (c, found, at) = v.address a k (ground arith) in
            let (_, _, le) = v.handed k c (v.kept k c found) in
            (c, ground (arith, lookup-insert (t.fd + 1) k conn' t.connections), at)
      ]

module _ (t : AddrTable) (cs : List (ℕ × Peer)) (a : Bytes) (v : IsRouted t cs)
    (h : t.fd + 1 < 2 ^ 64) where
  missing-IsRouted : (c : Case) → let (t', act) = on_case t a c none in IsRouted t' (open_by act cs)
  unfolding on_case open_by
  missing-IsRouted carries = v
  missing-IsRouted opening = add_connect-IsRouted t cs (record { fd = 0; net_conn = a }) v h
  missing-IsRouted closing = v
  missing-IsRouted ignoring = v

  present-IsRouted :
      (c : Case) (conn : Peer)
      → lookup conn.fd cs ≡ some conn
      → let (t', act) = on_case t a c (some conn) in IsRouted t' (open_by act cs)
  unfolding on_case open_by
  present-IsRouted carries conn present = v
  present-IsRouted opening conn present = v
  present-IsRouted closing conn present = del_connect-IsRouted t cs conn v present
  present-IsRouted ignoring conn present = v

  on_case-IsRouted :
      (c : Case) → let (t', act) = on_case t a c (find t a) in IsRouted t' (open_by act cs)
  on_case-IsRouted c = elim (Option-cases (find t a)) [
    | inl e ↦ rw e (missing-IsRouted c)
    | inr (conn, e) ↦ rw e (present-IsRouted c conn (found_lem t cs a conn v e).1)
  ]

abbrev AfterProcess : List (ℕ × Peer) → Outcome (AddrTable × Action) → Type 0
AfterProcess cs panic = Unit {0}
AfterProcess cs (ok (t, act)) = IsRouted t (open_by act cs)

process-IsRouted :
    (t : AddrTable) (cs : List (ℕ × Peer)) (a message : Bytes)
    → IsRouted t cs
    → t.fd + 1 < 2 ^ 64
    → AfterProcess cs (process t a message)
unfolding process
process-IsRouted t cs a [] v h = tt
process-IsRouted t cs a (x ∷ []) v h = tt
process-IsRouted t cs a (x ∷ y ∷ []) v h = tt
process-IsRouted t cs a (x ∷ y ∷ kind ∷ rest) v h = on_case-IsRouted t cs a v h (case_of kind)

no_sessions-IsRouted : IsRouted no_sessions.table no_sessions.opened
unfolding lookup
no_sessions-IsRouted = record {
  handed = λ k c e. cc;
  kept = λ k c e. cc;
  address = λ a k e. absurd (cc);
}

SessionReach-IsRouted : {s : Sessions} → SessionReach s → IsRouted s.table s.opened
SessionReach-IsRouted start = no_sessions-IsRouted
SessionReach-IsRouted (next r (receives addr message t act h e)) =
    subst (AfterProcess _) e (process-IsRouted _ _ addr message (SessionReach-IsRouted r) h)
SessionReach-IsRouted (next r (expires conn e)) =
    del_connect-IsRouted _ _ conn (SessionReach-IsRouted r) e

-- In every state of the udp server that datagrams and timers can lead to, while the counter of
-- descriptors has not wrapped: the connection that `process` finds for an address is one to that
-- address, so no message of a peer comes to the connection of another.
pub SessionReach-find :
    {s : Sessions} (r : SessionReach s) (addr : Bytes) (conn : Peer)
    → find s.table addr ≡ some conn
    → host conn ≡ addr
SessionReach-find {s} r addr conn e =
    (found_lem s.table s.opened addr conn (SessionReach-IsRouted r) e).0

unfound_ignored :
    (t : AddrTable) (a : Bytes) (c : Case) → c ≢ opening → on_case t a c none ≡ (t, ignored)
unfolding on_case
unfound_ignored t a carries h = refl
unfound_ignored t a opening h = absurd (h refl)
unfound_ignored t a closing h = refl
unfound_ignored t a ignoring h = refl

no_descriptor_zero : (t : AddrTable) → IsConsistent t → lookup 0 t.connections ≡ none
no_descriptor_zero t v = elim (Option-cases (lookup 0 t.connections)) [
  | inl e ↦ e
  | inr (c, e) ↦ let (_, _, p, _) = v.connection 0 c e in absurd (omega arith)
]

find_unmapped :
    (t : AddrTable) (a : Bytes) → t.addr_map a ≡ none → find t a ≡ lookup 0 t.connections
unfolding find
find_unmapped t a e = rw (e, find) refl

-- A timer that fires for a connection of a peer that has another one by now, in a server whose maps
-- agree: the current connection stays in the table under its descriptor, but it is no longer found
-- by its address, so every message of the peer that is not `Open` is ignored.
pub del_connect_stale :
    (t : AddrTable) (conn stale : Peer) (x y kind : ℕ) (rest : Bytes)
    → IsConsistent t
    → find t (host stale) ≡ some conn
    → stale.fd ≢ conn.fd
    → case_of kind ≢ opening
    → let t' = del_connect t stale in
      (lookup conn.fd t'.connections ≡ some conn)
      × (find t' (host stale) ≡ none)
      × (process t' (host stale) (x ∷ y ∷ kind ∷ rest) ≡ ok (t', ignored))
unfolding del_connect process
del_connect_stale t conn stale x y kind rest v current other h =
    let t' = del_connect t stale in
    let lost : find t' (host stale) ≡ none =
      find_unmapped t' (host stale) (rw (str_eq_refl (host stale)) refl)
      ∙ ground (arith, lookup-delete stale.fd 0 t.connections, no_descriptor_zero t v) in
    (
      elim (find_lem t (host stale) v) [
        | inl (_, missing) ↦ absurd (cc)
        | inr (c, e, _, _, present) ↦
            let same : c ≡ conn = cc in
            let here : lookup conn.fd t.connections ≡ some conn =
              subst (λ (d : Peer). lookup d.fd t.connections ≡ some d) same present in
            ground (arith, lookup-delete stale.fd conn.fd t.connections)
      ],
      lost,
      ap ok (
          ap (on_case t' (host stale) (case_of kind)) lost
          ∙ unfound_ignored t' (host stale) (case_of kind) h),
    )
