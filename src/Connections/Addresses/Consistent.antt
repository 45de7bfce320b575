-- ===== src/Connections/Addresses/Consistent.antt =====
-- `process` of socket/udp/server/server.go and the agreement of its two maps.
use lemo.Base.{
  Bytes, ℕ, ◌+◌, ◌%◌, ◌^◌, ◌≤◌, ◌<◌, ◌≡◌, ◌⊎◌, inl, inr, refl, sym, subst, ap, [], ◌∷◌, none, some,
  arith, str_eq, eq_of_str_eq, str_eq_refl, if◌then◌else◌, length, ok, panic, Bool-cases,
  ℕ_discrete,
}
use lemo.Base.Assoc.{lookup, insert, delete, lookup-insert, lookup-delete}
use lemo.Connections.Addresses.{
  Peer, host, AddrTable, add_connect, del_connect, find, process, Case, carries, opening, closing,
  ignoring, case_of, on_case, IsConsistent, find_lem, Action,
}

module _ (t : AddrTable) (conn : Peer) (v : IsConsistent t) where
  add_connect-IsConsistent :
      t.fd + 1 < 2 ^ 64 → t.addr_map (host conn) ≡ none → IsConsistent (add_connect t conn).0
  unfolding add_connect
  add_connect-IsConsistent h free =
      let next : (t.fd + 1) % 2 ^ 64 ≡ t.fd + 1 = omega arith in
      rw next (record { address = address; connection = connection })
    where
      conn' : Peer
      conn' = record conn { fd = t.fd + 1 }

      address :
          (a : Bytes) (k : ℕ)
          → (if str_eq a (host conn) then some (t.fd + 1) else t.addr_map a) ≡ some k
          → (c : Peer) × (lookup k (insert (t.fd + 1) conn' t.connections) ≡ some c) × (host c ≡ a)
      address a k e = elim (Bool-cases (str_eq a (host conn))) [
        | inl same ↦ (
          conn',
          ground (arith, lookup-insert (t.fd + 1) k conn' t.connections),
          sym (eq_of_str_eq a (host conn) same),
        )
        | inr other ↦
            let (c, found, at) = v.address a k (ground arith) in
            let (_, _, _, le) = v.connection k c found in
            (c, ground (arith, lookup-insert (t.fd + 1) k conn' t.connections), at)
      ]

      connection :
          (k : ℕ) (c : Peer)
          → lookup k (insert (t.fd + 1) conn' t.connections) ≡ some c
          → ((if str_eq (host c) (host conn) then some (t.fd + 1) else t.addr_map (host c))
              ≡ some k)
            × (c.fd ≡ k)
            × (0 < k)
            × (k ≤ t.fd + 1)
      connection k c e = elim (ℕ_discrete (t.fd + 1) k) [
        | yes same ↦
            let this : conn' ≡ c = ground (arith, lookup-insert (t.fd + 1) k conn' t.connections) in
            subst
              (λ (d : Peer).
                ((if str_eq (host d) (host conn) then some (t.fd + 1) else t.addr_map (host d))
                  ≡ some k)
                × (d.fd ≡ k)
                × (0 < k)
                × (k ≤ t.fd + 1))
              this (rw (str_eq_refl (host conn)) (ap some same), same, omega arith, omega arith)
        | no other ↦
            let (mapped, fd, p, le) =
              v.connection k c (ground (arith, lookup-insert (t.fd + 1) k conn' t.connections)) in
            (
              elim (Bool-cases (str_eq (host c) (host conn))) [
                | inl same ↦ cc (ap t.addr_map (eq_of_str_eq (host c) (host conn) same))
                | inr differs ↦ rw differs mapped
              ],
              fd,
              p,
              omega arith,
            )
      ]

  del_connect-IsConsistent :
      lookup conn.fd t.connections ≡ some conn → IsConsistent (del_connect t conn)
  unfolding del_connect
  del_connect-IsConsistent present = record { address = address; connection = connection }
    where
      address :
          (a : Bytes) (k : ℕ)
          → (if str_eq a (host conn) then none else t.addr_map a) ≡ some k
          → (c : Peer) × (lookup k (delete conn.fd t.connections) ≡ some c) × (host c ≡ a)
      address a k e = elim (Bool-cases (str_eq a (host conn))) [
        | inl same ↦ absurd (ground arith)
        | inr differs ↦
            let (c, found, at) = v.address a k (ground arith) in
            (
              c,
              elim (ℕ_discrete conn.fd k) [
                | yes same ↦ absurd (ground (arith, str_eq_refl a, at, found, present))
                | no other ↦ ground (arith, lookup-delete conn.fd k t.connections)
              ],
              at,
            )
      ]

      connection :
          (k : ℕ) (c : Peer)
          → lookup k (delete conn.fd t.connections) ≡ some c
          → ((if str_eq (host c) (host conn) then none else t.addr_map (host c)) ≡ some k)
            × (c.fd ≡ k)
            × (0 < k)
            × (k ≤ t.fd)
      connection k c e =
          let (mapped, fd, p, le) =
            v.connection k c (ground (arith, lookup-delete conn.fd k t.connections)) in
          let (mapped', _, _, _) = v.connection conn.fd conn present in
          (
            elim (Bool-cases (str_eq (host c) (host conn))) [
              | inl same ↦ absurd (
                  ground (
                    arith,
                    lookup-delete conn.fd k t.connections,
                    ap t.addr_map (eq_of_str_eq (host c) (host conn) same),
                    mapped,
                    mapped',
                  ))
              | inr differs ↦ rw differs mapped
            ],
            fd,
            p,
            le,
          )

module _ (t : AddrTable) (a : Bytes) (v : IsConsistent t) (h : t.fd + 1 < 2 ^ 64) where
  on_case_missing : (c : Case) → t.addr_map a ≡ none → IsConsistent (on_case t a c none).0
  unfolding on_case
  on_case_missing carries free = v
  on_case_missing opening free =
      add_connect-IsConsistent t (record { fd = 0; net_conn = a }) v h free
  on_case_missing closing free = v
  on_case_missing ignoring free = v

  on_case_present :
      (c : Case) (conn : Peer)
      → lookup conn.fd t.connections ≡ some conn
      → IsConsistent (on_case t a c (some conn)).0
  unfolding on_case
  on_case_present carries conn present = v
  on_case_present opening conn present = v
  on_case_present closing conn present = del_connect-IsConsistent t conn v present
  on_case_present ignoring conn present = v

  on_case-IsConsistent : (c : Case) → IsConsistent (on_case t a c (find t a)).0
  on_case-IsConsistent c = elim (find_lem t a v) [
    | inl (free, e) ↦ rw e (on_case_missing c free)
    | inr (conn, e, _, _, present) ↦ rw e (on_case_present c conn present)
  ]

-- When the two maps agree and the counter is below 2^64 - 1: a datagram of fewer than three bytes
-- makes `process` panic, and after any other the two maps agree again.
pub process-IsConsistent :
    (t : AddrTable) (a message : Bytes)
    → IsConsistent t
    → t.fd + 1 < 2 ^ 64
    → ((length message < 3) × (process t a message ≡ panic))
      ⊎ ((3 ≤ length message)
          × ((t' : AddrTable) × (act : Action) × (process t a message ≡ ok (t', act))
              × IsConsistent t'))
unfolding process
process-IsConsistent t a [] v h = inl (omega arith, refl)
process-IsConsistent t a (x ∷ []) v h = inl (omega arith, refl)
process-IsConsistent t a (x ∷ y ∷ []) v h = inl (omega arith, refl)
process-IsConsistent t a (x ∷ y ∷ kind ∷ rest) v h = inr (
  omega arith,
  (
    (on_case t a (case_of kind) (find t a)).0,
    (on_case t a (case_of kind) (find t a)).1,
    refl,
    on_case-IsConsistent t a v h (case_of kind),
  ),
)
