-- ===== src/Connections/Valid.antt =====
-- The connection table through any history of connections that open and close.
use lemo.Base.{
  ℕ, suc, ◌+◌, ◌%◌, ◌^◌, ◌≤◌, ◌<◌, ◌≡◌, ◌≢◌, refl, List, [], ◌∷◌, none, some, arith, ◌==◌,
  if◌then◌else◌, length, Option-cases, inl, inr,
}
use lemo.Base.Assoc.{
  lookup, IsUnique, lookup-insert, lookup-delete, length-insert, length-delete, insert-IsUnique,
  delete-IsUnique,
}
use lemo.Connections.{
  Conn, Table, empty, add_connect, del_connect, get_connection, get_connections_count, Event,
  opened, closed, step, run,
}

module _ {N : Type 0} where
  -- Every entry stands once, under the descriptor that its connection holds, which has been handed
  -- out: it is positive and at most the counter.
  pub record IsValid (t : Table N) : Type 0 where
    pub unique : IsUnique t.connections
    pub in_use :
        (k : ℕ) (c : Conn N) → lookup k t.connections ≡ some c → (c.fd ≡ k) × (0 < k) × (k ≤ t.fd)

  empty-IsValid : IsValid (empty {N = N})
  unfolding lookup
  empty-IsValid = record { unique = tt; in_use = λ k c e. cc }

  unused : (t : Table N) (k : ℕ) → IsValid t → t.fd < k → lookup k t.connections ≡ none
  unused t k v h = elim (Option-cases (lookup k t.connections)) [
    | inl e ↦ e
    | inr (c, e) ↦ let (_, _, le) = v.in_use k c e in absurd (omega arith)
  ]

  -- In a valid table, before the counter reaches 2^64 - 1: adding a connection keeps the table valid
  -- and gives the connection the next descriptor, which nothing stood under; the other entries stay,
  -- and the count grows by one.
  pub add_connect_lem :
      (t : Table N) (conn : Conn N)
      → IsValid t
      → t.fd + 1 < 2 ^ 64
      → let (t', conn') = add_connect t conn in
        (IsValid t')
        × (conn' ≡ record conn { fd = t.fd + 1 })
        × (get_connection t (t.fd + 1) ≡ none)
        × ((k : ℕ)
            → get_connection t' k ≡ (if t.fd + 1 == k then some conn' else get_connection t k))
        × (get_connections_count t' ≡ suc (get_connections_count t))
  unfolding add_connect get_connection get_connections_count
  add_connect_lem t conn v h =
      let next : (t.fd + 1) % 2 ^ 64 ≡ t.fd + 1 = omega arith in
      let fresh = unused t (t.fd + 1) v (omega arith) in
      rw next (
        record {
          unique = insert-IsUnique (t.fd + 1) _ t.connections v.unique;
          in_use = λ k c e. ground (
            arith,
            lookup-insert (t.fd + 1) k (record conn { fd = t.fd + 1 }) t.connections,
            v.in_use k c,
          );
        },
        refl,
        fresh,
        λ k. lookup-insert (t.fd + 1) k _ t.connections,
        length-insert (t.fd + 1) _ t.connections fresh,
      )

  -- In a valid table, deleting a connection keeps the table valid, removes the entry under its
  -- descriptor and no other, and lowers the count by one if there was an entry.
  pub del_connect_lem :
      (t : Table N) (conn : Conn N)
      → IsValid t
      → (IsValid (del_connect t conn))
        × ((k : ℕ)
            → get_connection (del_connect t conn) k
              ≡ (if conn.fd == k then none else get_connection t k))
        × ((get_connection t conn.fd ≢ none)
            → suc (get_connections_count (del_connect t conn)) ≡ get_connections_count t)
  unfolding del_connect get_connection get_connections_count
  del_connect_lem t conn v = (
    record {
      unique = delete-IsUnique conn.fd t.connections v.unique;
      in_use = λ k c e. ground (arith, lookup-delete conn.fd k t.connections, v.in_use k c);
    },
    λ k. lookup-delete conn.fd k t.connections,
    λ present. elim (Option-cases (lookup conn.fd t.connections)) [
      | inl e ↦ absurd (present e)
      | inr (c, e) ↦ length-delete conn.fd t.connections c v.unique e
    ],
  )

  pub step-IsValid :
      (t : Table N) (e : Event N) → IsValid t → t.fd + 1 < 2 ^ 64 → IsValid (step t e)
  unfolding step
  step-IsValid t (opened n) v h = (add_connect_lem t (record { fd = 0; net_conn = n }) v h).0
  step-IsValid t (closed conn) v h = (del_connect_lem t conn v).0

  pub step-fd :
      (t : Table N) (e : Event N)
      → t.fd + 1 < 2 ^ 64
      → (t.fd ≤ (step t e).fd) × ((step t e).fd ≤ t.fd + 1)
  unfolding step add_connect del_connect
  step-fd t (opened n) h = omega arith
  step-fd t (closed conn) h = omega arith

  -- A valid table is valid after any history of connections that open and close, while the counter
  -- and the number of events are together below 2^64.
  pub run-IsValid :
      (t : Table N) (es : List (Event N))
      → IsValid t
      → t.fd + length es < 2 ^ 64
      → IsValid (run t es)
  unfolding run
  run-IsValid t [] v h = v
  run-IsValid t (e ∷ es) v h =
      run-IsValid (step t e) es (step-IsValid t e v (omega arith))
        (omega (arith, step-fd t e (omega arith)))

  step_closed :
      (t : Table N) (ev : Event N) (k : ℕ)
      → t.fd + 1 < 2 ^ 64
      → k ≤ t.fd
      → get_connection t k ≡ none
      → get_connection (step t ev) k ≡ none
  unfolding step get_connection add_connect del_connect
  step_closed t (opened n) k h le e = ground (
    arith,
    lookup-insert ((t.fd + 1) % 2 ^ 64) k (record { fd = (t.fd + 1) % 2 ^ 64; net_conn = n })
        t.connections,
  )
  step_closed t (closed conn) k h le e = ground (arith, lookup-delete conn.fd k t.connections)

  -- A descriptor that was handed out and closed is never handed out again: it stays closed through
  -- any history while the counter and the number of events are together below 2^64.
  pub run_stays_closed :
      (t : Table N) (es : List (Event N)) (k : ℕ)
      → t.fd + length es < 2 ^ 64
      → k ≤ t.fd
      → get_connection t k ≡ none
      → get_connection (run t es) k ≡ none
  unfolding run
  run_stays_closed t [] k h le e = e
  run_stays_closed t (ev ∷ es) k h le e =
      run_stays_closed (step t ev) es k (omega (arith, step-fd t ev (omega arith)))
        (omega (arith, step-fd t ev (omega arith))) (step_closed t ev k (omega arith) le e)
