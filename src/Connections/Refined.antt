-- ===== src/Connections/Refined.antt =====
-- The connection table, a list of entries with a counter, as a partial function from descriptors to
-- connections: what `addConnect`, `delConnect`, `GetConnection` and `GetConnectionsCount` promise.
use lemo.Base.{
  ℕ, zero, suc, ◌+◌, ◌^◌, ◌≤◌, ◌<◌, ◌≡◌, refl, sym, ap, ◌∙◌, List, [], ◌∷◌, Option, none, some,
  arith, ◌==◌, if◌then◌else◌, length, Option-cases, Bool-cases, ==_iff, inl, inr,
}
use lemo.Base.Assoc.{delete_absent}
use lemo.Connections.{
  Conn, Table, add_connect, del_connect, get_connection, get_connections_count, Event, opened,
  closed, step, run,
}
use lemo.Connections.Valid.{IsValid, add_connect_lem, del_connect_lem, step-IsValid, step-fd}

module _ (N : Type 0) where
  -- The last descriptor that was handed out, and the connection of each descriptor.
  pub record Directory : Type 0 where
    pub last : ℕ
    pub conn : ℕ → Option (Conn N)

module _ {N : Type 0} where
  unfoldable pub next : Directory N → Event N → Directory N
  next d (opened n) = record {
    last = d.last + 1;
    conn =
        λ k. if d.last + 1 == k then some (record { fd = d.last + 1; net_conn = n }) else d.conn k;
  }
  next d (closed c) = record d { conn = λ k. if c.fd == k then none else d.conn k }

  unfoldable pub after : Directory N → List (Event N) → Directory N
  unfolding next
  after d [] = d
  after d (e ∷ es) = after (next d e) es

  abbrev pub one_if_some : Option (Conn N) → ℕ
  one_if_some none = 0
  one_if_some (some c) = 1

  -- How many descriptors from 1 to a bound have a connection.
  unfoldable pub open_to : ℕ → (ℕ → Option (Conn N)) → ℕ
  open_to zero conn = 0
  open_to (suc n) conn = one_if_some (conn (suc n)) + open_to n conn

  pub record Represents (t : Table N) (d : Directory N) : Type 0 where
    pub last_same : t.fd ≡ d.last
    pub conn_same : (k : ℕ) → get_connection t k ≡ d.conn k
    pub count_same : get_connections_count t ≡ open_to d.last d.conn

  open_to-cong :
      (n : ℕ) (p q : ℕ → Option (Conn N))
      → ((k : ℕ) → k ≤ n → p k ≡ q k)
      → open_to n p ≡ open_to n q
  unfolding open_to
  open_to-cong zero p q h = refl
  open_to-cong (suc n) p q h =
      rw (h (suc n) (omega arith)) (rw (open_to-cong n p q (λ k le. h k (omega arith))))

  open_to-delete :
      (n j : ℕ) (p : ℕ → Option (Conn N)) (c : Conn N)
      → 0 < j
      → j ≤ n
      → p j ≡ some c
      → suc (open_to n (λ k. if j == k then none else p k)) ≡ open_to n p
  unfolding open_to
  open_to-delete zero j p c pos le e = absurd (omega arith)
  open_to-delete (suc n) j p c pos le e = elim (Bool-cases (j == suc n)) [
    | inl here ↦
        let at : p (suc n) ≡ some c = ap p (sym ((==_iff j (suc n)).0 here)) ∙ e in
        let below : open_to n (λ k. if j == k then none else p k) ≡ open_to n p =
          open_to-cong n _ p (λ k le. ground arith) in
        rw (here, at) (omega (arith, below))
    | inr not_here ↦ rw not_here (omega (arith, open_to-delete n j p c pos (ground arith) e))
  ]

  open_to-missing :
      (n j : ℕ) (p : ℕ → Option (Conn N))
      → p j ≡ none
      → open_to n (λ k. if j == k then none else p k) ≡ open_to n p
  open_to-missing n j p e = open_to-cong n _ p (λ k le. elim (Bool-cases (j == k)) [
    | inl same ↦ rw same (sym e ∙ ap p ((==_iff j k).0 same))
    | inr other ↦ rw other refl
  ])

  open_to-next :
      (n : ℕ) (p q : ℕ → Option (Conn N)) (c : Conn N)
      → q (n + 1) ≡ some c
      → ((k : ℕ) → k ≤ n → q k ≡ p k)
      → open_to (n + 1) q ≡ suc (open_to n p)
  unfolding open_to
  open_to-next n p q c e same =
      let next : n + 1 ≡ suc n = omega arith in
      let at : q (suc n) ≡ some c = ap q (sym next) ∙ e in
      rw next (rw at (omega (arith, open_to-cong n q p same)))

  add-Represents :
      (t : Table N) (d : Directory N) (n : N)
      → IsValid t
      → t.fd + 1 < 2 ^ 64
      → Represents t d
      → Represents (step t (opened n)) (next d (opened n))
  unfolding step next
  add-Represents t d n v h r =
      let conn : Conn N = record { fd = 0; net_conn = n } in
      let (valid, named, fresh, at, count) = add_connect_lem t conn v h in
      let named' : (add_connect t conn).1 ≡ record { fd = d.last + 1; net_conn = n } =
        named ∙ ap (λ l. record { fd = l + 1; net_conn = n }) r.last_same in
      record {
        last_same = unfold add_connect in omega (arith, r.last_same);
        conn_same =
            λ k. at k ∙ (λ i. if r.last_same i + 1 == k then some (named' i) else r.conn_same k i);
        count_same =
            count
            ∙ ap suc r.count_same
            ∙ sym (
                open_to-next d.last d.conn _ (record { fd = d.last + 1; net_conn = n })
                  (ground arith) (λ k le. ground arith));
      }

  del-Represents :
      (t : Table N) (d : Directory N) (c : Conn N)
      → IsValid t
      → Represents t d
      → Represents (step t (closed c)) (next d (closed c))
  unfolding step next
  del-Represents t d c v r =
      let (valid, at, count) = del_connect_lem t c v in
      record {
        last_same = unfold del_connect in r.last_same;
        conn_same = λ k. at k ∙ (λ i. if c.fd == k then none else r.conn_same k i);
        count_same = elim (Option-cases (get_connection t c.fd)) [
          | inl e ↦
              let same : del_connect t c ≡ t =
                unfold del_connect get_connection in
                ap (λ es. record t { connections = es }) (delete_absent c.fd t.connections e) in
              ap get_connections_count same
              ∙ r.count_same
              ∙ sym (open_to-missing d.last c.fd d.conn (sym (r.conn_same c.fd) ∙ e))
          | inr (c', e) ↦
              let (_, positive, old) = v.in_use c.fd c' (unfold get_connection in e) in
              let fewer = count (λ missing. let bad : some c' ≡ none = sym e ∙ missing in cc) in
              omega (
                arith,
                fewer,
                r.count_same,
                open_to-delete d.last c.fd d.conn c' positive (omega (arith, r.last_same))
                    (sym (r.conn_same c.fd) ∙ e),
              )
        ];
      }

  next-Represents :
      (t : Table N) (d : Directory N) (e : Event N)
      → IsValid t
      → t.fd + 1 < 2 ^ 64
      → Represents t d
      → Represents (step t e) (next d e)
  next-Represents t d (opened n) v h r = add-Represents t d n v h r
  next-Represents t d (closed c) v h r = del-Represents t d c v r

  -- A directory represents a valid table when it has the same counter, the same connection under
  -- each descriptor, and as many connections as `GetConnectionsCount` says. After any history of
  -- connections that open and close, while the counter and the number of events are together below
  -- 2^64, the directory after the same history represents the table: each opened connection has
  -- been given the next descriptor, and each closed one is gone.
  pub run-Represents :
      (t : Table N) (d : Directory N) (es : List (Event N))
      → IsValid t
      → Represents t d
      → t.fd + length es < 2 ^ 64
      → Represents (run t es) (after d es)
  unfolding run after
  run-Represents t d [] v r h = r
  run-Represents t d (e ∷ es) v r h =
      run-Represents (step t e) (next d e) es (step-IsValid t e v (omega arith))
        (next-Represents t d e v (omega arith) r) (omega (arith, step-fd t e (omega arith)))
