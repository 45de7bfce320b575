-- ===== src/Server/Conns/Everywhere.antt =====
-- `EmitAll` of socket/tcp/server/server.go over the connections that are open.
use lemo.Base.{
  Bytes, ℕ, ◌+◌, ◌≡◌, refl, ◌∙◌, List, [], ◌∷◌, Option-cases, none, some, inl, inr, length, ok,
  arith,
}
use lemo.Connections.{Conn, Table, get_connection}
use lemo.Protocol.Words.{ℤ}
use lemo.Server.{Net, State, push, emit, emit_all, client_is_close}
use lemo.Server.Conns.{emit_everywhere}
use lemo.Socket.{Pack}
use lemo.Socket.MessageType
use native.Mathlib.Nat.{add-zero, zero-add}

-- The connections of the descriptors that are in the table.
unfoldable pub open_among : {N : Type 0} → Table N → List ℕ → List (Conn N)
open_among t [] = []
open_among t (fd ∷ fds) = elim (get_connection t fd) [
  | none ↦ open_among t fds
  | some conn ↦ conn ∷ open_among t fds
]

open_among_missing :
    {N : Type 0} (t : Table N) (fd : ℕ) (fds : List ℕ)
    → get_connection t fd ≡ none
    → open_among t fds ≡ open_among t (fd ∷ fds)
unfolding open_among
open_among_missing t fd fds e = rw (e, open_among) refl

open_among_found :
    {N : Type 0} (t : Table N) (fd : ℕ) (fds : List ℕ) (conn : Conn N)
    → get_connection t fd ≡ some conn
    → conn ∷ open_among t fds ≡ open_among t (fd ∷ fds)
unfolding open_among
open_among_found t fd fds conn e = rw (e, open_among) refl

module _ {U N : Type 0} (net : Net U N) where
  -- One write to each connection, in order.
  unfoldable pub write_each : Bytes → List (Conn N) → U → U
  write_each msg [] u = u
  write_each msg (conn ∷ conns) u = write_each msg conns (net.write conn.net_conn msg u).1

  module _ (encode : ℕ → ℤ → Bytes → Bytes → Bytes) (pack : Pack)
      (no_error : (n : N) (msg : Bytes) (u : U) → (net.write n msg u).0 ≡ none) where
    abbrev message : Bytes
    message = encode MessageType.bin pack.id pack.event pack.payload

    emit_open :
        (fd : ℕ) (conn : Conn N) (s : State U N)
        → get_connection s.table fd ≡ some conn
        → emit net encode fd pack s
          ≡ ok (none, record s { env = (net.write conn.net_conn message s.env).1 })
    unfolding emit push
    emit_open fd conn s found = rw found (rw (no_error conn.net_conn message s.env) refl)

    emit_closed :
        (fd : ℕ) (s : State U N)
        → get_connection s.table fd ≡ none
        → emit net encode fd pack s ≡ ok (some client_is_close, s)
    unfolding emit push
    emit_closed fd s missing = rw missing refl

    abbrev reached : List ℕ → ℕ → ℕ → State U N → (ℕ × ℕ) × State U N
    reached fds counter success s = (
      (counter + length fds, success + length (open_among s.table fds)),
      record s { env = write_each message (open_among s.table fds) s.env },
    )

    emit_all-reached :
        (fds : List ℕ) (counter success : ℕ) (s : State U N)
        → emit_all (λ fd. emit net encode fd pack) fds counter success s
          ≡ ok (reached fds counter success s)
    unfolding emit_all open_among write_each
    emit_all-reached [] counter success s = rw (add-zero counter, add-zero success) refl
    emit_all-reached (fd ∷ fds) counter success s =
        elim (Option-cases (get_connection s.table fd)) [
          | inl missing ↦
              let more : counter + 1 + length fds ≡ counter + length (fd ∷ fds) = omega arith in
              let conns = open_among_missing s.table fd fds missing in
              rw (emit_closed fd s missing) (
                emit_all-reached fds (counter + 1) success s ∙ (λ i. ok (
                  (more i, success + length (conns i)),
                  record s { env = write_each message (conns i) s.env },
                )))
          | inr (conn, found) ↦
              let more : counter + 1 + length fds ≡ counter + length (fd ∷ fds) = omega arith in
              let rest = open_among s.table fds in
              let grown : success + 1 + length rest ≡ success + length (conn ∷ rest) =
                omega arith in
              let conns = open_among_found s.table fd fds conn found in
              let s' : State U N = record s { env = (net.write conn.net_conn message s.env).1 } in
              rw (emit_open fd conn s found) (
                emit_all-reached fds (counter + 1) (success + 1) s'
                ∙ (λ i. ok ((more i, grown i), record s { env = write_each message rest s'.env }))
                ∙ (λ i. ok (
                  (counter + length (fd ∷ fds), success + length (conns i)),
                  record s { env = write_each message (conns i) s.env },
                )))
        ]

    -- On a network whose writes do not fail, `EmitAll` over the descriptors that `range` yields
    -- writes the encoded pack once to the connection of each that is in the table, in order, and to
    -- nothing else, leaves the table as it is, and returns the number of the descriptors and the
    -- number of those that were in the table.
    pub emit_everywhere_lem :
        (fds : List ℕ) (s : State U N)
        → emit_everywhere net encode fds pack s
          ≡ ok (
            (length fds, length (open_among s.table fds)),
            record s { env = write_each message (open_among s.table fds) s.env },
          )
    unfolding emit_everywhere
    emit_everywhere_lem fds s =
        emit_all-reached fds 0 0 s
        ∙ rw (zero-add (length fds), zero-add (length (open_among s.table fds))) refl
