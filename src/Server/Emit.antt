-- ===== src/Server/Emit.antt =====
-- `EmitAll` of socket/tcp/server/server.go, with `onClose` and `Push`.
use lemo.Base.{
  Bytes, ℕ, suc, ◌+◌, ◌≡◌, refl, ap, ◌∙◌, List, [], ◌∷◌, Option, none, some, ok, arith, length,
  if◌then◌else◌, ◌==◌,
}
use native.Mathlib.Nat.{add-zero}
use lemo.Base.Io.{Io}
use lemo.Connections.{Conn, get_connection, del_connect}
use lemo.Connections.Valid.{IsValid, del_connect_lem}
use lemo.Server.{Net, State, Server, push, emit_all, count_success, client_is_close, on_close}

abbrev pub successes : List (Option Bytes) → ℕ
successes [] = 0
successes (none ∷ errs) = suc (successes errs)
successes (some err ∷ errs) = successes errs

count-successes :
    (success : ℕ) (err : Option Bytes) (errs : List (Option Bytes))
    → count_success success err + successes errs ≡ success + successes (err ∷ errs)
count-successes success none errs = omega arith
count-successes success (some err) errs = refl

module _ {U N : Type 0} where
  -- The results of the sends, in order, with the state after the last, when none panics.
  pub data Sends (send : ℕ → Io (State U N) (Option Bytes))
      : List ℕ → State U N → List (Option Bytes) → State U N → Type 0 where
    done : {s : State U N} → Sends send [] s [] s
    then_sent :
        {fd : ℕ} {fds : List ℕ} {s t u : State U N} {err : Option Bytes}
        {errs : List (Option Bytes)}
        → send fd s ≡ ok (err, t)
        → Sends send fds t errs u
        → Sends send (fd ∷ fds) s (err ∷ errs) u

  -- When no send panics, `EmitAll` sends to every descriptor once, in order, an error of one send not stopping the next;
  -- its counters grow by the number of descriptors and by the number of sends without an error.
  pub emit_all-Sends :
      (send : ℕ → Io (State U N) (Option Bytes)) (fds : List ℕ) (s u : State U N)
      (errs : List (Option Bytes)) (counter success : ℕ)
      → Sends send fds s errs u
      → emit_all send fds counter success s
        ≡ ok ((counter + length fds, success + successes errs), u)
  unfolding emit_all
  emit_all-Sends send [] s u errs counter success done = rw (add-zero, add-zero) refl
  emit_all-Sends send (fd ∷ fds) s u errs counter success
        (then_sent {err = err} {errs = errs'} e rest) =
      let counted : counter + 1 + length fds ≡ counter + length (fd ∷ fds) = omega arith in
      rw e (
        emit_all-Sends send fds _ u _ (counter + 1) (count_success success err) rest
        ∙ ap (λ p. ok (p, u))
            (ap (λ n. (n, count_success success err + successes errs')) counted
              ∙ ap (λ k. (counter + length (fd ∷ fds), k)) (count-successes success err errs')))

module _ {U N X : Type 0} (net : Net U N) where
  -- With a valid table, `onClose` closes the network connection and calls the callback in a state where the descriptor
  -- is gone from the table and every other connection is still there, whatever the error of closing;
  -- there, `Push` to the descriptor is an error and does nothing.
  pub on_close_lem :
      (server : Server U N X) (conn : Conn N) (s : State U N)
      → IsValid s.table
      → (t : State U N) × (on_close net server conn s ≡ server.on_close_callback conn t)
        × IsValid t.table
        × ((k : ℕ)
            → get_connection t.table k ≡ (if conn.fd == k then none else get_connection s.table k))
        × (t.env ≡ (net.close conn.net_conn s.env).1)
        × ((msg : Bytes) → push net conn.fd msg t ≡ ok (some client_is_close, t))
  unfolding on_close push
  on_close_lem server conn s v =
      let (valid, found, _) = del_connect_lem s.table conn v in
      let gone : get_connection (del_connect s.table conn) conn.fd ≡ none =
        ground (arith, found conn.fd) in
      (
        record { table = del_connect s.table conn; env = (net.close conn.net_conn s.env).1 },
        refl,
        valid,
        found,
        refl,
        λ msg. rw gone refl,
      )
