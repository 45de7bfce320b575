-- ===== src/Client/Read/First.antt =====
-- The loops of the udp and websocket clients, as the first error of their messages.
use lemo.Base.{Bytes, ◌≡◌, refl, sym, ◌∙◌, List, [], ◌∷◌, Option, none, some}
use lemo.Base.Io.{Io, pure, ◌>>=◌, then_with, then_with_assoc, then_with-cong}
use lemo.Client.Read.{websocket_read_loop, udp_read_loop, after_message, after_datagram}

module _ {S : Type 0} where
  abbrev pub unless_failed : Io S (Option Bytes) → Option Bytes → Io S (Option Bytes)
  unless_failed rest none = rest
  unless_failed rest (some err) = pure (some err)

  -- The messages handled up to the first that gives an error.
  unfoldable pub first_error : (Bytes → Io S (Option Bytes)) → List Bytes → Io S (Option Bytes)
  first_error handle [] = pure none
  first_error handle (m ∷ ms) = handle m >>= unless_failed (first_error handle ms)

  -- The websocket and the udp client handle their messages up to the first that gives an error, and
  -- report that error; the udp client does not report the error of a Close message.
  pub read_loops_lem :
      (on_error : Bytes → Io S (Unit {0})) (handle : Bytes → Io S (Option Bytes))
      (messages : List Bytes) (s : S)
      → (websocket_read_loop on_error handle messages s
          ≡ (first_error handle messages >>= λ err. after_message on_error handle err (pure tt)) s)
        × (udp_read_loop on_error handle messages s
            ≡ (first_error handle messages >>= λ err. after_datagram on_error handle err (pure tt))
                s)
  unfolding websocket_read_loop udp_read_loop first_error
  read_loops_lem on_error handle [] s = (refl, refl)
  read_loops_lem on_error handle (m ∷ ms) s = (
    then_with-cong (handle m s) _ _ (λ e s'.
          elim e
            as (λ k.
              after_message on_error handle k (websocket_read_loop on_error handle ms) s'
              ≡ then_with (unless_failed (first_error handle ms) k s')
                  (λ err. after_message on_error handle err (pure tt))) [
                    | none ↦ (read_loops_lem on_error handle ms s').0
                    | some err ↦ refl
                  ])
        ∙ sym (then_with_assoc (handle m s) _ _),
    then_with-cong (handle m s) _ _ (λ e s'.
          elim e
            as (λ k.
              after_datagram on_error handle k (udp_read_loop on_error handle ms) s'
              ≡ then_with (unless_failed (first_error handle ms) k s')
                  (λ err. after_datagram on_error handle err (pure tt))) [
                    | none ↦ (read_loops_lem on_error handle ms s').1
                    | some err ↦ refl
                  ])
        ∙ sym (then_with_assoc (handle m s) _ _),
  )
