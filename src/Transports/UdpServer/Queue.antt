-- ===== src/Transports/UdpServer/Queue.antt =====
-- The goroutine of a connection of the udp server, socket/udp/server/server.go: it takes the messages
-- that `process` has put in the queue of the connection, one by one. The `break` after the signal
-- of `onClose` leaves only the `select`, so that signal, which stops the timer, does not end it.
use lemo.Base.{Bytes, ◌≡◌, refl, sym, ◌∙◌, List, [], ◌∷◌, ◌++◌, Option, none, some}
use lemo.Base.Io.{Io, pure, ◌>>=◌, ◌>>◌, then_with_assoc, then_with-cong}

-- What the goroutine meets at its `select`.
pub data Signal : Type 0 where
  accepted : Bytes → Signal
  close_signal : Signal

module _ {S : Type 0} (decode_message : Bytes → Io S (Option Bytes))
    (on_error : Bytes → Io S (Unit {0})) (stop_tick : Io S (Unit {0})) where
  abbrev pub report : Option Bytes → Io S (Unit {0})
  report none = pure tt
  report (some err) = on_error err

  abbrev pub on_signal : Signal → Io S (Unit {0})
  on_signal (accepted message) = decode_message message >>= report
  on_signal close_signal = stop_tick

  unfoldable pub work : List Signal → Io S (Unit {0})
  work [] = pure tt
  work (x ∷ xs) = on_signal x >> work xs

  -- Neither an error of a message nor the close signal ends the goroutine: what comes after them is
  -- handled as before.
  pub work-append : (xs ys : List Signal) (s : S) → work (xs ++ ys) s ≡ (work xs >> work ys) s
  unfolding work
  work-append [] ys s = refl
  work-append (x ∷ xs) ys s =
      then_with-cong (on_signal x s) _ _ (λ _ s'. work-append xs ys s')
      ∙ sym (then_with_assoc (on_signal x s) _ _)
