-- ===== src/Client/Async/Waits.antt =====
-- The wait of a call of `Async` against the goroutine that reads: `Emit` of
-- socket/tcp/client/async.go, from the registered route to the deferred removal, and the handler that
-- it registers. The channel has no buffer, so a send and its receive are one step of both. The
-- reader runs the handler of each message itself, in `handler` of client.go. The udp and websocket
-- copies are the same.
use lemo.Base.{◌≡◌, ◌↔◌, refl, sym, ◌∙◌, ◌⊎◌, inl, inr, Bool, true, false, arith}

-- How a call ends: with the error of `client.Emit`, with "timeout", or with a stream.
pub data Ending : Type 0 where
  failed timed_out answered : Ending

-- In `client.Emit`, at the `select`, before the deferred `Remove`, or returned.
pub data Caller : Type 0 where
  emits selects : Caller
  leaves returned : Ending → Caller

-- In `Read` or another handler, or in the handler of the call, at `ch <- stream`.
pub data Reading : Type 0 where
  reads sends : Reading

-- `registered` says whether the router still has the route of the call.
pub record Wait : Type 0 where
  pub caller : Caller
  pub reader : Reading
  pub registered : Bool

-- When the route is registered.
abbrev pub started : Wait
started = record { caller = emits; reader = reads; registered = true }

pub data WaitStep (s : Wait) : Wait → Type 0 where
  sent : s.caller ≡ emits → WaitStep s (record s { caller = selects })
  fails : s.caller ≡ emits → WaitStep s (record s { caller = leaves failed })
  times_out : s.caller ≡ selects → WaitStep s (record s { caller = leaves timed_out })
  -- A message for the event, while the route is there.
  arrives : s.reader ≡ reads → s.registered ≡ true → WaitStep s (record s { reader = sends })
  hands_over :
      s.caller ≡ selects
      → s.reader ≡ sends
      → WaitStep s (record s { caller = leaves answered; reader = reads })
  removes :
      (e : Ending)
      → s.caller ≡ leaves e
      → WaitStep s (record s { caller = returned e; registered = false })

pub data Waits (s : Wait) : Wait → Type 0 where
  here : Waits s s
  later : {t u : Wait} → Waits s t → WaitStep t u → Waits s u

-- The call has ended its wait.
abbrev pub HasLeft : Caller → Type 0
HasLeft emits = ⊥
HasLeft selects = ⊥
HasLeft (leaves e) = Unit
HasLeft (returned e) = Unit

-- The reader stands at a send that nobody will receive.
abbrev pub IsStuck : Wait → Type 0
IsStuck s = HasLeft s.caller × (s.reader ≡ sends)

-- The reader can come to read again.
abbrev pub ReadsAgain : Wait → Type 0
ReadsAgain s = (t : Wait) × Waits s t × (t.reader ≡ reads)

WaitStep-IsStuck : {s t : Wait} → WaitStep s t → IsStuck s → IsStuck t
WaitStep-IsStuck (sent a) h = ground arith
WaitStep-IsStuck (fails a) h = ground arith
WaitStep-IsStuck (times_out a) h = ground arith
WaitStep-IsStuck (arrives a r) h = ground arith
WaitStep-IsStuck (hands_over a r) h = ground arith
WaitStep-IsStuck (removes e a) h = ground arith

Waits-IsStuck : {s t : Wait} → Waits s t → IsStuck s → IsStuck t
Waits-IsStuck here h = h
Waits-IsStuck (later r w) h = WaitStep-IsStuck w (Waits-IsStuck r h)

IsStuck-not_reads : {s : Wait} → IsStuck s → ReadsAgain s → ⊥
IsStuck-not_reads stuck (t, r, reading) =
    let (left, sending) = Waits-IsStuck r stuck in
    let clash : Reading.reads ≡ Reading.sends = sym reading ∙ sending in cc

-- While the call is in `Emit` or at its `select`, the reader can hand its stream over.
hands_over_later :
    (s : Wait) → s.reader ≡ sends → (s.caller ≡ emits) ⊎ (s.caller ≡ selects) → ReadsAgain s
hands_over_later s sending (inl a) = (
  record { caller = leaves answered; reader = reads; registered = s.registered },
  later (later here (sent a)) (hands_over refl sending),
  refl,
)
hands_over_later s sending (inr a) =
    (record s { caller = leaves answered; reader = reads }, later here (hands_over a sending), refl)

caller_cases : (c : Caller) → HasLeft c ⊎ ((c ≡ emits) ⊎ (c ≡ selects))
caller_cases emits = inr (inl refl)
caller_cases selects = inr (inr refl)
caller_cases (leaves e) = inl tt
caller_cases (returned e) = inl tt

reading_cases : (r : Reading) → (r ≡ reads) ⊎ (r ≡ sends)
reading_cases reads = inl refl
reading_cases sends = inr refl

-- The goroutine that reads can come to read again exactly when it does not stand at the send of a
-- call that has left its `select`.
pub ReadsAgain-IsStuck : (s : Wait) → ReadsAgain s ↔ (¬ IsStuck s)
ReadsAgain-IsStuck s = (λ again stuck. IsStuck-not_reads stuck again, unless)
  where
    unless : ¬ IsStuck s → ReadsAgain s
    unless free = elim (reading_cases s.reader) [
      | inl r ↦ (s, here, r)
      | inr r ↦ elim (caller_cases s.caller) [
        | inl left ↦ absurd (free (left, r))
        | inr waiting ↦ hands_over_later s r waiting
      ]
    ]

-- Whichever way a call of `Async` ends, with the error of sending, the timeout or a stream, it can
-- have returned while the goroutine that reads stands at the send of its handler, and never reads
-- again: a message for the event that no receive meets, before the removal, is enough.
pub returned_stuck :
    (e : Ending) → (s : Wait) × Waits started s × (s.caller ≡ returned e) × (¬ ReadsAgain s)
returned_stuck failed = (
  record { caller = returned failed; reader = sends; registered = false },
  later (later (later here (arrives refl refl)) (fails refl)) (removes failed refl),
  refl,
  IsStuck-not_reads (tt, refl),
)
returned_stuck timed_out = (
  record { caller = returned timed_out; reader = sends; registered = false },
  later (later (later (later here (sent refl)) (times_out refl)) (arrives refl refl))
      (removes timed_out refl),
  refl,
  IsStuck-not_reads (tt, refl),
)
returned_stuck answered = (
  record { caller = returned answered; reader = sends; registered = false },
  later
      (later (later (later (later here (sent refl)) (arrives refl refl)) (hands_over refl refl))
        (arrives refl refl))
      (removes answered refl),
  refl,
  IsStuck-not_reads (tt, refl),
)
