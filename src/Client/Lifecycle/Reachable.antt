-- ===== src/Client/Lifecycle/Reachable.antt =====
-- What holds in every state that the goroutines of `Connect` can reach, and which states can still
-- come to `OnClose`.
use lemo.Base.{◌≡◌, ◌≢◌, refl, ◌⊎◌, inl, inr, ◌↔◌, true, false, arith, ◌∙◌}
use lemo.Client.Lifecycle.{
  Main, waiting, received, cancels_heartbeat, cancels_pong, closing, over, Heartbeat, beating, Pong,
  fired, Reading, reads, failed, Life, opened, Step, ticks, beats, fires, pong_stops, pong_goes_on,
  fails, reader_stops, reader_ends, takes_pong, takes_reader, stops, cancels_heartbeat_step,
  cancels_pong_step, closes, Reach, here, later,
}

-- Which goroutines have returned, and what `OnClose` may rely on, at each place of the caller.
abbrev pub Holds : Life → Main → Type 0
Holds s waiting =
    (s.is_stop ≡ false)
    × (s.on_closes ≡ 0)
    × (s.heartbeat ≢ Heartbeat.ended)
    × (s.pong ≢ Pong.ended)
    × (s.reader ≢ Reading.ended)
Holds s received =
    (s.is_stop ≡ false)
    × (s.on_closes ≡ 0)
    × (s.heartbeat ≢ Heartbeat.ended)
    × (s.pong ≢ Pong.ended)
Holds s cancels_heartbeat =
    (s.is_stop ≡ true) × (s.on_closes ≡ 0) × (s.heartbeat ≢ Heartbeat.ended) × (s.pong ≢ Pong.ended)
Holds s cancels_pong =
    (s.is_stop ≡ true) × (s.on_closes ≡ 0) × (s.heartbeat ≡ Heartbeat.ended) × (s.pong ≢ Pong.ended)
Holds s closing =
    (s.is_stop ≡ true) × (s.on_closes ≡ 0) × (s.heartbeat ≡ Heartbeat.ended) × (s.pong ≡ Pong.ended)
Holds s over =
    (s.is_stop ≡ true)
    × (s.on_closes ≡ 1)
    × (s.heartbeat ≡ Heartbeat.ended)
    × (s.pong ≡ Pong.ended)
    × (s.is_closed ≡ true)

abbrev pub IsSound : Life → Type 0
IsSound s = Holds s s.main

Step-IsSound : {s t : Life} → Step s t → IsSound s → IsSound t
Step-IsSound (ticks e) h = ground arith
Step-IsSound (beats e) h = ground arith
Step-IsSound (fires e) h = ground arith
Step-IsSound (pong_stops e f) h = ground arith
Step-IsSound (pong_goes_on e f) h = ground arith
Step-IsSound (fails e) h = ground arith
Step-IsSound (reader_stops e f) h = ground arith
Step-IsSound (reader_ends e f) h = ground arith
Step-IsSound (takes_pong e f) h = ground arith
Step-IsSound (takes_reader e f) h = ground arith
Step-IsSound (stops e) h = ground arith
Step-IsSound (cancels_heartbeat_step e f) h = ground arith
Step-IsSound (cancels_pong_step e f) h = ground arith
Step-IsSound (closes e) h = ground arith

-- In every state that can be reached, the goroutines of the heartbeat and of the timer return only
-- when the caller cancels them; `OnClose` is called at most once, after the connection is closed,
-- `isStop` is set and both have returned.
pub Reach-IsSound : {s : Life} → Reach opened s → IsSound s
Reach-IsSound here = ground arith
Reach-IsSound (later r st) = Step-IsSound st (Reach-IsSound r)

-- The timer's goroutine is at its send, and the caller is past its receive and not past the send to
-- that goroutine.
abbrev pub IsBlocked : Life → Type 0
IsBlocked s =
    (s.pong ≡ Pong.sends)
    × ((s.main ≡ received) ⊎ (s.main ≡ cancels_heartbeat) ⊎ (s.main ≡ cancels_pong))

Step-IsBlocked : {s t : Life} → Step s t → IsBlocked s → IsBlocked t × (t.on_closes ≡ s.on_closes)
Step-IsBlocked (ticks e) h = ground arith
Step-IsBlocked (beats e) h = ground arith
Step-IsBlocked (fires e) h = ground arith
Step-IsBlocked (pong_stops e f) h = ground arith
Step-IsBlocked (pong_goes_on e f) h = ground arith
Step-IsBlocked (fails e) h = ground arith
Step-IsBlocked (reader_stops e f) h = ground arith
Step-IsBlocked (reader_ends e f) h = ground arith
Step-IsBlocked (takes_pong e f) h = ground arith
Step-IsBlocked (takes_reader e f) h = ground arith
Step-IsBlocked (stops e) h = ground arith
Step-IsBlocked (cancels_heartbeat_step e f) h = ground arith
Step-IsBlocked (cancels_pong_step e f) h = ground arith
Step-IsBlocked (closes e) h = ground arith

Reach-IsBlocked : {s t : Life} → IsBlocked s → Reach s t → IsBlocked t × (t.on_closes ≡ s.on_closes)
Reach-IsBlocked b here = (b, refl)
Reach-IsBlocked b (later r st) =
    let (b', e) = Reach-IsBlocked b r in let (b'', e') = Step-IsBlocked st b' in (b'', e' ∙ e)

-- `OnClose` can still be called.
abbrev pub Closes : Life → Type 0
Closes s = (t : Life) × Reach s t × (t.on_closes ≡ 1)

first : {s t u : Life} → Step s t → Reach t u → Reach s u
first st here = later here st
first st (later r last) = later (first st r) last

step-Closes : {s t : Life} → Step s t → Closes t → Closes s
step-Closes st (u, r, e) = (u, first st r, e)

closing-Closes : (s : Life) → s.main ≡ closing → s.on_closes ≡ 0 → Closes s
closing-Closes s e z = step-Closes (closes e) (_, here, ground arith)

cancels_pong-Closes :
    (s : Life) → s.main ≡ cancels_pong → IsSound s → s.pong ≢ Pong.sends → Closes s
cancels_pong-Closes s e h free = by s.pong refl
  where
    by : (p : Pong) → s.pong ≡ p → Closes s
    by Pong.selecting q = step-Closes (cancels_pong_step e q) (closing-Closes _ refl (ground arith))
    by fired q =
        step-Closes (pong_goes_on q (ground arith))
          (step-Closes (cancels_pong_step e refl) (closing-Closes _ refl (ground arith)))
    by Pong.sends q = absurd (free q)
    by Pong.ended q = absurd (ground arith)

selecting-Closes :
    (s : Life)
    → s.main ≡ cancels_heartbeat
    → IsSound s
    → s.pong ≢ Pong.sends
    → s.heartbeat ≡ Heartbeat.selecting
    → Closes s
selecting-Closes s e h free q =
    let st = cancels_heartbeat_step e q in
    step-Closes st (cancels_pong-Closes _ refl (Step-IsSound st h) free)

cancels_heartbeat-Closes :
    (s : Life) → s.main ≡ cancels_heartbeat → IsSound s → s.pong ≢ Pong.sends → Closes s
cancels_heartbeat-Closes s e h free = by s.heartbeat refl
  where
    by : (b : Heartbeat) → s.heartbeat ≡ b → Closes s
    by Heartbeat.selecting q = selecting-Closes s e h free q
    by beating q =
        let st = beats q in step-Closes st (selecting-Closes _ e (Step-IsSound st h) free refl)
    by Heartbeat.ended q = absurd (ground arith)

received-Closes : (s : Life) → s.main ≡ received → IsSound s → s.pong ≢ Pong.sends → Closes s
received-Closes s e h free =
    step-Closes (stops e) (cancels_heartbeat-Closes _ refl (Step-IsSound (stops e) h) free)

sending-Closes :
    (s : Life)
    → s.main ≡ waiting
    → IsSound s
    → s.pong ≢ Pong.sends
    → s.reader ≡ Reading.sends
    → Closes s
sending-Closes s e h free q =
    let st = takes_reader e q in step-Closes st (received-Closes _ refl (Step-IsSound st h) free)

failed-Closes :
    (s : Life) → s.main ≡ waiting → IsSound s → s.pong ≢ Pong.sends → s.reader ≡ failed → Closes s
failed-Closes s e h free q =
    let st = reader_stops q (ground arith) in
    step-Closes st (sending-Closes _ e (Step-IsSound st h) free refl)

waiting-Closes : (s : Life) → s.main ≡ waiting → IsSound s → Closes s
waiting-Closes s e h = by s.pong refl
  where
    other : s.pong ≢ Pong.sends → (r : Reading) → s.reader ≡ r → Closes s
    other free reads q =
        let st = fails q in step-Closes st (failed-Closes _ e (Step-IsSound st h) free refl)
    other free failed q = failed-Closes s e h free q
    other free Reading.sends q = sending-Closes s e h free q
    other free Reading.ended q = absurd (ground arith)

    by : (p : Pong) → s.pong ≡ p → Closes s
    by Pong.selecting q = other (λ f. cc) s.reader refl
    by fired q = other (λ f. cc) s.reader refl
    by Pong.sends q =
        let st = takes_pong e q in
        step-Closes st (received-Closes _ refl (Step-IsSound st h) (λ f. cc))
    by Pong.ended q = absurd (ground arith)

-- A state that can be reached can still come to `OnClose` exactly when it is not blocked, that is,
-- when the timer's goroutine is not at its send on `stopCh` while the caller, which has taken one
-- value from `stopCh`, is on its way to cancel that goroutine.
pub Closes-IsBlocked : {s : Life} → Reach opened s → Closes s ↔ (¬ IsBlocked s)
Closes-IsBlocked {s} r = (never, by s.main refl)
  where
    never : Closes s → ¬ IsBlocked s
    never (t, r', e) b = ground (arith, Reach-IsBlocked b r', Reach-IsSound r)

    by : (m : Main) → s.main ≡ m → ¬ IsBlocked s → Closes s
    by waiting q free = waiting-Closes s q (Reach-IsSound r)
    by received q free = received-Closes s q (Reach-IsSound r) (λ f. free (f, inl q))
    by cancels_heartbeat q free =
        cancels_heartbeat-Closes s q (Reach-IsSound r) (λ f. free (f, inr (inl q)))
    by cancels_pong q free = cancels_pong-Closes s q (Reach-IsSound r) (λ f. free (f, inr (inr q)))
    by closing q free = closing-Closes s q (ground (arith, Reach-IsSound r))
    by over q free = (s, here, ground (arith, Reach-IsSound r))
