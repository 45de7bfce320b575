-- ===== src/Tests/Clients.antt =====
-- The clients at concrete states: the goroutines when the timer and the reader end a connection
-- together, a client without a heartbeat interval, and a call that takes the place of a handler.
use lemo.Base.{false, codes, ℕ, zero, suc, ◌≡◌, ◌↔◌, refl, inr, true, [], none, ok, panic}
use lemo.Client.Lifecycle.{
  Life, opened, Reach, here, later, fires, pong_stops, fails, reader_stops, takes_reader, Reading,
  Pong, received,
}
use lemo.Client.Lifecycle.Reachable.{Closes, IsBlocked, Closes-IsBlocked}
use lemo.Client.Async.Waits.{
  Wait, Waits, started, timed_out, returned, sends, IsStuck, ReadsAgain, ReadsAgain-IsStuck,
  returned_stuck,
}
use lemo.Client.Connect.{Settings, World, connect, websocket_connect, is_complete}
use lemo.Client.Connect.Attempts.{connect-panic}

abbrev stuck : Life
stuck = record opened { main = received; pong = Pong.sends; reader = Reading.ended }

reach-stuck : Reach opened stuck
reach-stuck =
    later
      (later (later (later (later here (fires refl)) (pong_stops refl refl)) (fails refl))
        (reader_stops refl refl))
      (takes_reader refl refl)

-- The timer fires and tests `isStop` before the caller has set it.
Closes-IsBlocked_example : Closes stuck ↔ (¬ IsBlocked stuck)
Closes-IsBlocked_example = Closes-IsBlocked reach-stuck

-- A network that always connects, over the number of dials.
abbrev world : World ℕ ℕ
world = record {
  dial = λ c n. (inr n, suc n);
  set_read_buffer = λ conn size n. (none, n);
  set_write_buffer = λ conn size n. (none, n);
  new_ticker = λ d. elim d [ zero ↦ panic | suc m ↦ ok tt ];
  sleep = λ d n. (tt, n);
  life = λ conn c n. ok (tt, n);
  on_error = λ e n. ok (tt, n);
  on_reconnecting = none;
}

abbrev settings : Settings
settings = record {
  addr = codes "127.0.0.1:8888";
  path = [];
  scheme = [];
  has_on_open = true;
  has_on_close = true;
  has_on_error = true;
  dail_timeout = 0;
  read_buffer_size = 0;
  write_buffer_size = 0;
  heart_beat_interval = 0;
  heart_beat_timeout = 0;
  reconnect_interval = 1;
}

complete : is_complete settings ≡ true
unfolding is_complete
complete = refl

connect-panic_example :
    (connect world 2 settings 0 ≡ panic) × (websocket_connect world 2 settings 0 ≡ panic)
connect-panic_example = connect-panic world settings 0 1 0 complete refl refl 1 refl refl

-- An answer that comes after the timeout.
abbrev late : Wait
late = record { caller = returned timed_out; reader = sends; registered = false }

ReadsAgain-IsStuck_example : ReadsAgain late ↔ (¬ IsStuck late)
ReadsAgain-IsStuck_example = ReadsAgain-IsStuck late

returned_stuck_example :
    (s : Wait) × Waits started s × (s.caller ≡ returned timed_out) × (¬ ReadsAgain s)
returned_stuck_example = returned_stuck timed_out
