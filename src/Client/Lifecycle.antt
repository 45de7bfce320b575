-- ===== src/Client/Lifecycle.antt =====
-- The goroutines of `Connect` in socket/tcp/client/client.go, from `OnOpen` to `OnClose`: the caller
-- of `Connect`, the heartbeat, the timer that waits for a pong, and the reader. A send on a channel
-- without buffer and the receive from it are one step of both. The tests of `c.isStop` and the sends
-- after them are two steps, since nothing locks that field. `reconnecting` starts another life.
pub mod Reachable
use lemo.Base.{ℕ, ◌+◌, ◌≡◌, Bool, true, false}

-- Where the caller stands: at `<-c.stopCh`, before `c.isStop = true`, at the two cancelling sends,
-- before the closing of the connection, and after `OnClose`.
pub data Main : Type 0 where
  waiting received cancels_heartbeat cancels_pong closing over : Main

-- At the `select`, in `c.HeartBeat(c)`, or returned.
pub data Heartbeat : Type 0 where
  selecting beating ended : Heartbeat

-- At the `select`, before the test of `c.isStop`, at the send on `c.stopCh`, or returned.
pub data Pong : Type 0 where
  selecting fired sends ended : Pong

-- In `c.Conn.Read` or the handling of what it gave, before the test of `c.isStop` after an error, at
-- the send on `c.stopCh`, or past the loop.
pub data Reading : Type 0 where
  reads failed sends ended : Reading

pub record Life : Type 0 where
  pub main : Main
  pub heartbeat : Heartbeat
  pub pong : Pong
  pub reader : Reading
  pub is_stop : Bool
  pub is_closed : Bool
  pub on_closes : ℕ

-- When `OnOpen` has returned and the goroutines have started.
abbrev pub opened : Life
opened = record {
  main = waiting;
  heartbeat = Heartbeat.selecting;
  pong = Pong.selecting;
  reader = reads;
  is_stop = false;
  is_closed = false;
  on_closes = 0;
}

pub data Step (s : Life) : Life → Type 0 where
  -- The heartbeat: its ticker ticks, and `HeartBeat` returns, with or without an error.
  ticks : s.heartbeat ≡ Heartbeat.selecting → Step s (record s { heartbeat = beating })
  beats : s.heartbeat ≡ beating → Step s (record s { heartbeat = Heartbeat.selecting })
  -- The timer fires; then the goroutine tests `c.isStop`.
  fires : s.pong ≡ Pong.selecting → Step s (record s { pong = fired })
  pong_stops : s.pong ≡ fired → s.is_stop ≡ false → Step s (record s { pong = Pong.sends })
  pong_goes_on : s.pong ≡ fired → s.is_stop ≡ true → Step s (record s { pong = Pong.selecting })
  -- The reader: an error of `Read`, of the reader of the protocol or of a handler; then the test.
  fails : s.reader ≡ reads → Step s (record s { reader = failed })
  reader_stops :
      s.reader ≡ failed → s.is_stop ≡ false → Step s (record s { reader = Reading.sends })
  reader_ends : s.reader ≡ failed → s.is_stop ≡ true → Step s (record s { reader = Reading.ended })
  -- `<-c.stopCh` takes what one of the two sends; the reader then leaves its loop.
  takes_pong :
      s.main ≡ waiting
      → s.pong ≡ Pong.sends
      → Step s (record s { main = received; pong = Pong.selecting })
  takes_reader :
      s.main ≡ waiting
      → s.reader ≡ Reading.sends
      → Step s (record s { main = received; reader = Reading.ended })
  -- The rest of `Connect`.
  stops : s.main ≡ received → Step s (record s { main = cancels_heartbeat; is_stop = true })
  cancels_heartbeat_step :
      s.main ≡ cancels_heartbeat
      → s.heartbeat ≡ Heartbeat.selecting
      → Step s (record s { main = cancels_pong; heartbeat = Heartbeat.ended })
  cancels_pong_step :
      s.main ≡ cancels_pong
      → s.pong ≡ Pong.selecting
      → Step s (record s { main = closing; pong = Pong.ended })
  closes :
      s.main ≡ closing
      → Step s (record s { main = over; is_closed = true; on_closes = s.on_closes + 1 })

pub data Reach (s : Life) : Life → Type 0 where
  here : Reach s s
  later : {t u : Life} → Reach s t → Step t u → Reach s u

-- `Connect` of the udp and the websocket client: the same goroutines, with the same channels.
abbrev pub UdpStep : Life → Life → Type 0
UdpStep = Step

abbrev pub WebsocketStep : Life → Life → Type 0
WebsocketStep = Step
