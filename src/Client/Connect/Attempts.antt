-- ===== src/Client/Connect/Attempts.antt =====
-- A client whose `HeartBeatInterval` is left at 0.
use lemo.Base.{Bytes, ℕ, suc, ◌≡◌, refl, Bool, true, Option, none, some, inr, Outcome, ok, panic}
use lemo.Base.{ap}
use lemo.Base.Io.{Io, then_with, ◌>>=◌, ◌>>◌}
use lemo.Client.Connect.{
  Settings, World, is_complete, with_defaults, websocket_defaults, connect, attempt,
  websocket_connect, websocket_attempt, must, ticker, call,
}

module _ {U N : Type 0} (world : World U N) (c : Settings) (u v : U) (conn : N)
    (complete : is_complete c ≡ true) (off : c.heart_beat_interval ≡ 0)
    (refuses : world.new_ticker 0 ≡ panic) where
  after_buffer :
      (f : U → Option Bytes × U) (k : Io U Bool) (v : U)
      → ((w : U) → k w ≡ panic)
      → ((call world f >>= must world) >> k) v ≡ panic
  after_buffer f k v h = by (f v).0 (f v).1
    where
      by : (o : Option Bytes) (w : U) → then_with (must world o w) (λ _. k) ≡ panic
      by none w = h w
      by (some err) w = refl

  no_ticker :
      (k : Unit {0} → U → Outcome (Bool × U)) (w : U)
      → then_with (ticker world c.heart_beat_interval w) k ≡ panic
  no_ticker k w =
      rw off (ap (λ r. then_with (elim r [ panic ↦ panic | ok t ↦ ok (t, w) ]) k) refuses)

  -- When `time.NewTicker` panics on a duration of 0, as it is documented to, a tcp client and a
  -- websocket client whose settings are complete and whose `HeartBeatInterval` is 0 panic as soon as
  -- they are connected.
  pub connect-panic :
      (fuel : ℕ)
      → world.dial (with_defaults 1024 c) u ≡ (inr conn, v)
      → world.dial (websocket_defaults c) u ≡ (inr conn, v)
      → (connect world (suc fuel) c u ≡ panic) × (websocket_connect world (suc fuel) c u ≡ panic)
  unfolding connect attempt websocket_connect websocket_attempt with_defaults websocket_defaults
  connect-panic fuel d e = (
    rw complete (
        rw d (
          after_buffer (world.set_read_buffer conn (with_defaults 1024 c).read_buffer_size) _ v
            (λ w.
              after_buffer (world.set_write_buffer conn (with_defaults 1024 c).write_buffer_size) _
                w (no_ticker _)))),
    rw complete (rw e (no_ticker _ v)),
  )
