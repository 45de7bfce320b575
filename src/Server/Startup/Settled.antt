-- ===== src/Server/Startup/Settled.antt =====
-- The settings after `Ready`.
use lemo.Base.{ℕ, ◌*◌, ◌<◌, ◌≡◌, refl, true, ok, arith}
use lemo.Client.Connect.{second, or_default, is_set}
use lemo.Server.Startup.{Settings, with_defaults, ready}

or_default_pos : (n d : ℕ) → 0 < d → 0 < or_default n d
or_default_pos n d h = ground arith

or_default_again : (n d e : ℕ) → 0 < d → or_default (or_default n d) e ≡ or_default n d
or_default_again n d e h = ground arith

-- With an address, `Ready` of the tcp server leaves no duration and no size at 0 that it sets, and a
-- second `Ready` changes nothing.
pub ready-ready :
    (c : Settings)
    → is_set c.addr ≡ true
    → let c' = with_defaults 1024 c in
      (ready c ≡ ok c')
      × (0 < c'.heart_beat_timeout)
      × (0 < c'.heart_beat_interval)
      × (0 < c'.read_buffer_size)
      × (0 < c'.write_buffer_size)
      × (ready c' ≡ ok c')
unfolding ready with_defaults
ready-ready c h = (
  rw h refl,
  or_default_pos c.heart_beat_timeout (30 * second) (omega arith),
  or_default_pos c.heart_beat_interval (15 * second) (omega arith),
  or_default_pos c.read_buffer_size 1024 (omega arith),
  or_default_pos c.write_buffer_size 1024 (omega arith),
  rw h (
      rw
        (
          or_default_again c.heart_beat_timeout (30 * second) (30 * second) (omega arith),
          or_default_again c.heart_beat_interval (15 * second) (15 * second) (omega arith),
          or_default_again c.read_buffer_size 1024 1024 (omega arith),
          or_default_again c.write_buffer_size 1024 1024 (omega arith),
        )
        refl),
)
