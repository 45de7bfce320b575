-- ===== src/Client/Connect.antt =====
-- `Connect` and `reconnecting` of socket/tcp/client/client.go around the life of a connection, and
-- what the udp and websocket clients do otherwise before it. Durations and sizes are numbers, since
-- no negative one is meant. The network, the clock and the callbacks may change the environment
-- `U`. A client reconnects without end; the number of attempts is bounded here by the fuel, and the
-- result says whether `Connect` returned.
pub mod Attempts
use lemo.Base.{
  Bytes, codes, ℕ, zero, suc, ◌==◌, Bool, true, false, ◌&&◌, Option, none, some, ◌⊎◌, inl, inr, [],
  ◌∷◌, if◌then◌else◌, Outcome, ok, panic, ◌*◌, ◌+◌, get_or,
}
use lemo.Base.Io.{Io, pure, ◌>>=◌, ◌>>◌, call_if_set}
use lemo.Socket.MessageType

-- The fields of a client that `Connect` reads. A second is `second` units of time.
pub record Settings : Type 0 where
  pub addr : Bytes
  pub path : Bytes
  pub scheme : Bytes
  pub has_on_open : Bool
  pub has_on_close : Bool
  pub has_on_error : Bool
  pub dail_timeout : ℕ
  pub read_buffer_size : ℕ
  pub write_buffer_size : ℕ
  pub heart_beat_interval : ℕ
  pub heart_beat_timeout : ℕ
  pub reconnect_interval : ℕ

abbrev pub second : ℕ
second = 1000000000

abbrev pub or_default : ℕ → ℕ → ℕ
or_default n d = if n == 0 then d else n

abbrev pub or_text : Bytes → Bytes → Bytes
or_text [] d = d
or_text (c ∷ s) d = c ∷ s

-- What must be set, or `Connect` panics.
abbrev pub is_set : Bytes → Bool
is_set [] = false
is_set (c ∷ s) = true

unfoldable pub is_complete : Settings → Bool
is_complete c = is_set c.addr && c.has_on_open && c.has_on_close && c.has_on_error

-- The defaults of the tcp client (size 1024) and of the udp client (size 512).
unfoldable pub with_defaults : ℕ → Settings → Settings
with_defaults size c = record c {
  dail_timeout = or_default c.dail_timeout (2 * second);
  read_buffer_size = or_default c.read_buffer_size size;
  write_buffer_size = or_default c.write_buffer_size size;
}

unfoldable pub websocket_defaults : Settings → Settings
unfolding with_defaults
websocket_defaults c = record (with_defaults 1024 c) {
  path = or_text c.path (codes "/");
  scheme = or_text c.scheme (codes "ws");
}

pub record World (U N : Type 0) : Type 0 where
  pub dial : Settings → U → (Bytes ⊎ N) × U
  pub set_read_buffer : N → ℕ → U → Option Bytes × U
  pub set_write_buffer : N → ℕ → U → Option Bytes × U
  pub new_ticker : ℕ → Outcome (Unit {0})
  pub sleep : ℕ → U → Unit {0} × U
  -- From `OnSuccess` to `OnClose`: Client.Lifecycle. It need not return.
  pub life : N → Settings → Io U (Unit {0})
  pub on_error : Bytes → Io U (Unit {0})
  pub on_reconnecting : Option (Unit {0} → Io U (Unit {0}))

module _ {U N : Type 0} (world : World U N) where
  open world use {
    dial, set_read_buffer, set_write_buffer, new_ticker, sleep, life, on_error, on_reconnecting,
  }

  abbrev pub call : {A : Type 0} → (U → A × U) → Io U A
  call f u = ok (f u)

  abbrev pub must : Option Bytes → Io U (Unit {0})
  must none = pure tt
  must (some err) = λ u. panic

  abbrev pub ticker : ℕ → Io U (Unit {0})
  ticker interval u = elim (new_ticker interval) [ panic ↦ panic | ok t ↦ ok (t, u) ]

  -- `reconnecting`; `again` is `Connect`.
  unfoldable pub reconnecting : Settings → Io U Bool → Io U Bool
  reconnecting c again =
      if c.reconnect_interval == 0
      then pure true
      else call (sleep c.reconnect_interval) >> (call_if_set on_reconnecting tt >> again)

  -- An attempt of the tcp client once the settings are filled in.
  unfoldable pub attempt : Settings → Io U Bool → Io U Bool
  unfolding reconnecting
  attempt c again = call (dial c) >>= λ dialed. elim dialed [
    | inl err ↦ on_error err >> reconnecting c again
    | inr conn ↦
        (call (set_read_buffer conn c.read_buffer_size) >>= must)
        >> ((call (set_write_buffer conn c.write_buffer_size) >>= must)
            >> (ticker c.heart_beat_interval >> (life conn c >> reconnecting c again)))
  ]

  unfoldable pub connect : ℕ → Settings → Io U Bool
  unfolding attempt
  connect zero c = pure false
  connect (suc fuel) c =
      let c' = with_defaults 1024 c in
      let again = connect fuel c' in if is_complete c then attempt c' again else λ u. panic

  -- The websocket client sets no buffers after dialing.
  unfoldable pub websocket_attempt : Settings → Io U Bool → Io U Bool
  unfolding reconnecting
  websocket_attempt c again = call (dial c) >>= λ dialed. elim dialed [
    | inl err ↦ on_error err >> reconnecting c again
    | inr conn ↦ ticker c.heart_beat_interval >> (life conn c >> reconnecting c again)
  ]

  unfoldable pub websocket_connect : ℕ → Settings → Io U Bool
  unfolding websocket_attempt
  websocket_connect zero c = pure false
  websocket_connect (suc fuel) c =
      let c' = websocket_defaults c in
      let again = websocket_connect fuel c' in
      if is_complete c then websocket_attempt c' again else λ u. panic

  -- The handshake of the udp client: it sends `OpenMessage` and waits for one datagram, of which it
  -- reads the third byte. The error it reports for another answer is the nil of the call before.
  pub record Handshake : Type 0 where
    -- `net.ResolveUDPAddr`
    pub resolve : Settings → U → Option Bytes × U
    pub push_open : N → U → Option Bytes × U
    pub start_tick : N → U → Unit {0} × U
    pub stop_tick : U → Unit {0} × U
    pub read : N → ℕ → U → (Bytes ⊎ Bytes) × U
    pub on_nil_error : Io U (Unit {0})

  module _ (handshake : Handshake) where
    open handshake use {resolve, push_open, start_tick, stop_tick, read, on_nil_error}

    unfoldable pub udp_attempt : Settings → Io U Bool → Io U Bool
    unfolding reconnecting
    udp_attempt c again =
        (call (resolve c) >>= must)
        >> (call (dial c) >>= λ dialed. elim dialed [
          | inl err ↦ on_error err >> reconnecting c again
          | inr conn ↦ call (push_open conn) >>= λ sent. elim sent [
            | some err ↦ on_error err >> reconnecting c again
            | none ↦
                call (start_tick conn)
                >> (call (read conn (c.read_buffer_size + 16)) >>= λ got. elim got [
                  | inl err ↦ on_error err >> reconnecting c again
                  | inr msg ↦
                      if get_or msg 2 0 == MessageType.open_type
                      then (call stop_tick
                          >> (ticker c.heart_beat_interval
                              >> (life conn c >> reconnecting c again)))
                      else (on_nil_error >> reconnecting c again)
                ])
          ]
        ])

    unfoldable pub udp_connect : ℕ → Settings → Io U Bool
    unfolding udp_attempt
    udp_connect zero c = pure false
    udp_connect (suc fuel) c =
        let c' = with_defaults 512 c in
        let again = udp_connect fuel c' in
        if is_complete c then udp_attempt c' again else λ u. panic
