-- ===== src/Server/Startup.antt =====
-- `Ready` and `Start` of the tcp server, with what its udp, websocket and http copies do otherwise,
-- and the handlers of heartbeats that `Ready` gives a server without any. Durations and sizes are
-- numbers, since no negative one is meant; a second is that of Client.Connect. `println` and the
-- network are parameters.
pub mod Settled
use lemo.Base.{
  Bytes, codes, ℕ, ◌*◌, Bool, ◌&&◌, List, [], ◌∷◌, Option, none, some, if◌then◌else◌, Outcome, ok,
  panic, str_eq,
}
use lemo.Base.Io.{Io, pure, call_if_set, ◌>>=◌, ◌>>◌}
use lemo.Client.Connect.{second, or_default, or_text, is_set}
use lemo.Connections
use lemo.Connections.{Conn}
use lemo.Protocol.Words.{ℤ, pos}
use lemo.Server.{Net, State, with_env, push}
use lemo.Socket.MessageType

pub record Settings : Type 0 where
  pub addr : Bytes
  pub path : Bytes
  pub heart_beat_timeout : ℕ
  pub heart_beat_interval : ℕ
  pub handshake_timeout : ℕ
  pub read_buffer_size : ℕ
  pub write_buffer_size : ℕ

-- The numbers that `Ready` of the tcp server sets, with the size of the buffers: 1024, and 512 for
-- udp.
unfoldable pub with_defaults : ℕ → Settings → Settings
with_defaults size c = record c {
  heart_beat_timeout = or_default c.heart_beat_timeout (30 * second);
  heart_beat_interval = or_default c.heart_beat_interval (15 * second);
  read_buffer_size = or_default c.read_buffer_size size;
  write_buffer_size = or_default c.write_buffer_size size;
}

unfoldable pub handshake_defaults : ℕ → Settings → Settings
unfolding with_defaults
handshake_defaults size c = record (with_defaults size c) {
  handshake_timeout = or_default c.handshake_timeout (2 * second);
}

-- The settings after `Ready`, which panics without an address: tcp, udp and websocket.
unfoldable pub ready : Settings → Outcome Settings
unfolding with_defaults
ready c = if is_set c.addr then ok (with_defaults 1024 c) else panic

unfoldable pub udp_ready : Settings → Outcome Settings
unfolding handshake_defaults
udp_ready c = if is_set c.addr then ok (handshake_defaults 512 c) else panic

unfoldable pub websocket_ready : Settings → Outcome Settings
unfolding handshake_defaults
websocket_ready c =
    if is_set c.addr
    then ok (record (handshake_defaults 1024 c) { path = or_text c.path (codes "/") })
    else panic

-- The callbacks that a server may have been given, over the connections `C`.
pub record Callbacks (S C : Type 0) : Type 0 where
  pub on_open : Option (C → Io S (Unit {0}))
  pub on_close : Option (C → Io S (Unit {0}))
  pub on_error : Option (Bytes → Io S (Unit {0}))
  pub ping_handler : Option (C → Io S (Option Bytes))
  pub pong_handler : Option (C → Io S (Option Bytes))

abbrev pub given : {A : Type 0} → Option A → A → Option A
given none d = some d
given (some f) d = some f

module _ {S C : Type 0} (println : List Bytes → Io S (Unit {0})) (fd_text : C → Bytes)
    (default_ping : C → Io S (Option Bytes)) where
  -- The callbacks after `Ready`: none is nil.
  unfoldable pub with_callbacks : Callbacks S C → Callbacks S C
  with_callbacks cs = record {
    on_open = given cs.on_open (λ conn. println (fd_text conn ∷ codes "is open" ∷ []));
    on_close = given cs.on_close (λ conn. println (fd_text conn ∷ codes "is close" ∷ []));
    on_error = given cs.on_error (λ err. println (err ∷ []));
    ping_handler = given cs.ping_handler default_ping;
    pong_handler = given cs.pong_handler (λ conn. pure none);
  }

module _ {U N : Type 0} (net : Net U N) (encode : ℕ → ℤ → Bytes → Bytes → Bytes) where
  -- The ping handler of the tcp and websocket servers: the error of the deadline takes the place of
  -- that of the push.
  unfoldable pub default_ping : Conn N → Io (State U N) (Option Bytes)
  default_ping conn = push net conn.fd (encode MessageType.pong (pos 0) [] []) >>= λ err.
      with_env (net.set_read_deadline conn.net_conn)

module _ {S C : Type 0} (encode : ℕ → ℤ → Bytes → Bytes → Bytes) (reset_tick : C → Io S (Unit {0}))
    (push_to : C → Bytes → Io S (Option Bytes)) where
  -- That of the udp server.
  unfoldable pub udp_default_ping : C → Io S (Option Bytes)
  udp_default_ping conn = reset_tick conn >> push_to conn (encode MessageType.pong (pos 0) [] [])

module _ {S N : Type 0} (listen : Bytes → Io S (Option Bytes))
    (on_success : Option (Unit {0} → Io S (Unit {0}))) where
  abbrev pub start_ready : Outcome Settings → List N → Io S (List N)
  start_ready panic accepted s = panic
  start_ready (ok c) accepted s =
      (listen c.addr >>= λ err. elim err [
        | some e ↦ λ s'. panic
        | none ↦ call_if_set on_success tt >> pure accepted
      ])
        s

  -- `Start` of the tcp server: the connections that `Accept` gives before its error, for each of which
  -- `process` is started in a goroutine.
  unfoldable pub start : Settings → List N → Io S (List N)
  unfolding ready
  start c accepted = start_ready (ready c) accepted

  -- Of the udp server, whose `listen` resolves the address too: the datagrams before the first error.
  unfoldable pub udp_start : Settings → List N → Io S (List N)
  unfolding udp_ready
  udp_start c received = start_ready (udp_ready c) received

  -- Of the websocket server: the requests that the HTTP library hands to `ServeHTTP`.
  unfoldable pub websocket_start : Settings → List N → Io S (List N)
  unfolding websocket_ready
  websocket_start c requests = start_ready (websocket_ready c) requests

  -- Of the http server, whose `Ready` only tests the address.
  unfoldable pub http_start : Settings → List N → Io S (List N)
  http_start c requests = start_ready (if is_set c.addr then ok c else panic) requests

-- `Shutdown`, the close of the listener or of the HTTP server.
unfoldable pub shutdown : {S : Type 0} → (S → Option Bytes × S) → Io S (Option Bytes)
shutdown close_listener s = ok (close_listener s)

module _ {S : Type 0} (write_header : ℕ → Io S (Unit {0})) where
  -- `ServeHTTP` of the websocket server, with its `CheckPath`.
  unfoldable pub serve_http :
      Settings → (is_get : Bool) → (url_path : Bytes) → Io S (Unit {0}) → Io S (Unit {0})
  serve_http c is_get url_path process =
      if is_get && str_eq url_path c.path then process else write_header 500
