-- ===== src/Tests/Serving.antt =====
-- The tcp server of socket/tcp/server/server.go at a concrete network.
use lemo.Base.{
  Bytes, ℕ, ◌≡◌, refl, List, [], ◌∷◌, none, some, ok, length, ◌==◌, if◌then◌else◌, arith,
}
use lemo.Base.Io.{pure}
use lemo.Base.Assoc.{lookup}
use lemo.Connections.{Conn, empty, get_connection}
use lemo.Connections.Valid.{IsValid}
use lemo.Protocol.Tcp.{is_message_type, decode}
use lemo.Server.{Net, State, Server, push, on_close, process, serve, client_is_close}
use lemo.Server.Emit.{on_close_lem}
use lemo.Server.Process.{process_cuts, process_delivers}
use lemo.Socket.Dispatch.Delivered.{handle_all}
use lemo.Tests.Codec.{wire_hello, bin_known}
use lemo.Tests.Streams.{two_greetings, two_greetings-IsSendable, pieces, pieces-wire}

-- The environment is a log of numbers; a network connection is a number.
abbrev pub Log : Type 0
Log = List ℕ

abbrev pub net : Net Log ℕ
net = record {
  write = λ conn msg log. (none, length msg ∷ log);
  close = λ conn log. (none, 404 ∷ log);
  set_read_deadline = λ conn log. (none, log);
  set_read_buffer = λ conn log. (none, log);
  set_write_buffer = λ conn log. (none, log);
}

abbrev pub server : Server Log ℕ ℕ
server = record {
  site = record {
    on_error = none;
    on_message = some (λ conn msg s. ok (tt, record s { env = length msg ∷ s.env }));
    on_unknown = none;
    ping_handler = λ conn. pure none;
    pong_handler = λ conn. pure none;
    decode = decode;
    get_route = none;
    middle = [];
  };
  on_open_callback = λ conn. pure tt;
  on_close_callback = λ conn. pure tt;
  on_error_callback = λ e. pure tt;
}

abbrev pub idle : State Log ℕ
idle = record { table = empty; env = [] }

process_cuts_example :
    process net server is_message_type 5 (wire_hello ∷ []) idle
    ≡ process net server is_message_type 5
        ((0 ∷ [])
          ∷ (0 ∷ 2 ∷ 6 ∷ 0 ∷ 0 ∷ 0 ∷ 2 ∷ 0 ∷ 0 ∷ 0 ∷ 0 ∷ 0 ∷ 0 ∷ 0 ∷ 7 ∷ 47 ∷ 104 ∷ 101 ∷ 108 ∷ 108
              ∷ 111 ∷ 104 ∷ 105 ∷ [])
          ∷ [])
        idle
process_cuts_example = process_cuts net server is_message_type 5 (wire_hello ∷ []) _ refl idle

same_decode : server.site.decode ≡ lemo.Protocol.decode is_message_type
unfolding decode
same_decode = refl

process_delivers_example :
    process net server is_message_type 5 pieces idle
    ≡ serve net server 5 (λ conn. handle_all server.site conn two_greetings) idle
process_delivers_example =
    process_delivers net server is_message_type 5 two_greetings pieces bin_known same_decode
      two_greetings-IsSendable pieces-wire idle

abbrev pub one_open : State Log ℕ
one_open = record {
  table = record { fd = 1; connections = (1, record { fd = 1; net_conn = 5 }) ∷ [] };
  env = [];
}

pub one_open-IsValid : IsValid one_open.table
unfolding lookup
one_open-IsValid = record { unique = (refl, tt); in_use = λ k c e. ground arith }

abbrev pub conn1 : Conn ℕ
conn1 = record { fd = 1; net_conn = 5 }

on_close_lem_example :
    (t : State Log ℕ) × (on_close net server conn1 one_open ≡ server.on_close_callback conn1 t)
    × IsValid t.table
    × ((k : ℕ)
        → get_connection t.table k ≡ (if 1 == k then none else get_connection one_open.table k))
    × (t.env ≡ 404 ∷ [])
    × ((msg : Bytes) → push net 1 msg t ≡ ok (some client_is_close, t))
on_close_lem_example = on_close_lem net server conn1 one_open one_open-IsValid
