-- ===== src/Tests/Dispatching.antt =====
-- The dispatch of socket/tcp/server/server.go at a concrete server.
use lemo.Base.{Bytes, ℕ, ◌≡◌, refl, List, [], ◌∷◌, Option, none, some, ok, str_eq, if◌then◌else◌}
use lemo.Base.Io.{Io, pure}
use lemo.Protocol.Words.{pos}
use lemo.Protocol.Tcp.{decode}
use lemo.Socket.{Stream}
use lemo.Socket.Dispatch.{Handler, Middle, Found, Site, run_until_error, report, handler}
use lemo.Socket.Dispatch.Pipeline.{with_params, handler_stops}
use lemo.Tests.Codec.{hello, hi}

-- The state is a log of numbers, and a context is a number.
abbrev pub Log : Type 0
Log = List ℕ

abbrev pub says : ℕ → Handler Log ℕ ℕ
says n conn stream log = ok ((none, stream), n ∷ log)

abbrev pub fails : Handler Log ℕ ℕ
fails conn stream log = ok ((some hi, stream), log)

abbrev pub loud : Middle Log ℕ ℕ → Middle Log ℕ ℕ
loud next conn stream log = next conn stream (99 ∷ log)

-- One route, "/hello", whose second `Before` handler fails.
abbrev pub found_hello : Found Log ℕ ℕ
found_hello = record {
  node = record { function = says 3; before = says 1 ∷ fails ∷ []; after = says 4 ∷ [] };
  keys = [];
  values = [];
}

abbrev pub routes : Bytes → Io Log (Option (Found Log ℕ ℕ))
routes event = pure (if str_eq event hello then some found_hello else none)

abbrev pub site : Site Log ℕ ℕ
site = record {
  on_error = some (λ e log. ok (tt, 500 ∷ log));
  on_message = none;
  on_unknown = none;
  ping_handler = λ conn. pure none;
  pong_handler = λ conn. pure none;
  decode = decode;
  get_route = some routes;
  middle = loud ∷ [];
}

abbrev pub stream_of : Bytes → Stream ℕ
stream_of event = record {
  pack = record { event = event; payload = hi; id = pos 7 };
  params = record { keys = []; values = [] };
  context = none;
  logger = none;
}

routes-hello : routes hello [] ≡ ok (some found_hello, [])
unfolding str_eq
routes-hello = refl

routes-hi : routes hi [] ≡ ok (none, [])
unfolding str_eq
routes-hi = refl

one_said :
    run_until_error (says 1 ∷ []) 0 (with_params site found_hello (stream_of hello)) []
    ≡ ok ((none, stream_of hello), 1 ∷ [])
unfolding run_until_error
one_said = refl

handler_stops_example :
    handler site 0 (stream_of hello) [] ≡ report site hi (stream_of hello) (1 ∷ [])
handler_stops_example =
    handler_stops site 0 (stream_of hello) [] [] found_hello routes refl routes-hello (says 1 ∷ [])
      (says 3 ∷ says 4 ∷ []) fails refl (stream_of hello) (stream_of hello) (1 ∷ []) (1 ∷ []) hi
      one_said refl
