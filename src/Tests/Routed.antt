-- ===== src/Tests/Routed.antt =====
-- From a registration and the emits of a client to the handlers, at a concrete network and tree.
use lemo.Base.{
  ℕ, ◌+◌, ◌≡◌, refl, sym, ◌∙◌, inl, inr, true, false, List, [], ◌∷◌, ◌++◌, map, some, none, ok,
  concat, arith,
}
use lemo.Protocol.Tcp.{is_message_type, decode}
use lemo.Protocol.Words.{pos}
use lemo.Router.{Hit, Tire, Node, Route, Store, Router, register, format_path, get_route}
use lemo.Router.Lists.{IsSeparate}
use lemo.Router.Lookup.{IsLiteral}
use lemo.Server.{Server, process, serve}
use lemo.Server.Routed.{RouteHandler, answer_all, process-emit_each}
use lemo.Slices.{nil}
use lemo.Socket.{Pack}
use lemo.Socket.Dispatch.Routes.{routes}
use lemo.Tests.Codec.{hello, hi, bin_known}
use lemo.Tests.Serving.{Log, net, server, idle}
use lemo.Tests.Streams.{pieces, pieces-wire, two_greetings-IsSendable}
use lemo.Tests.Trees
use lemo.Tests.Trees.{laws, to_lower, grow}
use lemo.Transports.TcpClient.Sends.{message_of, emit_each, tcp_emit, emit_each-wire}

-- A handler writes its number to the log.
abbrev writes : ℕ → RouteHandler net server
writes n conn stream s = ok ((none, stream), record s { env = n ∷ s.env })

abbrev tire : Tire (Node (RouteHandler net server))
tire = Trees.tire

abbrev store : Store (RouteHandler net server)
store = record {
  befores = record { next = 4; cell = λ a i. writes (a + i) };
  afters = record { next = 4; cell = λ a i. writes (a + i) };
}

-- The path "/hello" in two parts, "/h" and "ello", with one Before handler of the route's own.
abbrev route : Route
route = record {
  path = 101 ∷ 108 ∷ 108 ∷ 111 ∷ [];
  before = record { array = 2; len = 1; capacity = 1 };
  after = nil;
  pass_before = false;
  force_before = false;
  pass_after = false;
  force_after = false;
  group = record { path = 47 ∷ 104 ∷ []; before = nil; after = nil };
}

abbrev router : Router tire to_lower grow
router = record { tree = none; ignore_case = true; global_before = nil; global_after = nil }

route-IsSeparate : IsSeparate tire to_lower grow store router route
route-IsSeparate = record {
  own_before = (omega arith, inl (omega arith));
  global_before = (omega arith, inr (omega arith));
  own_after = (omega arith, inr (omega arith));
  global_after = (omega arith, inr (omega arith));
}

abbrev routed :
    Store (RouteHandler net server) × Router tire to_lower grow × Node (RouteHandler net server)
routed = register tire to_lower grow store router route [] (writes 9)

abbrev routing : Server Log ℕ ℕ
routing = record server {
  site = record server.site { get_route = some (routes tire to_lower grow routed.0 routed.1) };
}

abbrev packs : List Pack
packs =
    record { event = hello; payload = hi; id = pos 7 }
    ∷ record { event = hello; payload = hi; id = pos 7 }
    ∷ []

path-IsLiteral : IsLiteral (format_path tire to_lower grow router (route.group.path ++ route.path))
unfolding format_path
path-IsLiteral = ground arith

hello_fits :
    format_path tire to_lower grow router hello
    ≡ format_path tire to_lower grow router (route.group.path ++ route.path)
unfolding format_path
hello_fits = refl

same_decode : routing.site.decode ≡ lemo.Protocol.decode is_message_type
unfolding decode
same_decode = refl

packs_sent : emit_each tcp_emit packs [] ≡ ok (tt, concat pieces)
packs_sent = emit_each-wire packs [] ∙ (λ i. ok (tt, sym pieces-wire i))

process-emit_each_example :
    (hit : Hit (Node (RouteHandler net routing))) × (hit.entry ≡ routed.2)
    × (get_route tire to_lower grow routed.1 (route.group.path ++ route.path)
        ≡ some (hit, format_path tire to_lower grow router (route.group.path ++ route.path)))
    × (process net routing is_message_type 5 pieces idle
        ≡ serve net routing 5
            (λ conn.
              answer_all net routing tire to_lower grow store router route []
                (writes 9)
                hit
                conn
                (map message_of packs))
            idle)
process-emit_each_example =
    process-emit_each net routing tire to_lower grow store router route [] (writes 9)
      (λ t. Unit {0}) laws is_message_type 5 packs pieces bin_known same_decode refl refl tt
      path-IsLiteral route-IsSeparate two_greetings-IsSendable (hello_fits, (hello_fits, tt))
      packs_sent idle
