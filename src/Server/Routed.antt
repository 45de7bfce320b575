-- ===== src/Server/Routed.antt =====
-- From the registration of a route to the bytes of requests for it: socket/tcp/server/server.go over
-- router.go and protocol.go, with the packs that socket/tcp/client/client.go emits.
use lemo.Base.{
  Bytes, ℕ, ◌≡◌, refl, ap, ◌∙◌, Bool, true, List, [], ◌∷◌, ◌++◌, map, some, All, concat, ok,
}
use lemo.Base.Io.{Io, pure, then_with, then_with-cong, ◌>>=◌, ◌>>◌}
use lemo.Connections.{Conn}
use lemo.Protocol.{decode}
use lemo.Protocol.Delivery.{Message, wire, received, IsSendable}
use lemo.Router.{
  Hit, Tire, Route, Store, Router, get_route, get_in, format_path, tree_or_new, register,
}
use lemo.Router.{Node as RouteNode}
use lemo.Router.Lists.{IsSeparate}
use lemo.Router.Lookup.{IsTire, IsLiteral, get_route-register}
use lemo.Server.{serve, Net, State, Server, process}
use lemo.Server.Process.{process_delivers}
use lemo.Socket.Dispatch.Delivered.{handle_all, before, inner}
use lemo.Socket.Dispatch.{
  Handler, middleware, handler, wrap, fresh_stream, run_until_error, unless_failed,
}
use lemo.Socket.Dispatch.Routes.{
  routes, registered, registered_list, full_path, routed_stream, handler-register,
}
use lemo.Socket.{Pack}
use lemo.Transports.TcpClient.Sends.{message_of, emit_each, tcp_emit, emit_each-wire}
use lemo.Socket.MessageType
use mathlib.Core.List.{reverse}

module _ {U N X : Type 0} (net : Net U N) (server : Server U N X) where
  abbrev pub RouteHandler : Type 0
  RouteHandler = Handler (State U N) (Conn N) X

  module _ (tire : Tire (RouteNode RouteHandler)) (to_lower : Bytes → Bytes) (grow : ℕ → ℕ → ℕ)
      (st : Store RouteHandler) (router : Router tire to_lower grow) (r : Route) (info : Bytes)
      (fn : RouteHandler) where
    -- What a server does for messages that all come to the route: for each, `OnMessage`, and the
    -- handlers of the route on a fresh stream with its parameters, up to their first error.
    unfoldable pub answer_all :
        Hit (RouteNode RouteHandler) → Conn N → List Message → Io (State U N) (Unit {0})
    answer_all hit conn [] = pure tt
    answer_all hit conn (p ∷ ps) =
        before server.site conn p
        >> ((run_until_error (registered_list tire to_lower grow st router r fn) conn (
                routed_stream tire to_lower grow st router r info fn hit
                  (fresh_stream (received p)))
              >>= unless_failed server.site pure)
            >>= λ _. answer_all hit conn ps)

    -- A message for the route.
    abbrev pub ForRoute : Message → Type 0
    ForRoute p =
        format_path tire to_lower grow router p.route
        ≡ full_path tire to_lower grow st router r info fn

    module _ (IsPlain : tire.Tree → Type 0) (laws : IsTire tire IsPlain) where
      abbrev after : Store RouteHandler × Router tire to_lower grow × RouteNode RouteHandler
      after = registered tire to_lower grow st router r info fn

      lookup-same_path :
          (p q : Bytes)
          → format_path tire to_lower grow router p ≡ format_path tire to_lower grow router q
          → get_route tire to_lower grow after.1 p ≡ get_route tire to_lower grow after.1 q
      unfolding get_route format_path register
      lookup-same_path p q same = ap (get_in tire to_lower grow after.1.tree) same

      inner-answer :
          (hit : Hit (RouteNode RouteHandler))
          → server.site.get_route ≡ some (routes tire to_lower grow after.0 after.1)
          → server.site.middle ≡ []
          → hit.entry ≡ after.2
          → IsSeparate tire to_lower grow st router r
          → (conn : Conn N) (p : Message)
          → get_route tire to_lower grow after.1 p.route
            ≡ some (hit, full_path tire to_lower grow st router r info fn)
          → (s : State U N)
          → inner server.site conn p s
            ≡ (run_until_error (registered_list tire to_lower grow st router r fn) conn (
                    routed_stream tire to_lower grow st router r info fn hit
                      (fresh_stream (received p)))
                  >>= unless_failed server.site pure)
                s
      unfolding middleware wrap
      inner-answer hit set bare entry apart conn p found s =
          ap (λ ms. wrap (reverse ms) (handler server.site) conn (fresh_stream (received p)) s) bare
          ∙ handler-register tire to_lower grow st router r info fn server.site hit set entry apart
              conn (fresh_stream (received p)) found s

      handle_all-answer_all :
          (hit : Hit (RouteNode RouteHandler))
          → server.site.get_route ≡ some (routes tire to_lower grow after.0 after.1)
          → server.site.middle ≡ []
          → hit.entry ≡ after.2
          → IsSeparate tire to_lower grow st router r
          → get_route tire to_lower grow after.1 (r.group.path ++ r.path)
            ≡ some (hit, full_path tire to_lower grow st router r info fn)
          → (conn : Conn N) (ps : List Message) → All ForRoute ps
          → (s : State U N) → handle_all server.site conn ps s ≡ answer_all hit conn ps s
      unfolding handle_all answer_all
      handle_all-answer_all hit set bare entry apart found conn [] same s = refl
      handle_all-answer_all hit set bare entry apart found conn (p ∷ ps) (same, sames) s =
          then_with-cong (before server.site conn p s) _ _ (λ _ s1.
            ap (λ ran. then_with ran (λ _. handle_all server.site conn ps))
              (inner-answer hit set bare entry apart conn p
                (lookup-same_path p.route (r.group.path ++ r.path) same ∙ found) s1)
            ∙ then_with-cong _ _ _
                (λ _. handle_all-answer_all hit set bare entry apart found conn ps sames))

      -- From `Emit` to the handlers. A route with a literal path is registered in a prefix tree
      -- whose keys are literal, with slices that are apart, and the router is given to a server
      -- without middleware and with the default protocol. A client emits packs that the format can
      -- carry, all for that path, in any case if the router ignores case, and the network delivers
      -- the bytes it wrote, cut anywhere. Then `process` opens the connection, runs for each pack,
      -- in order, `OnMessage` and the handlers that the flags of the route choose, with `fn` between
      -- them, up to their first error, which it reports, and closes the connection. The handlers get
      -- the pack's id, event and payload, with the parameters that the prefix tree gives
      -- for the path.
      pub process-emit_each :
          (known : ℕ → Bool) (net_conn : N) (packs : List Pack) (chunks : List Bytes)
          → known MessageType.bin ≡ true
          → server.site.decode ≡ decode known
          → server.site.middle ≡ []
          → server.site.get_route ≡ some (routes tire to_lower grow after.0 after.1)
          → IsPlain (tree_or_new tire to_lower grow router.tree)
          → IsLiteral (full_path tire to_lower grow st router r info fn)
          → IsSeparate tire to_lower grow st router r
          → All IsSendable (map message_of packs)
          → All ForRoute (map message_of packs)
          → emit_each tcp_emit packs [] ≡ ok (tt, concat chunks)
          → (s : State U N)
          → (hit : Hit (RouteNode RouteHandler)) × (hit.entry ≡ after.2)
            × (get_route tire to_lower grow after.1 (r.group.path ++ r.path)
                ≡ some (hit, full_path tire to_lower grow st router r info fn))
            × (process net server known net_conn chunks s
                ≡ serve net server net_conn (λ conn. answer_all hit conn (map message_of packs)) s)
      process-emit_each known net_conn packs chunks b d bare set plain lit apart fits same sent s =
          let (hit, found, entry) =
            get_route-register tire to_lower grow IsPlain laws st router r info fn
              (r.group.path ++ r.path) plain lit refl in
          let written : concat chunks ≡ concat (map wire (map message_of packs)) =
            let whole = emit_each-wire packs [] in cc in
          (
            hit,
            entry,
            found,
            process_delivers net server known net_conn (map message_of packs) chunks b d fits
                  written s
                ∙ ap (λ loop. serve net server net_conn loop s)
                    (λ i conn s'.
                      handle_all-answer_all hit set bare entry apart found conn
                        (map message_of packs) same s' i),
          )
