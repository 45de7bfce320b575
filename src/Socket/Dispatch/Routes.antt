-- ===== src/Socket/Dispatch/Routes.antt =====
-- What `handler` reads of the router: `s.router.getRoute(stream.Event)`, the node that it finds and
-- `n.ParseParams(formatPath)`, from socket/tcp/server/server.go over socket/tcp/server/router.go.
-- The other servers and the clients have the same lines.
use lemo.Base.{Bytes, ℕ, ◌≡◌, ap, ◌∙◌, List, ◌∷◌, ◌++◌, Option, none, some}
use lemo.Base.Io.{Io, pure, then_with}
use lemo.Slices.{contents}
use lemo.Router.{Hit, Tire, Route, Store, Router, register, get_route, format_path}
use lemo.Router.{Node as RouteNode}
use lemo.Router.Lists.{IsSeparate, chosen_list, register-lists}
use lemo.Socket.{Stream}
use lemo.Socket.Dispatch.{Handler, Found, Site, handler, run_until_error, unless_failed}
use lemo.Socket.Dispatch.Pipeline.{whole_list, handler-run_until_error}

module _ {S C X : Type 0} (tire : Tire (RouteNode (Handler S C X))) (to_lower : Bytes → Bytes)
    (grow : ℕ → ℕ → ℕ) where
  -- The node with the handlers that its slices hold now, and the parameters of the path.
  unfoldable pub found_of :
      Store (Handler S C X) → Hit (RouteNode (Handler S C X)) × Bytes → Found S C X
  found_of st (hit, path) = record {
    node = record {
      function = hit.entry.function;
      before = contents st.befores hit.entry.before;
      after = contents st.afters hit.entry.after;
    };
    keys = hit.keys;
    values = hit.parse_params path;
  }

  abbrev found_in :
      Store (Handler S C X)
      → Option (Hit (RouteNode (Handler S C X)) × Bytes)
      → Option (Found S C X)
  found_in st none = none
  found_in st (some found) = some (found_of st found)

  -- The lookup of `handler`, in a router that no other goroutine changes.
  unfoldable pub routes :
      Store (Handler S C X) → Router tire to_lower grow → Bytes → Io S (Option (Found S C X))
  unfolding found_of
  routes st router event = pure (found_in st (get_route tire to_lower grow router event))

  -- The handlers that a registration gives a route: those chosen before, `fn`, those chosen after.
  unfoldable pub registered_list :
      Store (Handler S C X)
      → Router tire to_lower grow
      → Route
      → Handler S C X
      → List (Handler S C X)
  registered_list st router r fn =
      chosen_list (contents st.befores r.group.before) (contents st.befores r.before)
        (contents st.befores router.global_before) r.pass_before r.force_before
      ++ (fn
          ∷ chosen_list (contents st.afters r.group.after) (contents st.afters r.after)
              (contents st.afters router.global_after) r.pass_after r.force_after)

  module _ (st : Store (Handler S C X)) (router : Router tire to_lower grow) (r : Route)
      (info : Bytes) (fn : Handler S C X) where
    abbrev pub full_path : Bytes
    full_path = format_path tire to_lower grow router (r.group.path ++ r.path)

    -- The store, the router and the node that `Handler` leaves.
    abbrev pub registered :
        Store (Handler S C X) × Router tire to_lower grow × RouteNode (Handler S C X)
    registered = register tire to_lower grow st router r info fn

    whole_list-register :
        (site : Site S C X) (hit : Hit (RouteNode (Handler S C X))) (path : Bytes)
        → hit.entry ≡ registered.2
        → IsSeparate tire to_lower grow st router r
        → whole_list site (found_of registered.0 (hit, path)).node ≡ registered_list st router r fn
    unfolding found_of registered_list register
    whole_list-register site hit path entry apart =
        let (before, after) = register-lists tire to_lower grow st router r info fn apart in
        ap
          (λ (n : RouteNode (Handler S C X)).
            contents registered.0.befores n.before
            ++ (n.function ∷ contents registered.0.afters n.after))
          entry
        ∙ (λ i. before i ++ (fn ∷ after i))

    -- The stream that the handlers of the route get.
    abbrev pub routed_stream : Hit (RouteNode (Handler S C X)) → Stream X → Stream X
    routed_stream hit stream = record stream {
      params = record { keys = hit.keys; values = hit.parse_params full_path };
    }

    pub handler-register :
        (site : Site S C X) (hit : Hit (RouteNode (Handler S C X)))
        → site.get_route ≡ some (routes registered.0 registered.1)
        → hit.entry ≡ registered.2
        → IsSeparate tire to_lower grow st router r
        → (conn : C) (stream : Stream X)
        → get_route tire to_lower grow registered.1 stream.event ≡ some (hit, full_path)
        → (s : S)
        → handler site conn stream s
          ≡ then_with
              (run_until_error (registered_list st router r fn) conn (routed_stream hit stream) s)
              (unless_failed site pure)
    unfolding routes found_of
    handler-register site hit set entry apart conn stream found s =
        handler-run_until_error site conn stream s s (found_of registered.0 (hit, full_path)) _ set
          (rw found)
        ∙ ap
            (λ hs.
              then_with (run_until_error hs conn (routed_stream hit stream) s)
                (unless_failed site pure))
            (whole_list-register site hit full_path entry apart)
