-- ===== src/Http/Server/Routes.antt =====
-- What `handler` of http/server/server.go reads of http/server/router.go: `s.router.getRoute` at the
-- method and the path of the request, the node that it finds and `ParseParams`; and the way from a
-- registration to a request. The functions that are registered are not nil.
use lemo.Base.{
  Bytes, codes, ℕ, ◌≡◌, refl, ap, ◌∙◌, List, [], ◌∷◌, ◌++◌, Option, none, some, ok, str_eq,
  if◌then◌else◌, Bool-cases, inl, inr,
}
use lemo.Base.Io.{Io, pure, ◌>>=◌, ◌>>◌, call_if_set, then_with-cong}
use lemo.Slices.{contents}
use lemo.Router.{Hit, Store}
use lemo.Router.Lists.{IsApart, chosen_list, contents-node_list}
use lemo.Router.Lookup.{IsLiteral}
use lemo.Http.Router.{
  MethodRoute, MethodNode, MethodTire, MethodRouter, format_path, register, get_route, tree_or_new,
}
use lemo.Http.Router.Methods.{IsLastWins, get_route-register_method}
use lemo.Http.Server.{Handler, Found, Site, run_until_error, unless_failed, give_up, handler}
use lemo.Http.Server.Handled.{run_node_one_list}

module _ {S : Type 0} (tire : MethodTire (Handler S)) (to_lower to_upper : Bytes → Bytes)
    (grow : ℕ → ℕ → ℕ) where
  unfoldable pub found_of : Store (Handler S) → Hit (MethodNode (Handler S)) × Bytes → Found S
  found_of st (hit, path) = record {
    function = some hit.entry.node.function;
    before = contents st.befores hit.entry.node.before;
    after = contents st.afters hit.entry.node.after;
    params = record { keys = hit.keys; values = hit.parse_params path };
  }

  abbrev found_in :
      Store (Handler S) → Option (Hit (MethodNode (Handler S)) × Bytes) → Option (Found S)
  found_in st none = none
  found_in st (some found) = some (found_of st found)

  -- The lookup of `handler`, in a router that no other goroutine changes; `method` and `path` are
  -- those of the request.
  unfoldable pub routes :
      (method path : S → Bytes)
      → Store (Handler S)
      → MethodRouter tire to_lower to_upper grow
      → Io S (Option (Found S))
  unfolding found_of
  routes method path st router s =
      ok (found_in st (get_route tire to_lower to_upper grow router (method s) (path s)), s)

  -- The handlers that a registration gives a route: those chosen before, `fn`, those chosen after.
  unfoldable pub registered_list :
      Store (Handler S)
      → MethodRouter tire to_lower to_upper grow
      → MethodRoute
      → Handler S
      → List (Handler S)
  registered_list st router m fn =
      let r = m.route in
      chosen_list (contents st.befores r.group.before) (contents st.befores r.before)
        (contents st.befores router.global_before) r.pass_before r.force_before
      ++ ((fn ∷ [])
          ++ chosen_list (contents st.afters r.group.after) (contents st.afters r.after)
              (contents st.afters router.global_after) r.pass_after r.force_after)

  module _ (st : Store (Handler S)) (router : MethodRouter tire to_lower to_upper grow)
      (m : MethodRoute) (info : Bytes) (fn : Handler S) where
    abbrev pub full_path : Bytes
    full_path = format_path tire to_lower to_upper grow router (m.route.group.path ++ m.route.path)

    abbrev pub registered :
        Store (Handler S) × MethodRouter tire to_lower to_upper grow × MethodNode (Handler S)
    registered = register tire to_lower to_upper grow st router m info fn

    -- An append to the slices of the group cannot write into the others of the registration.
    pub record IsSeparate : Type 0 where
      pub own_before : IsApart st.befores m.route.group.before m.route.before
      pub global_before : IsApart st.befores m.route.group.before router.global_before
      pub own_after : IsApart st.afters m.route.group.after m.route.after
      pub global_after : IsApart st.afters m.route.group.after router.global_after

    abbrev list_of : MethodNode (Handler S) → List (Handler S)
    list_of n =
        contents registered.0.befores n.node.before
        ++ ((n.node.function ∷ []) ++ contents registered.0.afters n.node.after)

    list_of-registered : IsSeparate → list_of registered.2 ≡ registered_list st router m fn
    unfolding register registered_list
    list_of-registered v =
        let r = m.route in
        let before =
          contents-node_list grow st.befores r.group.before r.before router.global_before
            r.pass_before r.force_before v.own_before v.global_before in
        let after =
          contents-node_list grow st.afters r.group.after r.after router.global_after r.pass_after
            r.force_after v.own_after v.global_after in
        λ i. before i ++ ((fn ∷ []) ++ after i)

    -- What `handler` does when the route is found, with the parameters that the prefix tree gives.
    abbrev pub answer : Site S → Hit (MethodNode (Handler S)) → Io S (Unit {0})
    answer site hit =
        site.set_params (record { keys = hit.keys; values = hit.parse_params full_path })
        >> (call_if_set site.on_message tt
            >> (run_until_error (registered_list st router m fn) >>= unless_failed site (pure tt)))

    abbrev pub answer_404 : Site S → Io S (Unit {0})
    answer_404 site =
        site.write_header 404 >> (λ s. give_up site (site.path s ++ codes " 404 not found") s)

    module _ (site : Site S) (method : S → Bytes) (s s1 : S)
        (set : site.get_route ≡ routes method site.path registered.0 registered.1)
        (opened : call_if_set site.on_open tt s ≡ ok (tt, s1)) where
      handler_missing :
          get_route tire to_lower to_upper grow registered.1 (method s1) (site.path s1) ≡ none
          → handler site s ≡ answer_404 site s1
      unfolding handler routes
      handler_missing e = rw opened (rw set (rw e refl))

      handler_found :
          (hit : Hit (MethodNode (Handler S)))
          → hit.entry ≡ registered.2
          → IsSeparate
          → get_route tire to_lower to_upper grow registered.1 (method s1) (site.path s1)
            ≡ some (hit, full_path)
          → handler site s ≡ answer site hit s1
      unfolding handler routes
      handler_found hit entry apart e =
          let found : Found S = found_of registered.0 (hit, full_path) in
          let same : list_of hit.entry ≡ registered_list st router m fn =
            ap list_of entry ∙ list_of-registered apart in
          rw opened (
            rw set (
              rw e (
                then_with-cong (site.set_params found.params s1) _ _ (λ _ s2.
                  then_with-cong (call_if_set site.on_message tt s2) _ _ (λ _ s3.
                    run_node_one_list site found s3
                    ∙ ap (λ hs. (run_until_error hs >>= unless_failed site (pure tt)) s3) same)))))

  module _ (IsPlain : tire.Tree → Type 0) (last_wins : IsLastWins tire IsPlain) where
    -- From the registration of a route to a request, in a prefix tree whose keys are literal, with a
    -- literal path and slices that are apart, when `OnOpen` returns and the request is for the path,
    -- in any case if the router ignores case. If the methods are the same in upper case, `handler`
    -- sets the parameters that the prefix tree gives, calls `OnMessage`, and runs the handlers that
    -- the flags of the route choose, with `fn` between them, up to the first error, for which
    -- `OnError` and `OnClose` are called; neither is called when there is none. For every other
    -- method it answers 404, and calls `OnError` and `OnClose`.
    pub handler-register_method :
        (st : Store (Handler S)) (router : MethodRouter tire to_lower to_upper grow)
        (m : MethodRoute) (info : Bytes) (fn : Handler S) (site : Site S) (method : S → Bytes)
        (s s1 : S)
        → site.get_route
          ≡ routes method site.path
              (registered st router m info fn).0
              (registered st router m info fn).1
        → call_if_set site.on_open tt s ≡ ok (tt, s1)
        → IsPlain (tree_or_new tire to_lower to_upper grow router.tree)
        → IsLiteral (full_path st router m info fn)
        → IsSeparate st router m info fn
        → format_path tire to_lower to_upper grow router (site.path s1)
          ≡ full_path st router m info fn
        → (hit : Hit (MethodNode (Handler S))) × (hit.entry ≡ (registered st router m info fn).2)
          × (handler site s
              ≡ (if str_eq (to_upper m.method) (to_upper (method s1))
                    then answer st router m info fn site hit
                    else answer_404 st router m info fn site)
                  s1)
    handler-register_method st router m info fn site method s s1 set opened plain lit apart same =
        let (hit, entry, got) =
          get_route-register_method tire to_lower to_upper grow IsPlain last_wins st router m info
            fn (method s1) (site.path s1) plain lit same in
        (
          hit,
          entry,
          elim (Bool-cases (str_eq (to_upper m.method) (to_upper (method s1)))) [
            | inl e ↦ rw e (
                handler_found st router m info fn site method s s1 set opened hit entry apart
                  (got ∙ ap (λ b. if b then some (hit, full_path st router m info fn) else none) e))
            | inr e ↦ rw e (
                handler_missing st router m info fn site method s s1 set opened
                  (got ∙ ap (λ b. if b then some (hit, full_path st router m info fn) else none) e))
          ],
        )
