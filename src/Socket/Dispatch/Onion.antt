-- ===== src/Socket/Dispatch/Onion.antt =====
-- The order of the middleware in `middleware` of socket/tcp/server/server.go.
use lemo.Base.{◌≡◌, refl, ap, ◌∙◌, List, [], ◌∷◌, ◌++◌}
use mathlib.Core.List.{reverse, reverse-cons}
use lemo.Socket.Dispatch.{Middle, Site, wrap, middleware, handler, use_middle, run_node}

module _ {S C X : Type 0} where
  wrap-append :
      (ms ns : List (Middle S C X → Middle S C X)) (next : Middle S C X)
      → wrap (ms ++ ns) next ≡ wrap ns (wrap ms next)
  unfolding wrap
  wrap-append [] ns next = refl
  wrap-append (m ∷ ms) ns next = wrap-append ms ns (m next)

  -- The onion, from the outside in.
  abbrev pub onion : List (Middle S C X → Middle S C X) → Middle S C X → Middle S C X
  onion [] next = next
  onion (m ∷ ms) next = m (onion ms next)

  wrap-reverse :
      (ms : List (Middle S C X → Middle S C X)) (next : Middle S C X)
      → wrap (reverse ms) next ≡ onion ms next
  unfolding wrap
  wrap-reverse [] next = refl
  wrap-reverse (m ∷ ms) next =
      ap (λ l. wrap l next) (reverse-cons m ms)
      ∙ wrap-append (reverse ms) (m ∷ []) next
      ∙ ap m (wrap-reverse ms next)

  onion-append :
      (ms ns : List (Middle S C X → Middle S C X)) (next : Middle S C X)
      → onion (ms ++ ns) next ≡ onion ms (onion ns next)
  onion-append [] ns next = refl
  onion-append (m ∷ ms) ns next = ap m (onion-append ms ns next)

  -- The middleware given to `Use` first is the outermost; what a later `Use` adds comes between
  -- the older ones and `handler`.
  pub middleware-use_middle :
      (site : Site S C X) (ns : List (Middle S C X → Middle S C X))
      → middleware (use_middle ns site) ≡ onion site.middle (onion ns (handler site))
  unfolding middleware use_middle handler run_node
  middleware-use_middle site ns =
      wrap-reverse (site.middle ++ ns) (handler site) ∙ onion-append site.middle ns (handler site)
