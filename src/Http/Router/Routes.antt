-- ===== src/Http/Router/Routes.antt =====
-- http/server/router.go: what builds groups and routes there,
-- the same code as in socket/tcp/server/router.go.
use lemo.Base.{Bytes, ℕ, List}
use lemo.Router
use lemo.Router.{Group, Route, Store}

unfoldable pub new_group : List Bytes → Group
unfolding lemo.Router.new_group
new_group = lemo.Router.new_group

unfoldable pub pass_before : Route → Route
unfolding lemo.Router.pass_before
pass_before = lemo.Router.pass_before

unfoldable pub force_before : Route → Route
unfolding lemo.Router.force_before
force_before = lemo.Router.force_before

unfoldable pub pass_after : Route → Route
unfolding lemo.Router.pass_after
pass_after = lemo.Router.pass_after

unfoldable pub force_after : Route → Route
unfolding lemo.Router.force_after
force_after = lemo.Router.force_after

module _ {H : Type 0} (grow : ℕ → ℕ → ℕ) where
  unfoldable pub group_before : Store H → Group → List H → Store H × Group
  unfolding lemo.Router.group_before
  group_before = lemo.Router.group_before grow

  unfoldable pub group_after : Store H → Group → List H → Store H × Group
  unfolding lemo.Router.group_after
  group_after = lemo.Router.group_after grow

  unfoldable pub route_before : Store H → Route → List H → Store H × Route
  unfolding lemo.Router.route_before
  route_before = lemo.Router.route_before grow

  unfoldable pub route_after : Store H → Route → List H → Store H × Route
  unfolding lemo.Router.route_after
  route_after = lemo.Router.route_after grow
