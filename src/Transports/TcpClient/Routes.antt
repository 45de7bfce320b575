-- ===== src/Transports/TcpClient/Routes.antt =====
-- socket/tcp/client/router.go: what builds groups and routes there,
-- the same code as in socket/tcp/server/router.go.
use lemo.Base.{Bytes, ℕ, List, Outcome}
use lemo.Router
use lemo.Router.{Tire, Node, Group, Route, Store, Router}

unfoldable pub new_group : List Bytes → Group
unfolding lemo.Router.new_group
new_group = lemo.Router.new_group

unfoldable pub new_route : Group → Bytes → Route
unfolding lemo.Router.new_route
new_route = lemo.Router.new_route

unfoldable pub pass_before : Route → Route
unfolding lemo.Router.pass_before
pass_before = lemo.Router.pass_before

unfoldable pub force_before : Route → Route
unfolding lemo.Router.force_before
force_before = lemo.Router.force_before

unfoldable pub pass_after : Route → Route
unfolding lemo.Router.pass_after
pass_after = lemo.Router.pass_after

unfoldable pub force_after : Route → Route
unfolding lemo.Router.force_after
force_after = lemo.Router.force_after

module _ {H : Type 0} (grow : ℕ → ℕ → ℕ) where
  unfoldable pub group_before : Store H → Group → List H → Store H × Group
  unfolding lemo.Router.group_before
  group_before = lemo.Router.group_before grow

  unfoldable pub group_after : Store H → Group → List H → Store H × Group
  unfolding lemo.Router.group_after
  group_after = lemo.Router.group_after grow

  unfoldable pub route_before : Store H → Route → List H → Store H × Route
  unfolding lemo.Router.route_before
  route_before = lemo.Router.route_before grow

  unfoldable pub route_after : Store H → Route → List H → Store H × Route
  unfolding lemo.Router.route_after
  route_after = lemo.Router.route_after grow

module _ {H : Type 0} (tire : Tire (Node H)) (to_lower : Bytes → Bytes) (grow : ℕ → ℕ → ℕ) where
  unfoldable pub set_global_before :
      Store H → Router tire to_lower grow → List H → Store H × Router tire to_lower grow
  unfolding lemo.Router.set_global_before
  set_global_before = lemo.Router.set_global_before tire to_lower grow

  unfoldable pub set_global_after :
      Store H → Router tire to_lower grow → List H → Store H × Router tire to_lower grow
  unfolding lemo.Router.set_global_after
  set_global_after = lemo.Router.set_global_after tire to_lower grow

  unfoldable pub format_path : Router tire to_lower grow → Bytes → Bytes
  unfolding lemo.Router.format_path
  format_path = lemo.Router.format_path tire to_lower grow

unfoldable pub root_route : Bytes → Route
unfolding lemo.Router.root_route
root_route = lemo.Router.root_route

module _ {H : Type 0} (tire : Tire (Node H)) (to_lower : Bytes → Bytes) (grow : ℕ → ℕ → ℕ) where
  unfoldable pub handler_remove :
      Router tire to_lower grow → Group → Bytes → Outcome (Router tire to_lower grow)
  unfolding lemo.Router.client_handler_remove
  handler_remove = lemo.Router.client_handler_remove tire to_lower grow
