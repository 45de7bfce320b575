-- ===== src/Router.antt =====
-- The routers of the socket servers and clients: socket/tcp/server/router.go and its copies for
-- udp and websocket, and the three client routers, which differ in how they remove a route only.
-- The prefix tree (github.com/lemoyxk/structure/tire) and `strings.ToLower` are parameters. A
-- `Before` and an `After` list are slices in two stores, since their element types differ. A group
-- is never nil here: `Handler` reads `r.group.router` before it tests for that.
pub mod Lists
pub mod Sharing
pub mod Lookup
use lemo.Base.{
  Bytes, ◌+◌, ℕ, Bool, true, false, List, [], ◌∷◌, ◌++◌, map, concat, Option, none, some, Outcome,
  ok, panic, ◌>>=◌, if◌then◌else◌,
}
use lemo.Slices.{Slice, Memory, nil, contents, append}

-- What the node that `GetValue` returns is used for: `Data`, `Keys` and `ParseParams`.
pub record Hit (V : Type 0) : Type 0 where
  pub entry : V
  pub keys : List Bytes
  pub parse_params : Bytes → List Bytes

-- The prefix tree. `Delete` and `GetAllValue` may be called on a nil tree.
pub record Tire (V : Type 0) : Type 1 where
  pub Tree : Type 0
  pub new_tree : Tree
  pub insert : Tree → Bytes → V → Tree
  pub delete : Option Tree → Bytes → Outcome (Option Tree)
  pub get_value : Tree → Bytes → Option (Hit V)
  pub get_all_value : Option Tree → Outcome (List (Hit V))

pub record Node (H : Type 0) : Type 0 where
  pub info : Bytes
  pub route : Bytes
  pub function : H
  pub before : Slice
  pub after : Slice

pub record Group : Type 0 where
  pub path : Bytes
  pub before : Slice
  pub after : Slice

pub record Route : Type 0 where
  pub path : Bytes
  pub before : Slice
  pub after : Slice
  pub pass_before : Bool
  pub force_before : Bool
  pub pass_after : Bool
  pub force_after : Bool
  pub group : Group

-- The arrays behind the slices of handlers.
pub record Store (H : Type 0) : Type 0 where
  pub befores : Memory H
  pub afters : Memory H

-- `PassBefore`, `ForceBefore`, `PassAfter`, `ForceAfter`
unfoldable pub pass_before : Route → Route
pass_before r = record r { pass_before = true }

unfoldable pub force_before : Route → Route
force_before r = record r { force_before = true }

unfoldable pub pass_after : Route → Route
pass_after r = record r { pass_after = true }

unfoldable pub force_after : Route → Route
force_after r = record r { force_after = true }

-- `Router.Group`
unfoldable pub new_group : List Bytes → Group
new_group path = record { path = concat path; before = nil; after = nil }

-- `RouteHandler.Route`
unfoldable pub new_route : Group → Bytes → Route
new_route g path = record {
  path = path;
  before = nil;
  after = nil;
  pass_before = false;
  force_before = false;
  pass_after = false;
  force_after = false;
  group = g;
}

-- `Router.Route`, on a group without a path.
unfoldable pub root_route : Bytes → Route
unfolding new_group new_route
root_route path = new_route (new_group ([] ∷ [])) path

module _ (grow : ℕ → ℕ → ℕ) {H : Type 0} where
  -- `group.Before` and `group.After`
  unfoldable pub group_before : Store H → Group → List H → Store H × Group
  group_before st g hs =
      let (mem, s) = append grow st.befores g.before hs in
      (record st { befores = mem }, record g { before = s })

  unfoldable pub group_after : Store H → Group → List H → Store H × Group
  group_after st g hs =
      let (mem, s) = append grow st.afters g.after hs in
      (record st { afters = mem }, record g { after = s })

  -- `route.Before` and `route.After`
  unfoldable pub route_before : Store H → Route → List H → Store H × Route
  route_before st r hs =
      let (mem, s) = append grow st.befores r.before hs in
      (record st { befores = mem }, record r { before = s })

  unfoldable pub route_after : Store H → Route → List H → Store H × Route
  route_after st r hs =
      let (mem, s) = append grow st.afters r.after hs in
      (record st { afters = mem }, record r { after = s })

  -- One of the two lists of a node: `append(g, r...)`, unless the route passes it over or forces
  -- its own, then `append(list, global...)`.
  unfoldable pub node_list : Memory H → (g r global : Slice) (pass force : Bool) → Memory H × Slice
  node_list mem g r global pass force =
      let (mem1, joined) = append grow mem g (contents mem r) in
      let chosen = if force then r else if pass then nil else joined in
      append grow mem1 chosen (contents mem1 global)

module _ {H : Type 0} (tire : Tire (Node H)) (to_lower : Bytes → Bytes) (grow : ℕ → ℕ → ℕ) where
  open tire use {Tree, new_tree, insert, delete, get_value, get_all_value}

  pub record Router : Type 0 where
    pub tree : Option Tree
    pub ignore_case : Bool
    pub global_before : Slice
    pub global_after : Slice

  -- `SetGlobalBefore` and `SetGlobalAfter`
  unfoldable pub set_global_before : Store H → Router → List H → Store H × Router
  set_global_before st router hs =
      let (mem, s) = append grow st.befores router.global_before hs in
      (record st { befores = mem }, record router { global_before = s })

  unfoldable pub set_global_after : Store H → Router → List H → Store H × Router
  set_global_after st router hs =
      let (mem, s) = append grow st.afters router.global_after hs in
      (record st { afters = mem }, record router { global_after = s })

  unfoldable pub format_path : Router → Bytes → Bytes
  format_path router path = if router.ignore_case then to_lower path else path

  abbrev pub tree_or_new : Option Tree → Tree
  tree_or_new none = new_tree
  tree_or_new (some t) = t

  -- `route.Handler`, once the path is not empty; `info` is the place of the call. It returns the
  -- node beside the new store and router.
  unfoldable pub register : Store H → Router → Route → Bytes → H → Store H × Router × Node H
  register st router r info fn =
      let path = format_path router (r.group.path ++ r.path) in
      let (befores, before) =
        node_list grow st.befores r.group.before r.before router.global_before r.pass_before
          r.force_before in
      let (afters, after) =
        node_list grow st.afters r.group.after r.after router.global_after r.pass_after
          r.force_after in
      let node : Node H = record {
        info = info;
        route = path;
        function = fn;
        before = before;
        after = after;
      } in
      (
        record { befores = befores; afters = afters },
        record router { tree = some (insert (tree_or_new router.tree) path node) },
        node,
      )

  unfoldable pub route_handler :
      Store H → Router → Route → Bytes → H → Outcome (Store H × Router × Node H)
  route_handler st router r info fn = elim r.path [
    | [] ↦ panic
    | c ∷ path ↦ ok (register st router r info fn)
  ]

  abbrev pub hit_at : Bytes → Option (Hit (Node H)) → Option (Hit (Node H) × Bytes)
  hit_at path none = none
  hit_at path (some hit) = some (hit, path)

  -- `getRoute` at a formatted path.
  abbrev pub get_in : Option Tree → Bytes → Option (Hit (Node H) × Bytes)
  get_in none path = none
  get_in (some t) path = hit_at path (get_value t path)

  unfoldable pub get_route : Router → Bytes → Option (Hit (Node H) × Bytes)
  get_route router path = get_in router.tree (format_path router path)

  unfoldable pub get_all_routers : Router → Outcome (List (Node H))
  get_all_routers router = do hits ← get_all_value router.tree; ok (map (λ hit. hit.entry) hits)

  abbrev with_tree : Router → Option Tree → Router
  with_tree router t = record router { tree = t }

  -- `Router.Remove` of the servers: the path is not lowered, and the tree may be nil.
  unfoldable pub server_remove : Router → List Bytes → Outcome Router
  server_remove router path = do t ← delete router.tree (concat path); ok (with_tree router t)

  -- `Router.Remove` of the clients.
  unfoldable pub client_remove : Router → List Bytes → Outcome Router
  client_remove router path = elim router.tree [
    | none ↦ ok router
    | some t ↦ delete (some t) (format_path router (concat path)) >>= λ t'. ok (with_tree router t')
  ]

  -- `group.Remove`: the path of the group comes in front.
  unfoldable pub server_group_remove : Router → Group → Bytes → Outcome Router
  server_group_remove router g path = server_remove router (g.path ∷ path ∷ [])

  unfoldable pub client_group_remove : Router → Group → Bytes → Outcome Router
  client_group_remove router g path = client_remove router (g.path ∷ path ∷ [])

  -- `RouteHandler.Remove`
  unfoldable pub server_handler_remove : Router → Group → Bytes → Outcome Router
  server_handler_remove router g path = server_remove router (g.path ∷ path ∷ [])

  unfoldable pub client_handler_remove : Router → Group → Bytes → Outcome Router
  client_handler_remove router g path = client_remove router (g.path ∷ path ∷ [])
