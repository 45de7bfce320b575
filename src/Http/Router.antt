-- ===== src/Http/Router.antt =====
-- http/server/router.go. Groups, the flags of a route and its two lists of handlers are those of the
-- socket routers (Router); a route has a method besides, and the router a directory of static files.
-- The prefix tree, `strings.ToLower`, `strings.ToUpper` and the file system are parameters.
pub mod Methods
pub mod Routes
use lemo.Base.{
  Bytes, codes, ℕ, Bool, List, [], ◌∷◌, ◌++◌, map, concat, Option, none, some, Outcome, ok, panic,
  ◌>>=◌, if◌then◌else◌, str_eq, ◌⊎◌, inl, inr,
}
use lemo.Slices.{Slice, append}
use lemo.Router
use lemo.Router.{Hit, Group, Store, node_list, new_route, new_group}

pub record MethodRoute : Type 0 where
  pub method : Bytes
  pub route : Router.Route

-- `RouteHandler.Route`, and `Get`, `Post`, `Delete`, `Put`, `Patch` and `Option`.
unfoldable pub method_route : Group → Bytes → Bytes → MethodRoute
unfolding new_route
method_route g method path = record { method = method; route = new_route g path }

-- `Router.Route`, on a group without a path.
unfoldable pub root_route : Bytes → Bytes → MethodRoute
unfolding method_route new_group
root_route method path = method_route (new_group ([] ∷ [])) method path

unfoldable pub get : Group → Bytes → MethodRoute
unfolding method_route
get g path = method_route g (codes "GET") path

unfoldable pub post : Group → Bytes → MethodRoute
unfolding method_route
post g path = method_route g (codes "POST") path

unfoldable pub delete_route : Group → Bytes → MethodRoute
unfolding method_route
delete_route g path = method_route g (codes "DELETE") path

unfoldable pub put : Group → Bytes → MethodRoute
unfolding method_route
put g path = method_route g (codes "PUT") path

unfoldable pub patch : Group → Bytes → MethodRoute
unfolding method_route
patch g path = method_route g (codes "PATCH") path

unfoldable pub option : Group → Bytes → MethodRoute
unfolding method_route
option g path = method_route g (codes "OPTION") path

pub record MethodNode (H : Type 0) : Type 0 where
  pub node : Router.Node H
  pub method : Bytes

-- The prefix tree at the nodes of this router.
pub record MethodTire (H : Type 0) : Type 1 where
  pub Tree : Type 0
  pub new_tree : Tree
  pub insert : Tree → Bytes → MethodNode H → Tree
  pub delete : Option Tree → Bytes → Outcome (Option Tree)
  pub get_value : Tree → Bytes → Option (Hit (MethodNode H))
  pub get_all_value : Option Tree → Outcome (List (Hit (MethodNode H)))

-- What `SetStaticPath` asks of the file system: `filepath.Abs`, and whether `os.Stat` finds a
-- directory; an error is its message.
pub record Directories : Type 0 where
  pub absolute : Bytes → Bytes ⊎ Bytes
  pub is_dir : Bytes → Bytes ⊎ Bool

module _ {H : Type 0} (tire : MethodTire H) (to_lower to_upper : Bytes → Bytes)
    (grow : ℕ → ℕ → ℕ) where
  open tire use {Tree, new_tree, insert, delete, get_value, get_all_value}

  pub record MethodRouter : Type 0 where
    pub tree : Option Tree
    pub ignore_case : Bool
    pub prefix_path : Bytes
    pub static_path : Bytes
    pub default_index : Bytes
    pub global_before : Slice
    pub global_after : Slice

  unfoldable pub set_global_before : Store H → MethodRouter → List H → Store H × MethodRouter
  set_global_before st router hs =
      let (mem, s) = append grow st.befores router.global_before hs in
      (record st { befores = mem }, record router { global_before = s })

  unfoldable pub set_global_after : Store H → MethodRouter → List H → Store H × MethodRouter
  set_global_after st router hs =
      let (mem, s) = append grow st.afters router.global_after hs in
      (record st { afters = mem }, record router { global_after = s })

  unfoldable pub format_path : MethodRouter → Bytes → Bytes
  format_path router path = if router.ignore_case then to_lower path else path

  abbrev pub tree_or_new : Option Tree → Tree
  tree_or_new none = new_tree
  tree_or_new (some t) = t

  -- `route.Handler`, once the path and the method are not empty.
  unfoldable pub register :
      Store H → MethodRouter → MethodRoute → Bytes → H → Store H × MethodRouter × MethodNode H
  register st router m info fn =
      let r = m.route in
      let path = format_path router (r.group.path ++ r.path) in
      let (befores, before) =
        node_list grow st.befores r.group.before r.before router.global_before r.pass_before
          r.force_before in
      let (afters, after) =
        node_list grow st.afters r.group.after r.after router.global_after r.pass_after
          r.force_after in
      let entry : MethodNode H = record {
        node = record { info = info; route = path; function = fn; before = before; after = after };
        method = to_upper m.method;
      } in
      (
        record { befores = befores; afters = afters },
        record router { tree = some (insert (tree_or_new router.tree) path entry) },
        entry,
      )

  unfoldable pub route_handler :
      Store H
      → MethodRouter
      → MethodRoute
      → Bytes
      → H
      → Outcome (Store H × MethodRouter × MethodNode H)
  unfolding register
  route_handler st router m info fn = elim m.route.path [
    | [] ↦ panic
    | c ∷ path ↦ elim m.method [ [] ↦ panic | d ∷ method ↦ ok (register st router m info fn) ]
  ]

  -- The end of `getRoute`: the method of the node must be the one asked for.
  abbrev pub at_method :
      Bytes → Bytes → Option (Hit (MethodNode H)) → Option (Hit (MethodNode H) × Bytes)
  at_method method path none = none
  at_method method path (some hit) =
      if str_eq hit.entry.method (to_upper method) then some (hit, path) else none

  abbrev pub get_in : Option Tree → Bytes → Bytes → Option (Hit (MethodNode H) × Bytes)
  get_in none method path = none
  get_in (some t) method path = at_method method path (get_value t path)

  unfoldable pub get_route : MethodRouter → Bytes → Bytes → Option (Hit (MethodNode H) × Bytes)
  get_route router method path = get_in router.tree method (format_path router path)

  unfoldable pub get_all_routers : MethodRouter → Outcome (List (MethodNode H))
  get_all_routers router = get_all_value router.tree >>= λ hits. ok (map (λ hit. hit.entry) hits)

  -- `Remove`, which does not lower the path; and that of a group.
  unfoldable pub remove : MethodRouter → List Bytes → Outcome MethodRouter
  remove router path = delete router.tree (concat path) >>= λ t. ok (record router { tree = t })

  unfoldable pub group_remove : MethodRouter → Group → Bytes → Outcome MethodRouter
  unfolding remove
  group_remove router g path = remove router (g.path ∷ path ∷ [])

  -- `RouteHandler.Remove`
  unfoldable pub handler_remove : MethodRouter → Group → Bytes → Outcome MethodRouter
  unfolding remove
  handler_remove router g path = remove router (g.path ∷ path ∷ [])

  unfoldable pub set_default_index : MethodRouter → Bytes → MethodRouter
  set_default_index router index = record router { default_index = index }

  -- `SetStaticPath`
  unfoldable pub set_static_path : Directories → MethodRouter → Bytes → Bytes → Outcome MethodRouter
  set_static_path files router [] static_path = panic
  set_static_path files router (c ∷ prefix) [] = panic
  set_static_path files router (c ∷ prefix) (d ∷ static_path) =
      elim (files.absolute (d ∷ static_path)) [
        | inl err ↦ panic
        | inr path ↦ elim (files.is_dir path) [
          | inl err ↦ panic
          | inr dir ↦
              if dir
              then ok (record router {
                prefix_path = c ∷ prefix;
                static_path = path;
                default_index = codes "index.html";
              })
              else panic
        ]
      ]
