-- ===== src/Http/Router/Methods.antt =====
-- `getRoute` of http/server/router.go after a registration.
use lemo.Base.{Bytes, ℕ, ◌≡◌, ap, ◌∙◌, none, some, ◌++◌, str_eq, if◌then◌else◌}
use lemo.Router.{Hit, Store}
use lemo.Router.Lookup.{IsLiteral}
use lemo.Http.Router.{
  MethodRoute, MethodNode, MethodTire, MethodRouter, format_path, register, get_route, tree_or_new,
  get_in, at_method,
}

-- A prefix tree whose keys are literal gives back the node that was put there last.
abbrev pub IsLastWins : {H : Type 0} (tire : MethodTire H) (IsPlain : tire.Tree → Type 0) → Type 0
IsLastWins {H} tire IsPlain =
    (t : tire.Tree) (path : Bytes) (n : MethodNode H)
    → IsPlain t
    → IsLiteral path
    → (hit : Hit (MethodNode H)) × (tire.get_value (tire.insert t path n) path ≡ some hit)
      × (hit.entry ≡ n)

module _ {H : Type 0} (tire : MethodTire H) (to_lower to_upper : Bytes → Bytes) (grow : ℕ → ℕ → ℕ)
    (IsPlain : tire.Tree → Type 0) (last_wins : IsLastWins tire IsPlain) where
  -- In a prefix tree whose keys are literal, with a literal path: right after a registration, a
  -- request for its path, in any case if the router ignores case, finds the node that was
  -- registered if the two methods are the same in upper case, and nothing for every other method,
  -- whatever was registered at the path before.
  pub get_route-register_method :
      (st : Store H) (router : MethodRouter tire to_lower to_upper grow) (m : MethodRoute)
      (info : Bytes) (fn : H) (method request : Bytes)
      → let formatted = format_path tire to_lower to_upper grow router in
        let path = formatted (m.route.group.path ++ m.route.path) in
        IsPlain (tree_or_new tire to_lower to_upper grow router.tree)
        → IsLiteral path
        → formatted request ≡ path
        → let (_, router', n) = register tire to_lower to_upper grow st router m info fn in
          (hit : Hit (MethodNode H)) × (hit.entry ≡ n)
          × (get_route tire to_lower to_upper grow router' method request
              ≡ (if str_eq (to_upper m.method) (to_upper method) then some (hit, path) else none))
  unfolding register get_route format_path
  get_route-register_method st router m info fn method request plain lit same =
      let (hit, found, entry) =
        last_wins (tree_or_new tire to_lower to_upper grow router.tree)
          (format_path tire to_lower to_upper grow router (m.route.group.path ++ m.route.path)) _
          plain lit in
      (
        hit,
        entry,
        ap (get_in tire to_lower to_upper grow (some _) method) same
            ∙ ap (at_method tire to_lower to_upper grow method _) found
            ∙ ap
                (λ n.
                  if str_eq n.method (to_upper method)
                  then some (
                    hit,
                    format_path tire to_lower to_upper grow router
                        (m.route.group.path ++ m.route.path),
                  )
                  else none)
                entry,
      )
