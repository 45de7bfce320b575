-- ===== src/Router/Lookup.antt =====
-- `getRoute` of the socket routers after a registration and after a removal.
use lemo.Base.{
  Bytes, ℕ, ◌≡◌, ◌≢◌, refl, sym, ap, ◌∙◌, All, ◌>>=◌, true, List, ◌++◌, concat, Option, none, some,
  ok,
}
use lemo.Router.{
  Hit, Tire, Node, Route, Store, Router, format_path, register, get_route, tree_or_new, get_in,
  hit_at, server_remove, client_remove,
}

-- A path without parameters: no byte is ':' or '*'.
abbrev pub IsLiteral : Bytes → Type 0
IsLiteral = All (λ b. (b ≢ b':') × (b ≢ b'*'))

-- A prefix tree all of whose keys are literal is a map: a key that was inserted is found, one that
-- was deleted is not, and neither operation changes what is found at another key.
pub record IsTire {H : Type 0} (tire : Tire (Node H)) (IsPlain : tire.Tree → Type 0) : Type 0 where
  pub plain_new : IsPlain tire.new_tree
  pub get_value-insert :
      (t : tire.Tree) (path : Bytes) (n : Node H)
      → IsPlain t
      → IsLiteral path
      → (hit : Hit (Node H)) × (tire.get_value (tire.insert t path n) path ≡ some hit)
        × (hit.entry ≡ n)
  pub plain-insert :
      (t : tire.Tree) (path : Bytes) (n : Node H)
      → IsPlain t
      → IsLiteral path
      → IsPlain (tire.insert t path n)
  pub get_value-insert_other :
      (t : tire.Tree) (path other : Bytes) (n : Node H)
      → IsPlain t
      → IsLiteral path
      → other ≢ path
      → tire.get_value (tire.insert t path n) other ≡ tire.get_value t other
  pub delete_ok :
      (t : tire.Tree) (path : Bytes)
      → IsPlain t
      → IsLiteral path
      → (t' : tire.Tree) × (tire.delete (some t) path ≡ ok (some t'))
        × (tire.get_value t' path ≡ none)
        × ((other : Bytes) → other ≢ path → tire.get_value t' other ≡ tire.get_value t other)

module _ {H : Type 0} (tire : Tire (Node H)) (to_lower : Bytes → Bytes) (grow : ℕ → ℕ → ℕ)
    (IsPlain : tire.Tree → Type 0) (laws : IsTire tire IsPlain) where
  abbrev pub formatted : Router tire to_lower grow → Bytes → Bytes
  formatted = format_path tire to_lower grow

  abbrev lookup : Router tire to_lower grow → Bytes → Option (Hit (Node H) × Bytes)
  lookup = get_route tire to_lower grow

  module _ (router : Router tire to_lower grow) (t : tire.Tree) (request path : Bytes)
      (e : router.tree ≡ some t) (same : formatted router request ≡ path) where
    pub lookup-hit_at :
        lookup router request ≡ hit_at tire to_lower grow path (tire.get_value t path)
    unfolding get_route
    lookup-hit_at =
        ap (λ o. get_in tire to_lower grow o (formatted router request)) e
        ∙ ap (get_in tire to_lower grow (some t)) same

    -- What is found depends on the value at the formatted path only.
    pub lookup-with_tree :
        (t' : tire.Tree)
        → tire.get_value t' path ≡ tire.get_value t path
        → lookup (record router { tree = some t' }) request ≡ lookup router request
    unfolding get_route format_path
    lookup-with_tree t' agree =
        ap (get_in tire to_lower grow (some t')) same
        ∙ ap (hit_at tire to_lower grow path) agree
        ∙ sym lookup-hit_at

  -- In a prefix tree whose keys are literal, with a literal path: right after a registration, a
  -- request for the registered path, in any case if the router ignores case, finds the node that
  -- was registered.
  pub get_route-register :
      (st : Store H) (router : Router tire to_lower grow) (r : Route) (info : Bytes) (fn : H)
      (request : Bytes)
      → IsPlain (tree_or_new tire to_lower grow router.tree)
      → IsLiteral (formatted router (r.group.path ++ r.path))
      → formatted router request ≡ formatted router (r.group.path ++ r.path)
      → let (_, router', node) = register tire to_lower grow st router r info fn in
        (hit : Hit (Node H)) × (get_route tire to_lower grow router' request
          ≡ some (hit, formatted router (r.group.path ++ r.path)))
        × (hit.entry ≡ node)
  unfolding register format_path
  get_route-register st router r info fn request plain lit same =
      let (hit, found, entry) =
        laws.get_value-insert (tree_or_new tire to_lower grow router.tree)
          (formatted router (r.group.path ++ r.path)) _ plain lit in
      (hit, lookup-hit_at _ _ request _ refl same ∙ ap (hit_at tire to_lower grow _) found, entry)

  -- In a prefix tree whose keys are literal, with a literal path: after `Remove` of a client router
  -- a request for the path, in any case if the router ignores case, finds nothing.
  pub get_route-client_remove :
      (router : Router tire to_lower grow) (t : tire.Tree) (path : List Bytes) (request : Bytes)
      → router.tree ≡ some t
      → IsPlain t
      → IsLiteral (formatted router (concat path))
      → formatted router request ≡ formatted router (concat path)
      → (router' : Router tire to_lower grow) × (client_remove tire to_lower grow router path
          ≡ ok router')
        × (get_route tire to_lower grow router' request ≡ none)
  unfolding client_remove
  get_route-client_remove router t path request e plain lit same =
      let (t', deleted, gone, _) = laws.delete_ok t (formatted router (concat path)) plain lit in
      (
        record router { tree = some t' },
        rw (e, client_remove) (rw (deleted, ◌>>=◌)),
        (unfold format_path in
            lookup-hit_at (record router { tree = some t' }) t' request _ refl same
            ∙ ap (hit_at tire to_lower grow _) gone),
      )

  -- In a prefix tree whose keys are literal, with a literal path: `Remove` of a server router that
  -- ignores case does not lower the path, so what a request finds stays the same unless the request
  -- in lower case is the path as it was given.
  pub get_route-server_remove :
      (router : Router tire to_lower grow) (t : tire.Tree) (path : List Bytes) (request : Bytes)
      → router.tree ≡ some t
      → router.ignore_case ≡ true
      → IsPlain t
      → IsLiteral (concat path)
      → to_lower request ≢ concat path
      → (router' : Router tire to_lower grow) × (server_remove tire to_lower grow router path
          ≡ ok router')
        × (get_route tire to_lower grow router' request
            ≡ get_route tire to_lower grow router request)
  unfolding server_remove
  get_route-server_remove router t path request e ignores plain lit differs =
      let (t', deleted, _, others) = laws.delete_ok t (concat path) plain lit in
      (
        record router { tree = some t' },
        rw e (rw (deleted, ◌>>=◌)),
        lookup-with_tree router t request (to_lower request) e (unfold format_path in rw ignores) t'
            (others (to_lower request) differs),
      )
