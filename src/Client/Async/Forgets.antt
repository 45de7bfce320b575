-- ===== src/Client/Async/Forgets.antt =====
-- What a waiting call leaves in the router of the client.
use lemo.Base.{
  ℕ, Bytes, ◌≡◌, ◌≢◌, refl, sym, ap, ◌∙◌, [], ◌∷◌, Option, none, some, ok, str_eq, str_eq_refl,
  eq_of_str_eq, Bool-cases, inl, inr, if◌then◌else◌, true,
}
use mathlib.Core.List.{append-nil}
use lemo.Router.{
  Tire, Node, Store, Router, new_group, new_route, register, client_remove, format_path, get_route,
  hit_at,
}
use lemo.Router.Lookup.{IsLiteral, IsTire, lookup-hit_at, lookup-with_tree}
use lemo.Client.Async.{async_emit, answered}

module _ {H : Type 0} (tire : Tire (Node H)) (to_lower : Bytes → Bytes) (grow : ℕ → ℕ → ℕ)
    (IsPlain : tire.Tree → Type 0) (laws : IsTire tire IsPlain) where
  abbrev formatted : Router tire to_lower grow → Bytes → Bytes
  formatted = format_path tire to_lower grow

  -- In a prefix tree whose keys are literal, with a literal event that is not empty: after the call
  -- has returned, whether it got its answer, an error or the timeout, no route is found for the
  -- event, also when the client had one of its own before; what a request for another path finds
  -- has not changed.
  pub async_emit-get_route :
      {X : Type 0} (st : Store H) (router : Router tire to_lower grow) (t : tire.Tree)
      (info : Bytes) (fn : H) (c : ℕ) (event : Bytes) (sent : Option Bytes) (reply : Option X)
      (request : Bytes)
      → router.tree ≡ some t
      → IsPlain t
      → IsLiteral (formatted router (c ∷ event))
      → (st' : Store H) × (router' : Router tire to_lower grow) × (async_emit tire to_lower grow st
            router info fn
            (c ∷ event)
            sent
            reply
          ≡ ok (answered sent reply, st', router'))
        × (get_route tire to_lower grow router' request ≡ (
            if str_eq (formatted router request) (formatted router (c ∷ event))
            then none
            else get_route tire to_lower grow router request))
  unfolding async_emit format_path
  async_emit-get_route st router t info fn c event sent reply request e plain lit =
      let path = formatted router (c ∷ event) in
      let (st1, router1, node) =
        register tire to_lower grow st router (new_route (new_group ([] ∷ [])) (c ∷ event)) info
          fn in
      let t1 = tire.insert t path node in
      let (t', deleted, gone, others) =
        laws.delete_ok t1 path (laws.plain-insert t path node plain lit) lit in
      let router' : Router tire to_lower grow = record router { tree = some t' } in
      (
        st1,
        router',
        unfold register client_remove new_group new_route in
            rw (append-nil event) (rw e (rw deleted refl)),
        elim (Bool-cases (str_eq (formatted router request) path)) [
          | inl same ↦
              lookup-hit_at tire to_lower grow IsPlain laws router' t' request path refl
                (eq_of_str_eq _ path same)
              ∙ ap (hit_at tire to_lower grow path) gone
              ∙ sym (rw same refl)
          | inr other ↦
              let differs : formatted router request ≢ path =
                λ h. (let same : str_eq path path ≡ true = str_eq_refl path in cc) in
              lookup-with_tree tire to_lower grow IsPlain laws router t request
                (formatted router request) e refl t'
                (others _ differs ∙ laws.get_value-insert_other t path _ node plain lit differs)
              ∙ sym (rw other refl)
        ],
      )
