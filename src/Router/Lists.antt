-- ===== src/Router/Lists.antt =====
-- Which handlers a node gets: those of the group, the route and the router, by the flags.
use lemo.Base.{
  Bytes, ℕ, ◌≤◌, ◌<◌, ◌≡◌, ◌≢◌, ◌⊎◌, refl, ◌∙◌, Bool, true, false, List, [], ◌++◌, arith,
  if◌then◌else◌,
}
use lemo.Slices.{Slice, Memory, nil, contents, append, read_from}
use lemo.Slices.Laws.{contents-append, contents-append_other}
use lemo.Router.{Tire, Node, Route, Store, Router, node_list, register}

-- An append to `s` cannot write into what `t` shows.
abbrev pub IsApart : {A : Type 0} → Memory A → Slice → Slice → Type 0
IsApart mem s t = (t.array < mem.next) × ((s.array ≢ t.array) ⊎ (t.len ≤ s.len))

-- The list that the flags choose, as `Handler` means it.
abbrev pub chosen_list : {H : Type 0} → List H → List H → List H → (pass force : Bool) → List H
chosen_list g r global pass force = (if force then r else if pass then [] else g ++ r) ++ global

module _ (grow : ℕ → ℕ → ℕ) {H : Type 0} (mem : Memory H) (g r global : Slice) where
  abbrev joined : Memory H × Slice
  joined = append grow mem g (contents mem r)

  global_kept : IsApart mem g global → contents joined.0 global ≡ contents mem global
  global_kept (old, apart) =
      contents-append_other grow mem g (contents mem r) global old (ground arith)

  own_kept : IsApart mem g r → contents joined.0 r ≡ contents mem r
  own_kept (old, apart) = contents-append_other grow mem g (contents mem r) r old (ground arith)

  pub contents-node_list :
      (pass force : Bool)
      → IsApart mem g r
      → IsApart mem g global
      → let (mem', s) = node_list grow mem g r global pass force in
        contents mem' s
        ≡ chosen_list (contents mem g) (contents mem r) (contents mem global) pass force
  unfolding node_list
  contents-node_list pass true a b =
      contents-append grow joined.0 r _ ∙ rw (own_kept a, global_kept b)
  contents-node_list true false a b =
      contents-append grow joined.0 nil _ ∙ rw (global_kept b) (unfold contents read_from in refl)
  contents-node_list false false a b =
      contents-append grow joined.0 joined.1 _
      ∙ rw (global_kept b, contents-append grow mem g (contents mem r))

module _ {H : Type 0} (tire : Tire (Node H)) (to_lower : Bytes → Bytes) (grow : ℕ → ℕ → ℕ) where
  pub record IsSeparate (st : Store H) (router : Router tire to_lower grow) (r : Route)
      : Type 0 where
    pub own_before : IsApart st.befores r.group.before r.before
    pub global_before : IsApart st.befores r.group.before router.global_before
    pub own_after : IsApart st.afters r.group.after r.after
    pub global_after : IsApart st.afters r.group.after router.global_after

  -- When an append to the group's slices cannot write into the route's own or the global ones, the
  -- node that `Handler` registers gets the handlers that the flags of the route choose among those
  -- of the group, its own and the router's global ones, both before and after.
  pub register-lists :
      (st : Store H) (router : Router tire to_lower grow) (r : Route) (info : Bytes) (fn : H)
      → IsSeparate st router r
      → let (st', _, node) = register tire to_lower grow st router r info fn in
        (contents st'.befores node.before
          ≡ chosen_list
              (contents st.befores r.group.before)
              (contents st.befores r.before)
              (contents st.befores router.global_before)
              r.pass_before
              r.force_before)
        × (contents st'.afters node.after
            ≡ chosen_list
                (contents st.afters r.group.after)
                (contents st.afters r.after)
                (contents st.afters router.global_after)
                r.pass_after
                r.force_after)
  unfolding register
  register-lists st router r info fn v = (
    contents-node_list grow st.befores r.group.before r.before router.global_before r.pass_before
        r.force_before v.own_before v.global_before,
    contents-node_list grow st.afters r.group.after r.after router.global_after r.pass_after
        r.force_after v.own_after v.global_after,
  )
