-- ===== src/Router/Sharing.antt =====
-- Two routes of one group in socket/tcp/server/router.go, whose lists of handlers are both appended
-- to the slice of the group.
use lemo.Base.{
  Bytes, ℕ, ◌+◌, ◌≤◌, ◌<◌, ◌≡◌, ◌≢◌, ◌⊎◌, inl, inr, sym, ap, ◌∙◌, false, List, [], ◌++◌, arith,
  length, dec_lt,
}
use lemo.Slices.{Slice, Memory, contents, append, read_from}
use lemo.Slices.Laws.{
  contents-append, contents-append_other, length-read_from, slice-append, slice-append_nil,
  array-append, array-append_moved, next-append,
}
use lemo.Router.{Tire, Node, Group, Route, Store, Router, node_list, register}
use lemo.Router.Lists.{IsApart}

module _ (grow : ℕ → ℕ → ℕ) {H : Type 0} (mem : Memory H) (g : Slice) where
  length-contents : (r : Slice) → length (contents mem r) ≡ r.len
  unfolding contents
  length-contents r = length-read_from mem.cell r.array 0 r.len

  contents_nil : (m : Memory H) (global : Slice) → global.len ≡ 0 → contents m global ≡ []
  unfolding contents read_from
  contents_nil m global e = rw e

  -- A route without flags and without global handlers gets the group's slice, appended to.
  plain_list :
      (r global : Slice)
      → global.len ≡ 0
      → node_list grow mem g r global false false ≡ append grow mem g (contents mem r)
  unfolding node_list append
  plain_list r global e = rw (contents_nil (append grow mem g (contents mem r)).0 global e)

  -- Two appends of as many values to a slice with room: the first result shows the second's values.
  append-append_in_place :
      (xs ys : List H)
      → g.array < mem.next
      → g.len + length xs ≤ g.capacity
      → length xs ≡ length ys
      → let (mem1, s1) = append grow mem g xs in
        contents (append grow mem1 g ys).0 s1 ≡ contents mem g ++ ys
  append-append_in_place xs ys old room same =
      let mem1 = (append grow mem g xs).0 in
      let mem2 = (append grow mem1 g ys).0 in
      ap (contents mem2) (
        slice-append grow mem g xs room
        ∙ ap (λ n. record g { len = g.len + n }) same
        ∙ sym (slice-append grow mem1 g ys (omega arith)))
      ∙ contents-append grow mem1 g ys
      ∙ ap (λ l. l ++ ys) (contents-append_other grow mem g xs g old (inr (inl (omega arith))))

  -- An append to `g` spares the result of an earlier append to it, unless both are in its array.
  append-append_apart :
      (xs ys : List H)
      → g.array < mem.next
      → (length xs ≡ 0) ⊎ (g.capacity < g.len + length xs) ⊎ (g.capacity < g.len + length ys)
      → let (mem1, s1) = append grow mem g xs in
        contents (append grow mem1 g ys).0 s1 ≡ contents mem1 s1
  append-append_apart xs ys old h =
      contents-append_other grow (append grow mem g xs).0 g ys (append grow mem g xs).1
        (ground (arith, array-append grow mem g xs, next-append grow mem g xs)) (apart h)
    where
      apart :
          (length xs ≡ 0) ⊎ (g.capacity < g.len + length xs) ⊎ (g.capacity < g.len + length ys)
          → (g.array ≢ (append grow mem g xs).1.array)
            ⊎ ((append grow mem g xs).1.len ≤ g.len)
            ⊎ (g.capacity < g.len + length ys)
      apart (inl e) = inr (inl (rw (slice-append_nil grow mem g xs e) (omega arith)))
      apart (inr (inl k)) = elim (dec_lt 0 (length xs)) [
        | yes p ↦ inl (λ e. absurd (omega (arith, array-append_moved grow mem g xs k p)))
        | no p ↦ inr (inl (rw (slice-append_nil grow mem g xs (omega arith)) (omega arith)))
      ]
      apart (inr (inr k)) = inr (inr k)

module _ {H : Type 0} (tire : Tire (Node H)) (to_lower : Bytes → Bytes) (grow : ℕ → ℕ → ℕ)
    (st : Store H) (router : Router tire to_lower grow) (r1 r2 : Route) where
  abbrev g : Slice
  g = r1.group.before

  -- Two routes of one group that add handlers of their own to the group's, with no global ones.
  pub record IsPlainPair : Type 0 where
    pub same_group : r2.group ≡ r1.group
    pub no_global : router.global_before.len ≡ 0
    pub plain1 : (r1.pass_before ≡ false) × (r1.force_before ≡ false)
    pub plain2 : (r2.pass_before ≡ false) × (r2.force_before ≡ false)
    pub allocated : r1.group.before.array < st.befores.next
    pub own2 : IsApart st.befores r1.group.before r2.before

  module _ (info1 info2 : Bytes) (fn1 fn2 : H) (v : IsPlainPair) where
    abbrev first : Store H × Router tire to_lower grow × Node H
    first = register tire to_lower grow st router r1 info1 fn1

    abbrev second : Store H × Router tire to_lower grow × Node H
    second = register tire to_lower grow first.0 first.1 r2 info2 fn2

    abbrev own1 : List H
    own1 = contents st.befores r1.before

    abbrev own2 : List H
    own2 = contents st.befores r2.before

    abbrev after1 : Memory H × Slice
    after1 = append grow st.befores g own1

    first-node_list :
        node_list grow st.befores g r1.before router.global_before r1.pass_before r1.force_before
        ≡ after1
    first-node_list =
        rw (v.plain1.0, v.plain1.1)
          (plain_list grow st.befores g r1.before router.global_before v.no_global)

    second-node_list :
        node_list grow after1.0 r2.group.before r2.before router.global_before r2.pass_before
          r2.force_before
        ≡ append grow after1.0 g own2
    second-node_list =
        rw (v.plain2.0, v.plain2.1)
          (ap
              (λ (h : Group).
                node_list grow after1.0 h.before r2.before router.global_before false false)
              v.same_group
            ∙ plain_list grow after1.0 g r2.before router.global_before v.no_global
            ∙ ap (append grow after1.0 g) (
                contents-append_other grow st.befores g own1 r2.before v.own2.0
                  (ground (arith, v.own2.1))))

    -- What the first node shows once both routes are registered.
    shown :
        contents second.0.befores first.2.before ≡ contents (append grow after1.0 g own2).0 after1.1
    unfolding register
    shown = rw first-node_list (rw second-node_list)

    len1 : length own1 ≡ r1.before.len
    len1 = length-contents grow st.befores g r1.before

    len2 : length own2 ≡ r2.before.len
    len2 = length-contents grow st.befores g r2.before

    -- For two routes of one group without flags and global handlers: when the group's slice of
    -- `Before` handlers has room, and the routes add equally many, the second registration puts its
    -- own handlers in the place of the first route's.
    pub register_replaces :
        r1.before.len ≡ r2.before.len
        → g.len + r1.before.len ≤ g.capacity
        → contents second.0.befores first.2.before
          ≡ contents st.befores g ++ contents st.befores r2.before
    register_replaces same room =
        shown
        ∙ append-append_in_place grow st.befores g own1 own2 v.allocated (ground (arith, len1))
            (ground (arith, len1, len2))

    -- For two routes of one group without flags and global handlers: when the first route adds none, or the group's slice has no room for one of the two, the
    -- second registration leaves the handlers of the first as they were.
    pub register_keeps :
        (r1.before.len ≡ 0)
          ⊎ (g.capacity < g.len + r1.before.len)
          ⊎ (g.capacity < g.len + r2.before.len)
        → contents second.0.befores first.2.before ≡ contents first.0.befores first.2.before
    register_keeps h =
        shown
        ∙ append-append_apart grow st.befores g own1 own2 v.allocated (ground (arith, len1, len2))
        ∙ (unfold register in rw first-node_list)
