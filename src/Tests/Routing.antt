-- ===== src/Tests/Routing.antt =====
-- The routers at a concrete prefix tree: an association list, for literal paths.
use lemo.Base.{
  Bytes, ℕ, ◌+◌, ◌≡◌, refl, inl, inr, true, false, List, [], ◌∷◌, ◌++◌, none, some, ok, arith,
  str_eq, if◌then◌else◌,
}
use lemo.Slices.{Memory, nil, contents}
use lemo.Router.{
  Tire, Node, Group, Route, Store, Router, register, format_path, get_route, server_remove,
}
use lemo.Router.Lists.{IsSeparate, chosen_list, register-lists}
use lemo.Router.Sharing.{IsPlainPair, register_replaces}
use lemo.Router.Lookup.{IsLiteral, get_route-server_remove}
use lemo.Client.Async.{async_emit, answered}
use lemo.Client.Async.Forgets.{async_emit-get_route}
use lemo.Tests.Codec.{hello, hi}
use lemo.Tests.Trees
use lemo.Tests.Trees.{laws, to_lower, grow}

-- A handler is a number.
abbrev tire : Tire (Node ℕ)
tire = Trees.tire

-- The array 1 is a group's, with room for four handlers; the routes have one handler each.
abbrev memory : Memory ℕ
memory = record { next = 4; cell = λ a i. a + i }

abbrev store : Store ℕ
store = record { befores = memory; afters = memory }

abbrev hellos : Group
hellos = record { path = hello; before = record { array = 1; len = 1; capacity = 4 }; after = nil }

abbrev route_at : ℕ → Route
route_at a = record {
  path = hi;
  before = record { array = a; len = 1; capacity = 1 };
  after = nil;
  pass_before = false;
  force_before = false;
  pass_after = false;
  force_after = false;
  group = hellos;
}

abbrev route1 : Route
route1 = route_at 2

abbrev route2 : Route
route2 = route_at 3

abbrev router : Router tire to_lower grow
router = record { tree = some []; ignore_case = true; global_before = nil; global_after = nil }

separate : IsSeparate tire to_lower grow store router route1
separate = record {
  own_before = (omega arith, inl (omega arith));
  global_before = (omega arith, inl (omega arith));
  own_after = (omega arith, inr (omega arith));
  global_after = (omega arith, inr (omega arith));
}

register-lists_example :
    let (st', _, node) = register tire to_lower grow store router route1 [] 7 in
    (contents st'.befores node.before
      ≡ chosen_list
          (contents memory hellos.before)
          (contents memory route1.before)
          (contents memory nil)
          false
          false)
    × (contents st'.afters node.after
        ≡ chosen_list (contents memory nil) (contents memory nil) (contents memory nil) false false)
unfolding contents
register-lists_example = register-lists tire to_lower grow store router route1 [] 7 separate

abbrev first : Store ℕ × Router tire to_lower grow × Node ℕ
first = register tire to_lower grow store router route1 [] 7

abbrev second : Store ℕ × Router tire to_lower grow × Node ℕ
second = register tire to_lower grow first.0 first.1 route2 [] 8

pair-IsPlainPair : IsPlainPair tire to_lower grow store router route1 route2
pair-IsPlainPair = record {
  same_group = refl;
  no_global = refl;
  plain1 = (refl, refl);
  plain2 = (refl, refl);
  allocated = omega arith;
  own2 = (omega arith, inl (omega arith));
}

register_replaces_example :
    contents second.0.befores first.2.before
    ≡ contents memory hellos.before ++ contents memory route2.before
register_replaces_example =
    register_replaces tire to_lower grow store router route1 route2 [] [] 7 8 pair-IsPlainPair refl
      (omega arith)

-- A group without handlers of its own: its slice has no room.
abbrev bare : Route
bare = record route1 { group = record { path = hello; before = nil; after = nil } }

abbrev bare_first : Store ℕ × Router tire to_lower grow × Node ℕ
bare_first = register tire to_lower grow store router bare [] 7

abbrev bare_second : Store ℕ × Router tire to_lower grow × Node ℕ
bare_second = register tire to_lower grow bare_first.0 bare_first.1 bare [] 8

bare-IsPlainPair : IsPlainPair tire to_lower grow store router bare bare
bare-IsPlainPair = record {
  same_group = refl;
  no_global = refl;
  plain1 = (refl, refl);
  plain2 = (refl, refl);
  allocated = omega arith;
  own2 = (omega arith, inl (omega arith));
}

-- "/HELLOHI" and "/hellohi"
abbrev shouted : Bytes
shouted = 47 ∷ 72 ∷ 69 ∷ 76 ∷ 76 ∷ 79 ∷ 72 ∷ 73 ∷ []

abbrev said : Bytes
said = hello ++ hi

said-IsLiteral : IsLiteral said
said-IsLiteral = ground arith

shouted-IsLiteral : IsLiteral shouted
shouted-IsLiteral = ground arith

abbrev format_full : Bytes → Bytes
format_full = format_path tire to_lower grow (record router { tree = some ((said, first.2) ∷ []) })

full_said : format_full said ≡ said
unfolding format_path
full_said = refl

full_shouted : format_full shouted ≡ said
unfolding format_path
full_shouted = refl

abbrev full : List (Bytes × Node ℕ)
full = (said, first.2) ∷ []

abbrev full_router : Router tire to_lower grow
full_router = record router { tree = some full }

get_route-server_remove_example :
    (router' : Router tire to_lower grow) × (server_remove tire to_lower grow full_router
        (shouted ∷ [])
      ≡ ok router')
    × (get_route tire to_lower grow router' said ≡ get_route tire to_lower grow full_router said)
get_route-server_remove_example =
    get_route-server_remove tire to_lower grow (λ t. Unit {0}) laws full_router full (shouted ∷ [])
      said refl refl tt shouted-IsLiteral (λ e. ground arith)

-- The client has a handler at "/hellohi" and calls that event, without an answer.
async_emit-get_route_example :
    (st' : Store ℕ) × (router' : Router tire to_lower grow) × (async_emit {X = ℕ} tire to_lower grow
        store full_router [] 9 shouted none none
      ≡ ok (answered none none, st', router'))
    × (get_route tire to_lower grow router' said ≡ (
        if str_eq (format_full said) (format_full shouted)
        then none
        else get_route tire to_lower grow full_router said))
async_emit-get_route_example =
    async_emit-get_route tire to_lower grow (λ t. Unit {0}) laws {X = ℕ} store full_router full [] 9
      47 (72 ∷ 69 ∷ 76 ∷ 76 ∷ 79 ∷ 72 ∷ 73 ∷ []) none none said refl tt
      (rw full_shouted said-IsLiteral)
