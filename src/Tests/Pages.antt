-- ===== src/Tests/Pages.antt =====
-- The http router and server at concrete inputs.
use lemo.Base.{
  Bytes, codes, ℕ, ◌+◌, ◌≡◌, refl, false, List, [], ◌∷◌, Option, none, some, ok, panic, str_eq,
  str_eq_refl, if◌then◌else◌, inr, arith,
}
use lemo.Base.Io.{Io}
use lemo.Slices.{Memory, nil}
use lemo.Router.{Hit, Store}
use lemo.Router.Lookup.{IsLiteral}
use lemo.Http.Router.{
  MethodNode, MethodTire, MethodRouter, MethodRoute, register, get_route, format_path,
}
use lemo.Http.Router.Methods.{IsLastWins, get_route-register_method}
use lemo.Http.Server.{Site, Handler, handler}
use lemo.Http.Server.Routes.{
  routes, registered, full_path, IsSeparate, answer, answer_404, handler-register_method,
}

-- A handler is a number, and a tree of paths an association list.
abbrev Tree : Type 0
Tree = List (Bytes × MethodNode ℕ)

abbrev hit : MethodNode ℕ → Hit (MethodNode ℕ)
hit n = record { entry = n; keys = []; parse_params = λ path. [] }

unfoldable get_value : Tree → Bytes → Option (Hit (MethodNode ℕ))
get_value [] path = none
get_value ((key, n) ∷ t) path =
    let rest = get_value t path in if str_eq key path then some (hit n) else rest

abbrev tire : MethodTire ℕ
tire = record {
  Tree = Tree;
  new_tree = [];
  insert = λ t path n. (path, n) ∷ t;
  delete = λ t path. panic;
  get_value = get_value;
  get_all_value = λ t. ok [];
}

last_wins : IsLastWins tire (λ t. Unit {0})
unfolding get_value
last_wins t path n plain lit = (hit n, rw (str_eq_refl path) refl, refl)

abbrev same : Bytes → Bytes
same s = s

abbrev grow : ℕ → ℕ → ℕ
grow old n = n + n

abbrev memory : Memory ℕ
memory = record { next = 1; cell = λ a i. 0 }

abbrev store : Store ℕ
store = record { befores = memory; afters = memory }

abbrev router : MethodRouter tire same same grow
router = record {
  tree = none;
  ignore_case = false;
  prefix_path = [];
  static_path = [];
  default_index = [];
  global_before = nil;
  global_after = nil;
}

abbrev hello : Bytes
hello = codes "/hello"

abbrev post_route : MethodRoute
post_route = record {
  method = codes "POST";
  route = record {
    path = hello;
    before = nil;
    after = nil;
    pass_before = false;
    force_before = false;
    pass_after = false;
    force_after = false;
    group = record { path = []; before = nil; after = nil };
  };
}

hello-IsLiteral : IsLiteral hello
hello-IsLiteral = ground arith

format-hello : format_path tire same same grow router hello ≡ hello
unfolding format_path
format-hello = refl

get_route-register_method_example :
    let (_, router', n) = register tire same same grow store router post_route [] 7 in
    (h : Hit (MethodNode ℕ)) × (h.entry ≡ n)
    × (get_route tire same same grow router' (codes "GET") hello ≡ (
        if str_eq (codes "POST") (codes "GET")
        then some (h, format_path tire same same grow router hello)
        else none))
get_route-register_method_example =
    get_route-register_method tire same same grow (λ t. Unit {0}) last_wins store router post_route
      [] 7 (codes "GET") hello tt (rw format-hello hello-IsLiteral) refl

-- The state is the log of what was called; the path of every request is "/hello".
abbrev Log : Type 0
Log = List ℕ

abbrev logged : ℕ → Io Log (Unit {0})
logged n log = ok (tt, n ∷ log)

abbrev handled : ℕ → Option Bytes → Handler Log
handled n err log = ok (err, n ∷ log)

abbrev site : Site Log
site = record {
  on_open = none;
  on_message = none;
  on_close = some (λ u. logged 1);
  on_error = some (λ e. logged 2);
  path = λ log. hello;
  get_route = λ log. ok (none, log);
  write_header = λ code. logged code;
  set_params = λ ps. logged 3;
  middle = [];
}

-- The tree above, for handlers that are functions.
unfoldable get_handler :
    List (Bytes × MethodNode (Handler Log)) → Bytes → Option (Hit (MethodNode (Handler Log)))
get_handler [] path = none
get_handler ((key, n) ∷ t) path =
    let rest = get_handler t path in
    if str_eq key path
    then some (record { entry = n; keys = []; parse_params = λ path. [] })
    else rest

abbrev handlers : MethodTire (Handler Log)
handlers = record {
  Tree = List (Bytes × MethodNode (Handler Log));
  new_tree = [];
  insert = λ t path n. (path, n) ∷ t;
  delete = λ t path. panic;
  get_value = get_handler;
  get_all_value = λ t. ok [];
}

handlers_last : IsLastWins handlers (λ t. Unit {0})
unfolding get_handler
handlers_last t path n plain lit =
    (record { entry = n; keys = []; parse_params = λ path. [] }, rw (str_eq_refl path) refl, refl)

abbrev handler_store : Store (Handler Log)
handler_store = record {
  befores = record { next = 1; cell = λ a i. handled i none };
  afters = record { next = 1; cell = λ a i. handled i none };
}

abbrev handler_router : MethodRouter handlers same same grow
handler_router = record {
  tree = none;
  ignore_case = false;
  prefix_path = [];
  static_path = [];
  default_index = [];
  global_before = nil;
  global_after = nil;
}

abbrev post_registered :
    Store (Handler Log) × MethodRouter handlers same same grow × MethodNode (Handler Log)
post_registered =
    registered handlers same same grow handler_store handler_router post_route [] (handled 11 none)

-- A server that gets a POST for "/hello".
abbrev posted : Site Log
posted = record site {
  get_route =
      routes handlers same same grow (λ log. codes "POST") site.path post_registered.0
        post_registered.1;
}

post-IsSeparate :
    IsSeparate handlers same same grow handler_store handler_router post_route [] (handled 11 none)
post-IsSeparate = record {
  own_before = (omega arith, inr (omega arith));
  global_before = (omega arith, inr (omega arith));
  own_after = (omega arith, inr (omega arith));
  global_after = (omega arith, inr (omega arith));
}

post-IsLiteral :
    IsLiteral (
      full_path handlers same same grow handler_store handler_router post_route []
        (handled 11 none))
unfolding format_path
post-IsLiteral = ground arith

handler-register_method_example :
    (h : Hit (MethodNode (Handler Log))) × (h.entry ≡ post_registered.2)
    × (handler posted []
        ≡ (if str_eq (codes "POST") (codes "POST")
              then answer handlers same same grow handler_store handler_router post_route []
                  (handled 11 none)
                  posted
                  h
              else answer_404 handlers same same grow handler_store handler_router post_route []
                  (handled 11 none)
                  posted)
            [])
handler-register_method_example =
    handler-register_method handlers same same grow (λ t. Unit {0}) handlers_last handler_store
      handler_router post_route [] (handled 11 none) posted (λ log. codes "POST") [] [] refl refl tt
      post-IsLiteral post-IsSeparate refl
